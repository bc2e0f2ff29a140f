-- ===== src/Jobs/Lifecycle.antt =====
-- The life of one job: every operation that the API, a worker or the recovery can apply to its row,
-- as one event. An operation that raises leaves the row as it was. Each works on the row itself: the
-- call of a worker that lost its lease, whose copy of the job is behind the row, is no event here.
pub mod Invariant
pub mod Attempts
use pack_verse.Base.{
  ℕ, ◌+◌, String, Bool, true, false, ◌&&◌, Option, none, some, List, [], ◌∷◌, Result, ok, err,
  if◌then◌else◌, ◌==◌,
}
use pack_verse.Enums.{JobStatus, queued, running, completed, failed, cancelled, job_status_eq}
use pack_verse.Errors.{JobDomainError}
use pack_verse.Json.{Fields}
use pack_verse.Jobs.Row.{Job}
use pack_verse.Jobs.Queue.{
  mark_completed, mark_failed, mark_failed_or_retry, mark_cancelled, cancel_queued_job,
  request_cancel, heartbeat_tick,
}
use pack_verse.Jobs.Claim.{eligible, claimed}
use pack_verse.Jobs.Recover.{stale, reclaimed}

-- The first number of each event is the time of its call of `datetime.now`.
pub data Event : Type 0 where
  claim : ℕ → String → ℕ → Event
  heartbeat : ℕ → ℕ → Event
  complete : ℕ → Event
  fail : ℕ → String → String → Event
  fail_or_retry : ℕ → String → String → ℕ → Event
  stop : ℕ → Event
  cancel_waiting : ℕ → Event
  ask_to_stop : ℕ → Event
  recover : ℕ → ℕ → Event

-- the row after a call, the same row if it raised
abbrev pub settle : Job → Result JobDomainError Job → Job
settle j (ok j') = j'
settle j (err e) = j

abbrev pub settle_retry : Job → Result JobDomainError (JobStatus × Job) → Job
settle_retry j (ok r) = r.1
settle_retry j (err e) = j

abbrev pub no_lock : ℕ → Bool
no_lock id = false

unfoldable pub perform : Event → Job → Job
unfolding eligible claimed heartbeat_tick mark_completed mark_failed mark_failed_or_retry
    mark_cancelled cancel_queued_job request_cancel stale reclaimed
perform (claim now worker_id lease) j = if eligible now j then claimed now worker_id lease j else j
perform (heartbeat now lease) j = heartbeat_tick now lease j
perform (complete now) j = settle j (mark_completed now j)
perform (fail now code message) j = settle j (mark_failed now code message j)
perform (fail_or_retry now code message base) j =
    settle_retry j (mark_failed_or_retry now code message base j)
perform (stop now) j = settle j (mark_cancelled now j)
perform (cancel_waiting now) j = settle j (cancel_queued_job now j)
perform (ask_to_stop now) j = if j.status == running then request_cancel now j else j
perform (recover now base) j = if stale no_lock now j then reclaimed now base j else j

unfoldable pub perform_all : List Event → Job → Job
perform_all [] j = j
perform_all (e ∷ es) j = perform_all es (perform e j)

-- The row that the enqueueing functions of jobs/service.py insert.
unfoldable pub new_job : ℕ → String → ℕ → Fields → ℕ → ℕ → Job
new_job id job_type target_run_id input_json max_attempts created_at = record {
  id = id;
  job_type = job_type;
  status = queued;
  target_run_id = some target_run_id;
  input_json = input_json;
  error_code = none;
  error_message = none;
  attempt_count = 0;
  max_attempts = max_attempts;
  next_attempt_at = none;
  lease_expires_at = none;
  heartbeat_at = none;
  worker_id = none;
  cancel_requested_at = none;
  started_at = none;
  completed_at = none;
  created_at = created_at;
}
