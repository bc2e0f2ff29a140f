-- ===== src/Jobs/Queue.antt =====
-- backend/app/jobs/queue.py: the operations on one job that a session holds. Each returns the row
-- that its commit writes, or the error raised before any write. `now` is what the operation's call
-- of `datetime.now` returned; seconds are microseconds here, and `attempt_count - 1`, which stops
-- at 0, is the source's `max(attempt_count - 1, 0)`.
use pack_verse.Base.{
  ◌==◌, ℕ, ◌+◌, ◌-◌, ◌*◌, ◌^◌, String, not, none, some, [], ◌∷◌, Result, ok, ◌>>=◌, ◌>>◌, raise_if,
  if◌then◌else◌, ltb, is_none, elem,
}
use pack_verse.Enums.{
  JobStatus, queued, running, retrying, completed, failed, cancelled, job_status_eq,
}
use pack_verse.Errors.{JobDomainError, invalid_job_transition}
use pack_verse.Jobs.Row.{Job}
use pack_verse.Jobs.Machine.{validate_job_transition}

unfoldable pub compute_backoff_seconds : ℕ → ℕ → ℕ
compute_backoff_seconds attempt_count base_seconds = base_seconds * 2 ^ (attempt_count - 1)

unfoldable pub renew_lease : ℕ → ℕ → Job → Job
renew_lease now lease_seconds job = record job {
  heartbeat_at = some now;
  lease_expires_at = some (now + lease_seconds);
}

unfoldable pub mark_completed : ℕ → Job → Result JobDomainError Job
unfolding validate_job_transition
mark_completed now job = do
  validate_job_transition job.status completed
  ok (record job { status = completed; completed_at = some now; lease_expires_at = none })

unfoldable pub mark_failed : ℕ → String → String → Job → Result JobDomainError Job
unfolding validate_job_transition
mark_failed now error_code error_message job = do
  validate_job_transition job.status failed
  ok (record job {
    status = failed;
    error_code = some error_code;
    error_message = some error_message;
    completed_at = some now;
    lease_expires_at = none;
  })

unfoldable pub mark_retrying : ℕ → String → String → ℕ → Job → Result JobDomainError Job
unfolding validate_job_transition
mark_retrying now error_code error_message backoff_seconds job = do
  validate_job_transition job.status retrying
  ok (record job {
    status = retrying;
    error_code = some error_code;
    error_message = some error_message;
    next_attempt_at = some (now + backoff_seconds);
    lease_expires_at = none;
    worker_id = none;
  })

unfoldable pub mark_failed_or_retry :
    ℕ → String → String → ℕ → Job → Result JobDomainError (JobStatus × Job)
unfolding mark_retrying mark_failed compute_backoff_seconds
mark_failed_or_retry now error_code error_message backoff_base_seconds job =
    if ltb job.attempt_count job.max_attempts
    then (do
      let backoff = compute_backoff_seconds job.attempt_count backoff_base_seconds
      job' ← mark_retrying now error_code error_message backoff job
      ok (retrying, job'))
    else do job' ← mark_failed now error_code error_message job; ok (failed, job')

unfoldable pub mark_cancelled : ℕ → Job → Result JobDomainError Job
unfolding validate_job_transition
mark_cancelled now job = do
  validate_job_transition job.status cancelled
  ok (record job {
    status = cancelled;
    completed_at = some now;
    cancel_requested_at =
        if is_none job.cancel_requested_at then some now else job.cancel_requested_at;
  })

unfoldable pub cancel_queued_job : ℕ → Job → Result JobDomainError Job
unfolding validate_job_transition
cancel_queued_job now job = do
  raise_if (not (elem job.status (queued ∷ retrying ∷ [])))
      (invalid_job_transition job.status cancelled)
  validate_job_transition job.status cancelled
  ok (record job { status = cancelled; completed_at = some now })

-- `cancel_workflow_run` of jobs/service.py on the job that a worker is running: a request that the
-- executor reads between steps, set once.
unfoldable pub request_cancel : ℕ → Job → Job
request_cancel now job =
    if is_none job.cancel_requested_at then record job { cancel_requested_at = some now } else job

-- One tick of `_heartbeat_while_running` of worker/runner.py on the row that it reads.
unfoldable pub heartbeat_tick : ℕ → ℕ → Job → Job
unfolding renew_lease
heartbeat_tick now lease_seconds job =
    if job.status == running then renew_lease now lease_seconds job else job
