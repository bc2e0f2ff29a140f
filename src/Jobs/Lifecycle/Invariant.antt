-- ===== src/Jobs/Lifecycle/Invariant.antt =====
-- What holds of a job's row at every moment, and which changes of status happen.
use pack_verse.Base.{ℕ, ◌≤◌, ◌<◌, ◌≡◌, ◌⊎◌, String, true, none, List, [], ◌∷◌, ok, arith, is_some}
use pack_verse.Enums.{
  JobStatus, queued, running, retrying, completed, failed, cancelled, job_status_eq,
}
use pack_verse.Json.{Fields}
use pack_verse.Jobs.Row.{Job}
use pack_verse.Jobs.Machine.{validate_job_transition}
use pack_verse.Jobs.Lifecycle.{
  Event, claim, heartbeat, complete, fail, fail_or_retry, stop, cancel_waiting, ask_to_stop,
  recover, perform, perform_all, new_job,
}

abbrev pub IsTerminal : JobStatus → Type 0
IsTerminal s = (s ≡ completed) ⊎ (s ≡ failed) ⊎ (s ≡ cancelled)

abbrev pub IsWaiting : JobStatus → Type 0
IsWaiting s = (s ≡ queued) ⊎ (s ≡ retrying)

pub record IsConsistent (j : Job) : Type 0 where
  pub attempts_bounded : j.attempt_count ≤ j.max_attempts
  pub attempts_left : IsWaiting j.status → j.attempt_count < j.max_attempts
  pub fresh : j.status ≡ queued → (j.attempt_count ≡ 0) × (j.started_at ≡ none)
  pub unowned : IsWaiting j.status → (j.lease_expires_at ≡ none) × (j.worker_id ≡ none)
  pub owned :
      j.status ≡ running
      → (is_some j.lease_expires_at ≡ true)
        × (is_some j.worker_id ≡ true)
        × (is_some j.started_at ≡ true)
        × (is_some j.heartbeat_at ≡ true)
        × (0 < j.attempt_count)
  pub scheduled :
      j.status ≡ retrying → (is_some j.next_attempt_at ≡ true) × (is_some j.error_code ≡ true)
  pub open_ended : is_some j.completed_at ≡ true → IsTerminal j.status
  pub ended : IsTerminal j.status → is_some j.completed_at ≡ true

pub new_job-IsConsistent :
    (id : ℕ) (job_type : String) (target : ℕ) (input : Fields) (max_attempts created_at : ℕ)
    → 0 < max_attempts
    → IsConsistent (new_job id job_type target input max_attempts created_at)
unfolding new_job
new_job-IsConsistent id job_type target input max_attempts created_at h = ground arith

pub perform-IsConsistent : (e : Event) (j : Job) → IsConsistent j → IsConsistent (perform e j)
unfolding perform
perform-IsConsistent (claim now worker lease) j h = ground arith
perform-IsConsistent (heartbeat now lease) j h = ground arith
perform-IsConsistent (complete now) j h = ground arith
perform-IsConsistent (fail now code message) j h = ground arith
perform-IsConsistent (fail_or_retry now code message base) j h = ground arith
perform-IsConsistent (stop now) j h = ground arith
perform-IsConsistent (cancel_waiting now) j h = ground arith
perform-IsConsistent (ask_to_stop now) j h = ground arith
perform-IsConsistent (recover now base) j h = ground arith

pub perform_all-keeps :
    (es : List Event) (j : Job) → IsConsistent j → IsConsistent (perform_all es j)
unfolding perform_all
perform_all-keeps [] j h = h
perform_all-keeps (e ∷ es) j h = perform_all-keeps es (perform e j) (perform-IsConsistent e j h)

-- An event leaves the status alone, or the transition table allows the change.
pub perform-transition :
    (e : Event) (j : Job)
    → ((perform e j).status ≡ j.status)
      ⊎ (validate_job_transition j.status (perform e j).status ≡ ok tt)
unfolding perform validate_job_transition
perform-transition e j = ground arith
