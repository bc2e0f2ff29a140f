-- ===== src/Jobs/Recover.antt =====
-- `recover_stale_jobs` of backend/app/jobs/queue.py, over the whole `jobs` table. A comparison with
-- a NULL lease is not true in SQL, so a running job with no lease is not stale.
pub mod Pass
use pack_verse.Base.{
  ℕ, ◌+◌, Bool, false, ◌&&◌, not, Option, none, some, List, if◌then◌else◌, ltb, ◌==◌, keep, length,
}
use pack_verse.Base.Rows.{save_each}
use pack_verse.Enums.{running, retrying, failed, job_status_eq}
use pack_verse.Jobs.Row.{Job}
use pack_verse.Jobs.Queue.{compute_backoff_seconds}

abbrev pub lease_before : ℕ → Option ℕ → Bool
lease_before now none = false
lease_before now (some t) = ltb t now

-- the rows of the recovery's query: running, the lease expired, not locked by another transaction
unfoldable pub stale : (ℕ → Bool) → ℕ → Job → Bool
stale locked now job =
    job.status == running && lease_before now job.lease_expires_at && not (locked job.id)

-- the body of the recovery's loop
unfoldable pub reclaimed : ℕ → ℕ → Job → Job
unfolding compute_backoff_seconds
reclaimed now backoff_base_seconds job =
    let freed = record job { worker_id = none; lease_expires_at = none; heartbeat_at = none } in
    if ltb job.attempt_count job.max_attempts
    then record freed {
      status = retrying;
      next_attempt_at = some (now + compute_backoff_seconds job.attempt_count backoff_base_seconds);
      error_code = some "WorkerLeaseExpired";
      error_message =
          some "Worker heartbeat lease expired before the job finished - reclaimed for retry.";
    }
    else record freed {
      status = failed;
      completed_at = some now;
      error_code = some "WorkerLeaseExpired";
      error_message = some "Worker heartbeat lease expired and max_attempts was already exhausted.";
    }

unfoldable pub recover_stale_jobs : (ℕ → Bool) → ℕ → ℕ → List Job → ℕ × List Job
unfolding stale reclaimed
recover_stale_jobs locked now backoff_base_seconds jobs =
    let stale_jobs = keep (stale locked now) jobs in
    (length stale_jobs, save_each (λ j. j.id) (reclaimed now backoff_base_seconds) stale_jobs jobs)
