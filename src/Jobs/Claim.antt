-- ===== src/Jobs/Claim.antt =====
-- `claim_next_job` of backend/app/jobs/queue.py, over the whole `jobs` table. `locked` says which
-- rows other transactions hold, which SKIP LOCKED passes over; of several oldest jobs, which the
-- query may return in any order, the first row of the table is taken.
pub mod Outcome
use pack_verse.Base.{
  ℕ, ◌+◌, String, Bool, true, ◌&&◌, not, Option, none, some, List, [], ◌∷◌, Result, ok, ◌>>◌,
  if◌then◌else◌, leb, is_none, elem, keep,
}
use pack_verse.Base.Table.{save}
use pack_verse.Enums.{queued, running, retrying, job_status_eq}
use pack_verse.Errors.{JobDomainError}
use pack_verse.Jobs.Row.{Job}
use pack_verse.Jobs.Machine.{validate_job_transition}

-- `or_(next_attempt_at.is_(None), next_attempt_at <= now)`
abbrev pub is_due : ℕ → Option ℕ → Bool
is_due now none = true
is_due now (some t) = leb t now

-- the WHERE clause of the claim
unfoldable pub eligible : ℕ → Job → Bool
eligible now job = elem job.status (queued ∷ retrying ∷ []) && is_due now job.next_attempt_at

-- the rows that the claim's query can return: eligible and not locked by another transaction
abbrev pub claimable : (ℕ → Bool) → ℕ → Job → Bool
claimable locked now job = eligible now job && not (locked job.id)

-- `.order_by(Job.created_at).limit(1)`
unfoldable pub oldest : List Job → Option Job
oldest [] = none
oldest (j ∷ js) = elim (oldest js) [
  | none ↦ some j
  | some k ↦ some (if leb j.created_at k.created_at then j else k)
]

-- the assignments of the claim
unfoldable pub claimed : ℕ → String → ℕ → Job → Job
claimed now worker_id lease_seconds job = record job {
  status = running;
  attempt_count = job.attempt_count + 1;
  worker_id = some worker_id;
  lease_expires_at = some (now + lease_seconds);
  heartbeat_at = some now;
  started_at = if is_none job.started_at then some now else job.started_at;
}

unfoldable pub claim_row :
    ℕ → String → ℕ → List Job → Option Job → Result JobDomainError (Option Job × List Job)
unfolding claimed validate_job_transition
claim_row now worker_id lease_seconds jobs none = ok (none, jobs)
claim_row now worker_id lease_seconds jobs (some job) = do
  validate_job_transition job.status running
  let job' = claimed now worker_id lease_seconds job
  ok (some job', save (λ j. j.id) job' jobs)

unfoldable pub claim_next_job :
    (ℕ → Bool) → ℕ → String → ℕ → List Job → Result JobDomainError (Option Job × List Job)
unfolding claim_row eligible oldest
claim_next_job locked now worker_id lease_seconds jobs =
    claim_row now worker_id lease_seconds jobs (oldest (keep (claimable locked now) jobs))
