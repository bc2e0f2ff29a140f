-- ===== src/Jobs/Lifecycle/Attempts.antt =====
-- The attempts of a job over its life, and the waits between them.
use native.Mathlib.Nat.{pow-suc}
use pack_verse.Base.{
  ℕ, suc, ◌+◌, ◌-◌, ◌*◌, ◌^◌, ◌≤◌, ◌<◌, ◌≡◌, refl, ◌∙◌, String, none, some, List, [], ◌∷◌, ok,
  arith, leb, if◌then◌else◌,
}
use pack_verse.Enums.{running, retrying, job_status_eq}
use pack_verse.Json.{Fields}
use pack_verse.Jobs.Row.{Job}
use pack_verse.Jobs.Queue.{compute_backoff_seconds, mark_failed_or_retry}
use pack_verse.Jobs.Claim.{eligible}
use pack_verse.Jobs.Lifecycle.{Event, claim, perform, perform_all, new_job}
use pack_verse.Jobs.Lifecycle.Invariant.{IsConsistent, new_job-IsConsistent, perform_all-keeps}

-- 1 for a claim that takes the job
abbrev pub taken : Event → Job → ℕ
taken (claim now worker lease) j = if eligible now j then 1 else 0
taken _ j = 0

-- how many of the events are claims that take the job
unfoldable pub claims : List Event → Job → ℕ
claims [] j = 0
claims (e ∷ es) j = taken e j + claims es (perform e j)

perform-attempt_count :
    (e : Event) (j : Job) → (perform e j).attempt_count ≡ taken e j + j.attempt_count
unfolding perform
perform-attempt_count (claim now worker lease) j = ground arith
perform-attempt_count e j = ground arith

perform-max_attempts : (e : Event) (j : Job) → (perform e j).max_attempts ≡ j.max_attempts
unfolding perform
perform-max_attempts e j = ground arith

attempts_count_claims :
    (es : List Event) (j : Job) → (perform_all es j).attempt_count ≡ claims es j + j.attempt_count
unfolding perform_all claims
attempts_count_claims [] j = omega arith
attempts_count_claims (e ∷ es) j =
    omega (arith, attempts_count_claims es (perform e j), perform-attempt_count e j)

max_attempts_kept : (es : List Event) (j : Job) → (perform_all es j).max_attempts ≡ j.max_attempts
unfolding perform_all
max_attempts_kept [] j = refl
max_attempts_kept (e ∷ es) j = max_attempts_kept es (perform e j) ∙ perform-max_attempts e j

-- Whatever happens to a new job, in whatever order: it satisfies the invariant, its attempt count is
-- the number of claims that took it, and they are at most `max_attempts`.
pub new_job_history :
    (es : List Event) (id : ℕ) (job_type : String) (target : ℕ) (input : Fields)
    (max_attempts created_at : ℕ)
    → 0 < max_attempts
    → let j = new_job id job_type target input max_attempts created_at in
      IsConsistent (perform_all es j)
      × ((perform_all es j).attempt_count ≡ claims es j)
      × (claims es j ≤ max_attempts)
unfolding new_job
new_job_history es id job_type target input max_attempts created_at h =
    let j = new_job id job_type target input max_attempts created_at in
    let kept =
      perform_all-keeps es j
        (new_job-IsConsistent id job_type target input max_attempts created_at h) in
    let counted = attempts_count_claims es j in
    (
      kept,
      omega (arith, counted),
      omega (arith, kept.attempts_bounded, counted, max_attempts_kept es j),
    )

-- The wait doubles from one failed attempt to the next.
pub compute_backoff_seconds_doubles :
    (n base : ℕ) → compute_backoff_seconds (n + 2) base ≡ 2 * compute_backoff_seconds (n + 1) base
unfolding compute_backoff_seconds
compute_backoff_seconds_doubles n base =
    let two_less : n + 2 - 1 ≡ suc n = omega arith in
    let one_less : n + 1 - 1 ≡ n = omega arith in rw (two_less, one_less, pow-suc) (omega arith)

-- A running job with attempts left that fails unexpectedly at `now` can be claimed at `later` exactly
-- if `base * 2 ^ (attempt_count - 1)` has passed.
pub retry_waits :
    (now base later : ℕ) (code message : String) (j : Job)
    → j.status ≡ running
    → j.attempt_count < j.max_attempts
    → (j' : Job) × (mark_failed_or_retry now code message base j ≡ ok (retrying, j'))
      × (eligible later j' ≡ leb (now + base * 2 ^ (j.attempt_count - 1)) later)
unfolding mark_failed_or_retry eligible
retry_waits now base later code message j r h = (
  record j {
    status = retrying;
    error_code = some code;
    error_message = some message;
    next_attempt_at = some (now + base * 2 ^ (j.attempt_count - 1));
    lease_expires_at = none;
    worker_id = none;
  },
  ground arith,
  ground arith,
)
