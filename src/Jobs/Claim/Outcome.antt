-- ===== src/Jobs/Claim/Outcome.antt =====
-- What a claim of jobs/queue.py does to the queue, and two claims in a row.
use pack_verse.Base.{
  ℕ, ◌≤◌, ◌≡◌, ◌≢◌, refl, ◌⊎◌, inl, inr, String, Bool, true, none, some, List, [], ◌∷◌, ok, arith,
  leb, All, keep, Bool-cases, Option-cases, ap,
}
use mathlib.Core.Path.{subst, subst₂, ◌∙◌}
use pack_verse.Base.Table.{save, save-only, mem-keep, keep_of_mem, All-mem}
use pack_verse.Enums.{running, job_status_eq}
use pack_verse.Jobs.Row.{Job}
use pack_verse.Jobs.Machine.{validate_job_transition}
use pack_verse.Jobs.Claim.{eligible, claimable, oldest, claimed, claim_row, claim_next_job}
use mathlib.Core.List.{Memᴰ}

oldest-mem : (xs : List Job) (j : Job) → oldest xs ≡ some j → Memᴰ j xs
unfolding oldest
oldest-mem [] j h = absurd (ground arith)
oldest-mem (x ∷ xs) j h = elim (Option-cases (oldest xs)) [
  | inl e ↦ Memᴰ.head (ground arith)
  | inr (k, e) ↦ elim (Bool-cases (leb x.created_at k.created_at)) [
    | inl t ↦ Memᴰ.head (ground arith)
    | inr t ↦ Memᴰ.tail (oldest-mem xs j (ground arith))
  ]
]

abbrev pub NotOlder : Job → Job → Type 0
NotOlder j k = j.created_at ≤ k.created_at

NotOlder-weaken :
    (i j : Job) (xs : List Job) → NotOlder i j → All (NotOlder j) xs → All (NotOlder i) xs
NotOlder-weaken i j [] h a = tt
NotOlder-weaken i j (x ∷ xs) h a = (omega arith, NotOlder-weaken i j xs h a.1)

oldest-none : (xs : List Job) → oldest xs ≡ none → xs ≡ []
unfolding oldest
oldest-none [] h = refl
oldest-none (x ∷ xs) h = ground arith

oldest-NotOlder : (xs : List Job) (j : Job) → oldest xs ≡ some j → All (NotOlder j) xs
unfolding oldest
oldest-NotOlder [] j h = tt
oldest-NotOlder (x ∷ xs) j h = elim (Option-cases (oldest xs)) [
  | inl e ↦ rw (oldest-none xs e) (ground arith, tt)
  | inr (k, e) ↦ elim (Bool-cases (leb x.created_at k.created_at)) [
    | inl t ↦ (ground arith, NotOlder-weaken j k xs (ground arith) (oldest-NotOlder xs k e))
    | inr t ↦ (ground arith, oldest-NotOlder xs j (ground arith))
  ]
]

-- What the claim of `old` as `job` means.
pub record IsClaim (locked : ℕ → Bool) (now : ℕ) (worker_id : String) (lease_seconds : ℕ)
    (jobs : List Job) (old job : Job) (jobs' : List Job) : Type 0 where
  pub was_there : Memᴰ old jobs
  pub was_eligible : claimable locked now old ≡ true
  pub first_in_line :
      (k : Job) → Memᴰ k jobs → claimable locked now k ≡ true → old.created_at ≤ k.created_at
  pub is_claimed : job ≡ claimed now worker_id lease_seconds old
  pub written : jobs' ≡ save (λ j. j.id) job jobs

eligible-validates :
    (now : ℕ) (j : Job) → eligible now j ≡ true → validate_job_transition j.status running ≡ ok tt
unfolding eligible validate_job_transition
eligible-validates now j h = ground arith

claim_row-some :
    (now : ℕ) (worker_id : String) (lease_seconds : ℕ) (jobs : List Job) (old : Job)
    → eligible now old ≡ true
    → claim_row now worker_id lease_seconds jobs (some old)
      ≡ ok (
        some (claimed now worker_id lease_seconds old),
        save (λ j. j.id) (claimed now worker_id lease_seconds old) jobs,
      )
unfolding claim_row eligible
claim_row-some now worker_id lease_seconds jobs old h = ground arith

claim_next_job_unfold :
    (locked : ℕ → Bool) (now : ℕ) (worker_id : String) (lease_seconds : ℕ) (jobs : List Job)
    → claim_next_job locked now worker_id lease_seconds jobs
      ≡ claim_row now worker_id lease_seconds jobs (oldest (keep (claimable locked now) jobs))
unfolding claim_next_job
claim_next_job_unfold locked now worker_id lease_seconds jobs = refl

claim_row-none :
    (now : ℕ) (worker_id : String) (lease_seconds : ℕ) (jobs : List Job)
    → claim_row now worker_id lease_seconds jobs none ≡ ok (none, jobs)
unfolding claim_row
claim_row-none now worker_id lease_seconds jobs = refl

not-mem-nil_of_eq : (k : Job) (xs : List Job) → xs ≡ [] → Memᴰ k xs → ⊥
not-mem-nil_of_eq k xs e m = nil_case (subst (λ l. Memᴰ k l) e m)
  where
    nil_case : Memᴰ k [] → ⊥
    nil_case m = elim m [ ]

module _ (locked : ℕ → Bool) (now : ℕ) (worker_id : String) (lease_seconds : ℕ)
    (jobs : List Job) where
  abbrev candidates : List Job
  candidates = keep (claimable locked now) jobs

  claims_oldest :
      (old : Job)
      → oldest candidates ≡ some old
      → (eligible now old ≡ true)
        × IsClaim locked now worker_id lease_seconds jobs old
            (claimed now worker_id lease_seconds old)
            (save (λ j. j.id) (claimed now worker_id lease_seconds old) jobs)
  claims_oldest old e =
      let (there, passes) =
        mem-keep (claimable locked now) old jobs (oldest-mem candidates old e) in
      (
        ground arith,
        record {
          was_there = there;
          was_eligible = passes;
          first_in_line = λ k m h.
              All-mem (NotOlder old) k candidates (oldest-NotOlder candidates old e)
                (keep_of_mem (claimable locked now) k jobs m h);
          is_claimed = refl;
          written = refl;
        },
      )

  -- A claim never raises. Either no row is claimable, and it returns None and changes nothing; or
  -- it takes a claimable row that is the oldest of them, returns it as claimed by the worker with
  -- one more attempt, and writes that row alone.
  pub claim_next_job_outcome :
      ((claim_next_job locked now worker_id lease_seconds jobs ≡ ok (none, jobs))
        × ((k : Job) → Memᴰ k jobs → claimable locked now k ≢ true))
      ⊎ ((old : Job) × (job : Job) × (jobs' : List Job) × (claim_next_job locked now worker_id
              lease_seconds jobs
            ≡ ok (some job, jobs'))
          × IsClaim locked now worker_id lease_seconds jobs old job jobs')
  claim_next_job_outcome = elim (Option-cases (oldest candidates)) [
    | inl e ↦ inl (
      claim_next_job_unfold locked now worker_id lease_seconds jobs
          ∙ ap (claim_row now worker_id lease_seconds jobs) e
          ∙ claim_row-none now worker_id lease_seconds jobs,
      λ k m h.
          not-mem-nil_of_eq k candidates (oldest-none candidates e)
            (keep_of_mem (claimable locked now) k jobs m h),
    )
    | inr (old, e) ↦
        let (el, c) = claims_oldest old e in
        inr (
          old,
          claimed now worker_id lease_seconds old,
          save (λ j. j.id) (claimed now worker_id lease_seconds old) jobs,
          claim_next_job_unfold locked now worker_id lease_seconds jobs
              ∙ ap (claim_row now worker_id lease_seconds jobs) e
              ∙ claim_row-some now worker_id lease_seconds jobs old el,
          c,
        )
  ]

  -- The claimed row and the table that a claim returned come from a claimable row.
  pub IsClaim-of_result :
      (job : Job) (jobs' : List Job)
      → claim_next_job locked now worker_id lease_seconds jobs ≡ ok (some job, jobs')
      → (old : Job) × IsClaim locked now worker_id lease_seconds jobs old job jobs'
  IsClaim-of_result job jobs' h = elim claim_next_job_outcome [
    | inl (e, _) ↦ absurd (ground (arith, e))
    | inr (old, j, t, e, c) ↦
        let same : j ≡ job = cc (e, h) in
        let written : t ≡ jobs' = cc (e, h) in
        (
          old,
          subst₂ (λ x y. IsClaim locked now worker_id lease_seconds jobs old x y) same written c,
        )
  ]

pub id-claimed :
    (now : ℕ) (worker_id : String) (lease_seconds : ℕ) (old : Job)
    → ((claimed now worker_id lease_seconds old).id ≡ old.id)
      × ((claimed now worker_id lease_seconds old).status ≡ running)
unfolding claimed
id-claimed now worker_id lease_seconds old = (refl, refl)

running-not_eligible : (now : ℕ) (j : Job) → j.status ≡ running → eligible now j ≢ true
unfolding eligible
running-not_eligible now j r h = ground arith

-- Two claims, one after the other, at any times, by any workers and with any rows locked by others,
-- take different jobs.
pub claim_next_job_exclusive :
    (locked₁ locked₂ : ℕ → Bool) (now₁ now₂ : ℕ) (worker₁ worker₂ : String) (lease₁ lease₂ : ℕ)
    (jobs jobs₁ jobs₂ : List Job) (first second : Job)
    → claim_next_job locked₁ now₁ worker₁ lease₁ jobs ≡ ok (some first, jobs₁)
    → claim_next_job locked₂ now₂ worker₂ lease₂ jobs₁ ≡ ok (some second, jobs₂)
    → first.id ≢ second.id
claim_next_job_exclusive locked₁ locked₂ now₁ now₂ worker₁ worker₂ lease₁ lease₂ jobs jobs₁ jobs₂
      first second h₁ h₂ same =
    let (old₁, c₁) = IsClaim-of_result locked₁ now₁ worker₁ lease₁ jobs first jobs₁ h₁ in
    let (old₂, c₂) = IsClaim-of_result locked₂ now₂ worker₂ lease₂ jobs₁ second jobs₂ h₂ in
    let there : Memᴰ old₂ (save (λ j. j.id) first jobs) =
      subst (λ t. Memᴰ old₂ t) c₁.written c₂.was_there in
    let same_id : old₂.id ≡ first.id =
      cc (ap (λ (j : Job). j.id) c₂.is_claimed, (id-claimed now₂ worker₂ lease₂ old₂).0, same) in
    let was_first : old₂ ≡ first = save-only (λ j. j.id) old₂ first jobs there same_id in
    let busy : old₂.status ≡ running = cc (
      ap (λ (j : Job). j.status) was_first,
      ap (λ (j : Job). j.status) c₁.is_claimed,
      (id-claimed now₁ worker₁ lease₁ old₁).1,
    ) in
    running-not_eligible now₂ old₂ busy (ground (arith, c₂.was_eligible))
