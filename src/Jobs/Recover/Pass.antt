-- ===== src/Jobs/Recover/Pass.antt =====
-- The loop of `recover_stale_jobs` as a pass over the table.
use pack_verse.Enums.{running, retrying, failed, job_status_eq}
use pack_verse.Jobs.Queue.{compute_backoff_seconds}
use pack_verse.Base.{
  suc, ◌+◌, ◌-◌, ◌*◌, ◌^◌, ◌<◌, ◌≤◌, ◌⊎◌, true, none, some, Option, [], ◌∷◌, ltb, ltb→lt, ℕ, ◌≡◌,
  refl, ap, sym, Bool, false, List, map, arith, if◌then◌else◌, All, All-map, All-of_forall, keep,
  keep_none, length, Bool-cases, inl, inr,
}
use mathlib.Core.Path.{subst}
use pack_verse.Base.Rows.{Unique, save_each_lem}
use pack_verse.Jobs.Row.{Job}
use pack_verse.Jobs.Recover.{lease_before, stale, reclaimed, recover_stale_jobs}

id-reclaimed : (now base : ℕ) (j : Job) → (reclaimed now base j).id ≡ j.id
unfolding reclaimed
id-reclaimed now base j = ground arith

stale-reclaimed :
    (locked : ℕ → Bool) (now now' base : ℕ) (j : Job)
    → stale locked now' (reclaimed now base j) ≡ false
unfolding stale reclaimed
stale-reclaimed locked now now' base j = ground arith

module _ (locked : ℕ → Bool) (now base : ℕ) where
  -- what one pass makes of a row
  abbrev pub recover_row : Job → Job
  recover_row j = if stale locked now j then reclaimed now base j else j

  -- With unique ids, the recovery reclaims every stale row, leaves every other row as it was, and
  -- returns how many rows were stale.
  pub recover_stale_jobs_lem :
      (jobs : List Job)
      → Unique (λ j. j.id) jobs
      → recover_stale_jobs locked now base jobs
        ≡ (length (keep (stale locked now) jobs), map recover_row jobs)
  unfolding recover_stale_jobs
  recover_stale_jobs_lem jobs u =
      ap (λ t. (length (keep (stale locked now) jobs), t))
        (save_each_lem (λ j. j.id) (reclaimed now base) (id-reclaimed now base) (stale locked now)
          jobs u)

  -- A row whose lease has run out and that no other transaction locks.
  abbrev pub IsExpired : Job → Type 0
  IsExpired j =
      (j.status ≡ running)
      × (lease : ℕ) × (j.lease_expires_at ≡ some lease)
      × (lease < now)
      × (locked j.id ≡ false)

  -- What becomes of such a row: nobody holds it; it is RETRYING, to wait base * 2 ^ (attempt_count - 1)
  -- from now on, if an attempt is left, and FAILED if none is.
  abbrev pub IsReclaimed : Job → Job → Type 0
  IsReclaimed j k =
      (k.id ≡ j.id)
      × (k.worker_id ≡ none)
      × (k.lease_expires_at ≡ none)
      × (k.attempt_count ≡ j.attempt_count)
      × (k.error_code ≡ some "WorkerLeaseExpired")
      × (((j.attempt_count < j.max_attempts)
            × (k.status ≡ retrying)
            × (k.next_attempt_at ≡ some (now + base * 2 ^ (j.attempt_count - 1))))
          ⊎ ((j.max_attempts ≤ j.attempt_count)
              × (k.status ≡ failed)
              × (k.completed_at ≡ some now)))

  -- The rows after the recovery, and how many it reclaimed.
  abbrev pub Recovered : List Job → ℕ → List Job → Type 0
  Recovered [] n [] = n ≡ 0
  Recovered [] n (k ∷ ks) = ⊥
  Recovered (j ∷ js) n [] = ⊥
  Recovered (j ∷ js) n (k ∷ ks) =
      (IsExpired j × IsReclaimed j k × (m : ℕ) × (n ≡ suc m) × Recovered js m ks)
      ⊎ (¬ IsExpired j × (k ≡ j) × Recovered js n ks)

  lease_of :
      (lease : Option ℕ) → lease_before now lease ≡ true → (t : ℕ) × (lease ≡ some t) × (t < now)
  lease_of none h = absurd (ground arith)
  lease_of (some t) h = (t, refl, ltb→lt t now h)

  lease_passed :
      (lease : Option ℕ) (t : ℕ) → lease ≡ some t → t < now → lease_before now lease ≡ true
  lease_passed lease t e h = rw e (ground arith)

  stale-IsExpired : (j : Job) → stale locked now j ≡ true → IsExpired j
  unfolding stale
  stale-IsExpired j h =
      let (lease, e, before) = lease_of j.lease_expires_at (ground arith) in
      ((job_status_eq.same_iff j.status running).0 (ground arith), lease, e, before, ground arith)

  stale-not_IsExpired : (j : Job) → stale locked now j ≡ false → ¬ IsExpired j
  unfolding stale
  stale-not_IsExpired j h (is_running, lease, e, before, free) = absurd (
      ground (
        arith,
        (job_status_eq.same_iff j.status running).1 is_running,
        lease_passed j.lease_expires_at lease e before,
        free,
      ))

  reclaimed-IsReclaimed : (j : Job) → IsReclaimed j (reclaimed now base j)
  unfolding reclaimed compute_backoff_seconds
  reclaimed-IsReclaimed j = elim (Bool-cases (ltb j.attempt_count j.max_attempts)) [
    | inl h ↦
        rw h
          (refl, refl, refl, refl, refl, inl (ltb→lt j.attempt_count j.max_attempts h, refl, refl))
    | inr h ↦ rw h (refl, refl, refl, refl, refl, inr (ground arith, refl, refl))
  ]

  rows-Recovered :
      (jobs : List Job)
      → Recovered jobs (length (keep (stale locked now) jobs)) (map recover_row jobs)
  rows-Recovered [] = refl
  rows-Recovered (j ∷ js) = elim (Bool-cases (stale locked now j)) [
    | inl h ↦ rw h (
        inl (
          stale-IsExpired j h,
          reclaimed-IsReclaimed j,
          length (keep (stale locked now) js),
          refl,
          rows-Recovered js,
        ))
    | inr h ↦ rw h (inr (stale-not_IsExpired j h, refl, rows-Recovered js))
  ]

  -- With unique ids, the recovery takes exactly the RUNNING rows whose lease has expired and that
  -- nobody locks, returns how many they are, and leaves every other row as it was. A row that it takes
  -- is held by nobody: it is RETRYING and waits if an attempt is left, and FAILED if none is.
  pub recover_stale_jobs-Recovered :
      (jobs : List Job)
      → Unique (λ j. j.id) jobs
      → let (n, jobs') = recover_stale_jobs locked now base jobs in Recovered jobs n jobs'
  recover_stale_jobs-Recovered jobs u =
      subst (λ (r : ℕ × List Job). Recovered jobs r.0 r.1) (sym (recover_stale_jobs_lem jobs u))
        (rows-Recovered jobs)

  row_settled : (j : Job) → stale locked now (recover_row j) ≡ false
  row_settled j = elim (Bool-cases (stale locked now j)) [
    | inl e ↦ rw e (stale-reclaimed locked now now base j)
    | inr e ↦ rw e e
  ]

  pub settled : (jobs : List Job) → All (λ j. stale locked now j ≡ false) (map recover_row jobs)
  settled jobs =
      All-map (λ j. stale locked now j ≡ false) recover_row jobs (All-of_forall _ jobs row_settled)

  nothing_stale :
      (jobs : List Job)
      → All (λ j. stale locked now j ≡ false) jobs
      → recover_stale_jobs locked now base jobs ≡ (0, jobs)
  unfolding recover_stale_jobs
  nothing_stale jobs h = rw (keep_none (stale locked now) jobs h) refl

  -- With unique ids, a second recovery at the same time finds no stale job and changes nothing.
  pub recover_stale_jobs_again :
      (jobs : List Job)
      → Unique (λ j. j.id) jobs
      → let jobs' = (recover_stale_jobs locked now base jobs).1 in
        recover_stale_jobs locked now base jobs' ≡ (0, jobs')
  recover_stale_jobs_again jobs u =
      subst (λ (r : ℕ × List Job). recover_stale_jobs locked now base r.1 ≡ (0, r.1))
        (sym (recover_stale_jobs_lem jobs u)) (nothing_stale (map recover_row jobs) (settled jobs))
