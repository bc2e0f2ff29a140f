-- ===== src/Worker/Loop/Outcome.antt =====
-- What one claim with its dispatch achieves.
use pack_verse.Base.{
  ℕ, ◌+◌, ◌≤◌, ◌≡◌, refl, ap, ◌∙◌, String, Bool, true, Option, some, List, Result, ok, err, All,
  inl, inr, Option-cases, is_some, arith,
}
use mathlib.Core.List.{Memᴰ}
use mathlib.Core.Path.{subst}
use pack_verse.Base.Table.{All-mem}
use pack_verse.Enums.{running}
use pack_verse.Errors.{Exn}
use pack_verse.Effects.{pure, continue}
use pack_verse.Jobs.Row.{Job}
use pack_verse.Jobs.Claim.{claimable, claimed}
use pack_verse.Jobs.Claim.Outcome.{claim_next_job_outcome, id-claimed}
use pack_verse.World.{Host, World}
use pack_verse.Worker.Dispatch.Outcome.{IsReleased, Done}
use pack_verse.Worker.Ingest.{Ingestion}
use pack_verse.Worker.Ingest.Outcome.{process_claimed_job-Done}
use pack_verse.Worker.Loop.{WorkerSettings, dispatch_claimed, process_one_job}

-- The worker did some work, and the rows of the held job are released.
abbrev pub Worked : {O : Type 0} → Job → Result Exn Bool × World O → Type 0
Worked held (r, w) = (r ≡ ok true) × All (λ j. j.id ≡ held.id → IsReleased held j) w.jobs

returned-Worked :
    {O : Type 0} (held : Job) (r : Result Exn Unit) (w : World O)
    → Done held (r, w)
    → Worked held (continue r (λ u. pure true) w)
returned-Worked held (ok u) w done = (refl, done.1)
returned-Worked held (err e) w done = absurd (ground (arith, done.0))

target-claimed :
    (now : ℕ) (worker_id : String) (lease : ℕ) (old : Job)
    → (claimed now worker_id lease old).target_run_id ≡ old.target_run_id
unfolding claimed
target-claimed now worker_id lease old = refl

module _ (host : Host) (parse_uuid : String → Option ℕ) (settings : WorkerSettings)
    (ingestion : Ingestion host.services.Outside)
    (session_job : ℕ → World host.services.Outside → Option Job) (locked : ℕ → Bool)
    (worker_id : String) where
  open host use {services, time}
  open services use {Outside}

  held-Worked :
      (held : Job) (run_id : ℕ) (jobs : List Job) (w : World Outside)
      → held.status ≡ running
      → held.target_run_id ≡ some run_id
      → Worked held (
          dispatch_claimed host parse_uuid settings ingestion session_job locked worker_id
            (ok (some held, jobs))
            w)
  unfolding dispatch_claimed
  held-Worked held run_id jobs w is_running target = returned-Worked held _ _ (
      process_claimed_job-Done host settings.runtime_max_tool_iterations parse_uuid
        settings.job_retry_backoff_base_seconds ingestion held is_running session_job run_id
        (record w { jobs = jobs }) target)

  -- If some row is claimable and every row has a target, the worker takes a claimable one that is not
  -- younger, returns that it did some work, and leaves that job with one attempt more, QUEUED and
  -- RUNNING no more, and RETRYING only if an attempt is left.
  pub process_one_job-Worked :
      (w : World Outside) (waiting : Job)
      → Memᴰ waiting w.jobs
      → claimable locked (time w.clock_reads) waiting ≡ true
      → All (λ j. is_some j.target_run_id ≡ true) w.jobs
      → (old : Job) × Memᴰ old w.jobs
        × (claimable locked (time w.clock_reads) old ≡ true)
        × (old.created_at ≤ waiting.created_at)
        × Worked
            (claimed (time w.clock_reads) worker_id settings.job_lease_seconds old)
            (process_one_job host parse_uuid settings ingestion session_job locked worker_id w)
  unfolding process_one_job
  process_one_job-Worked w waiting there can targets =
      let now = time w.clock_reads in
      elim (claim_next_job_outcome locked now worker_id settings.job_lease_seconds w.jobs) [
        | inl (e, no_row) ↦ absurd (no_row waiting there can)
        | inr (old, held, jobs, e, c) ↦
            let has_target =
              All-mem (λ j. is_some j.target_run_id ≡ true) old w.jobs targets c.was_there in
            elim (Option-cases old.target_run_id) [
              | inl missing ↦ absurd (ground (arith, has_target))
              | inr (run_id, target) ↦ (
                old,
                c.was_there,
                c.was_eligible,
                c.first_in_line waiting there can,
                subst
                    (λ h. Worked h (
                      process_one_job host parse_uuid settings ingestion session_job locked
                        worker_id w))
                    c.is_claimed
                    (rw e (
                      held-Worked held run_id jobs (record w { clock_reads = w.clock_reads + 1 })
                        (ap (λ (j : Job). j.status) c.is_claimed
                          ∙ (id-claimed now worker_id settings.job_lease_seconds old).1)
                        (ap (λ (j : Job). j.target_run_id) c.is_claimed
                          ∙ target-claimed now worker_id settings.job_lease_seconds old
                          ∙ target))),
              )
            ]
      ]
