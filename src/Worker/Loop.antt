-- ===== src/Worker/Loop.antt =====
-- backend/app/worker/runner.py: one claim with its dispatch, the worker's own heartbeat, and the loop.
-- Times are in microseconds. The task that renews the lease while a job runs works in a session of
-- its own, and is left to Jobs/Queue.antt; `rounds` is how often the loop finds the shutdown event unset.
pub mod Outcome
use pack_verse.Base.{
  ℕ, zero, suc, ◌+◌, ◌-◌, String, Bool, true, false, Option, none, some, List, [], ◌∷◌, ◌++◌,
  Result, ok, err, if◌then◌else◌, leb, max, ◌==◌, string_eq,
}
use pack_verse.Errors.{Exn, JobDomainError, job}
use pack_verse.Effects.{Act, pure, lift, ◌>>=◌, ◌>>◌}
use pack_verse.Jobs.Row.{Job}
use pack_verse.Jobs.Claim.{claim_next_job}
use pack_verse.Jobs.Recover.{recover_stale_jobs}
use pack_verse.World.{Host, World}
use pack_verse.Worker.Ingest.{Ingestion, process_claimed_job}

-- models/worker_heartbeat.py
pub record WorkerHeartbeat : Type 0 where
  pub worker_id : String
  pub started_at : ℕ
  pub last_heartbeat_at : ℕ

-- the row of a worker, a new one if it has none
unfoldable pub upsert_heartbeat : String → ℕ → ℕ → List WorkerHeartbeat → List WorkerHeartbeat
upsert_heartbeat worker_id started_at now [] =
    record { worker_id = worker_id; started_at = started_at; last_heartbeat_at = now } ∷ []
upsert_heartbeat worker_id started_at now (row ∷ rows) =
    if row.worker_id == worker_id
    then record row { last_heartbeat_at = now } ∷ rows
    else row ∷ upsert_heartbeat worker_id started_at now rows

pub record WorkerSettings : Type 0 where
  pub job_lease_seconds : ℕ
  pub job_retry_backoff_base_seconds : ℕ
  pub runtime_max_tool_iterations : ℕ

-- what the loop works on, and its local variable
pub record WorkerState (O : Type 0) : Type 0 where
  pub world : World O
  pub heartbeats : List WorkerHeartbeat
  pub last_recovery_check : ℕ

-- `timedelta(seconds=max(settings.job_lease_seconds, 30.0))`
abbrev pub recovery_interval : WorkerSettings → ℕ
recovery_interval settings = max settings.job_lease_seconds 30000000

module _ (host : Host) (parse_uuid : String → Option ℕ) (settings : WorkerSettings)
    (ingestion : Ingestion host.services.Outside)
    (session_job : ℕ → World host.services.Outside → Option Job) (locked : ℕ → Bool)
    (worker_id : String) where
  open host use {services, time}
  open services use {Outside}

  -- the dispatch of the claimed job, if there is one
  unfoldable pub dispatch_claimed :
      Result JobDomainError (Option Job × List Job) → Act (World Outside) Bool
  unfolding process_claimed_job
  dispatch_claimed (err e) w = (err (job e), w)
  dispatch_claimed (ok (none, jobs)) w = (ok false, w)
  dispatch_claimed (ok (some held, jobs)) w =
      (process_claimed_job host settings.runtime_max_tool_iterations parse_uuid
            settings.job_retry_backoff_base_seconds ingestion session_job held
          >> pure true)
        (record w { jobs = jobs })

  unfoldable pub process_one_job : Act (World Outside) Bool
  unfolding claim_next_job dispatch_claimed
  process_one_job w =
      dispatch_claimed
        (claim_next_job locked (time w.clock_reads) worker_id settings.job_lease_seconds w.jobs)
        (record w { clock_reads = w.clock_reads + 1 })

  abbrev pub beat : ℕ → WorkerState Outside → WorkerState Outside
  beat started_at s = record s {
    heartbeats = upsert_heartbeat worker_id started_at (time s.world.clock_reads) s.heartbeats;
    world = record s.world { clock_reads = s.world.clock_reads + 1 };
  }

  abbrev pub recover : WorkerState Outside → WorkerState Outside
  recover s = record s {
    world = record s.world {
      clock_reads = s.world.clock_reads + 1;
      jobs =
          (recover_stale_jobs locked (time s.world.clock_reads)
            settings.job_retry_backoff_base_seconds s.world.jobs).1;
    };
  }

  -- the recovery pass, if its interval is over
  abbrev pub recover_if_due : WorkerState Outside → WorkerState Outside
  recover_if_due s =
      let now = time s.world.clock_reads in
      let read = record s { world = record s.world { clock_reads = s.world.clock_reads + 1 } } in
      if leb (recovery_interval settings) (now - s.last_recovery_check)
      then record (recover read) { last_recovery_check = now }
      else read

  -- one turn of the loop
  unfoldable pub worker_round : ℕ → Act (WorkerState Outside) Bool
  unfolding process_one_job upsert_heartbeat recover_stale_jobs
  worker_round started_at s =
      let (r, w) = process_one_job s.world in
      elim r [
        | ok did_work ↦ (ok did_work, recover_if_due (beat started_at (record s { world = w })))
        | err e ↦ (err e, record s { world = w })
      ]

  unfoldable pub worker_rounds : ℕ → ℕ → Act (WorkerState Outside) Unit
  unfolding worker_round
  worker_rounds zero started_at = pure tt
  worker_rounds (suc rounds) started_at = worker_round started_at >> worker_rounds rounds started_at

  unfoldable pub run_worker :
      ℕ → World Outside → List WorkerHeartbeat → Result Exn Unit × WorkerState Outside
  unfolding worker_rounds
  run_worker rounds w heartbeats =
      let started_at = time w.clock_reads in
      let s0 : WorkerState Outside = record {
        world = record w { clock_reads = w.clock_reads + 1 };
        heartbeats = heartbeats;
        last_recovery_check = 0;
      } in
      let s1 = recover (beat started_at s0) in
      let s2 = record s1 {
        world = record s1.world { clock_reads = s1.world.clock_reads + 1 };
        last_recovery_check = time s1.world.clock_reads;
      } in
      worker_rounds rounds started_at s2
