-- ===== src/Tests/Queue.antt =====
-- The worker on the sample database, whose queue has one waiting job.
use pack_verse.Base.{ℕ, ◌≤◌, ◌≡◌, refl, Bool, true, false, Option, none, [], ◌∷◌, ok, ◌+◌}
use mathlib.Core.List.{Memᴰ}
use pack_verse.Enums.{JobStatus, AgentRunStatus}
use pack_verse.Effects.{Act}
use pack_verse.Jobs.Row.{Job}
use pack_verse.Jobs.Claim.{claimable, claimed, eligible}
use pack_verse.World.{World}
use pack_verse.Worker.Dispatch.Outcome.{Done}
use pack_verse.Worker.Ingest.{Ingestion, process_claimed_job}
use pack_verse.Worker.Ingest.Outcome.{process_claimed_job-Done}
use pack_verse.Worker.Loop.{WorkerSettings, process_one_job}
use pack_verse.Worker.Loop.Outcome.{Worked, process_one_job-Worked}
use pack_verse.Tests.Samples.{sample_job, sample_host, sample_world, parse_five}

abbrev waiting : Job
waiting = sample_job 2 JobStatus.queued 10

abbrev held_ingestion : Job
held_ingestion = record (sample_job 2 JobStatus.running 10) { job_type = "asset_ingestion" }

abbrev with_waiting : World Unit
with_waiting = record (sample_world AgentRunStatus.queued) { jobs = waiting ∷ [] }

abbrev no_ingestion : Ingestion Unit
no_ingestion = record {
  has_chunks = λ asset_id o. false;
  ingest = λ asset_id model provider size overlap o. (ok tt, o);
}

abbrev worker_settings : WorkerSettings
worker_settings = record {
  job_lease_seconds = 60000000;
  job_retry_backoff_base_seconds = 5000000;
  runtime_max_tool_iterations = 5;
}

abbrev no_session_job : ℕ → World Unit → Option Job
no_session_job id w = none

abbrev nobody : ℕ → Bool
nobody id = false

process_claimed_job-Done_example : Done held_ingestion (
    process_claimed_job sample_host 5 parse_five 100 no_ingestion no_session_job held_ingestion
      (sample_world AgentRunStatus.queued))
process_claimed_job-Done_example =
    process_claimed_job-Done sample_host 5 parse_five 100 no_ingestion held_ingestion refl
      no_session_job 7 (sample_world AgentRunStatus.queued) refl

waiting_can : claimable nobody 1000 waiting ≡ true
unfolding eligible
waiting_can = refl

process_one_job-Worked_example :
    (old : Job) × Memᴰ old (waiting ∷ [])
    × (claimable nobody 1000 old ≡ true)
    × (old.created_at ≤ 10)
    × Worked (claimed 1000 "w1" 60000000 old) (
        process_one_job sample_host parse_five worker_settings no_ingestion no_session_job nobody
          "w1" with_waiting)
process_one_job-Worked_example =
    process_one_job-Worked sample_host parse_five worker_settings no_ingestion no_session_job nobody
      "w1" with_waiting waiting (Memᴰ.head refl) waiting_can (refl, tt)

abbrev ingesting : Job
ingesting = record (sample_job 3 JobStatus.queued 10) { job_type = "asset_ingestion" }

abbrev with_ingesting : World Unit
with_ingesting = record (sample_world AgentRunStatus.queued) { jobs = ingesting ∷ [] }

abbrev count_up : ℕ → ℕ
count_up n = 100 + n

abbrev passes : ℕ → Act Unit Unit
passes asset_id o = (ok tt, o)
