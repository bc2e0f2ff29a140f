-- ===== src/Worker/Ingest/Outcome.antt =====
-- What the dispatch of a claimed job leaves behind, whatever its type.
use pack_verse.Base.{
  ℕ, ◌≡◌, sym, String, Option, some, Result, ok, err, Bool-cases, inl, inr, ◌==◌, string_eq,
}
use mathlib.Core.Path.{subst}
use pack_verse.Enums.{JobStatus}
use pack_verse.Errors.{Exn}
use pack_verse.Jobs.Row.{Job}
use pack_verse.Jobs.Service.{agent_run_job_type, workflow_run_job_type}
use pack_verse.Jobs.Ingestion.{asset_ingestion_job_type}
use pack_verse.World.{Host, World}
use pack_verse.Worker.Dispatch.Outcome.{
  Done, completed-Done, failed-Done, retry_or_fail-Done, process_agent_run_job-Done,
  process_workflow_run_job-Done,
}
use pack_verse.Worker.Ingest.{
  Ingestion, ends_ingestion, after_ingestion, ingest_for, with_asset, process_asset_ingestion_job,
  process_typed, process_claimed_job,
}

module _ (host : Host) (max_tool_iterations : ℕ) (parse_uuid : String → Option ℕ)
    (backoff_base : ℕ) where
  open host use {services}
  open services use {Outside}

  module _ (ingestion : Ingestion Outside) (held : Job)
      (is_running : held.status ≡ JobStatus.running) where
    after_ingestion-Done :
        (r : Result Exn Unit) (w : World Outside)
        → Done held (after_ingestion host max_tool_iterations parse_uuid backoff_base held r w)
    unfolding after_ingestion
    after_ingestion-Done (ok u) w =
        completed-Done host max_tool_iterations parse_uuid backoff_base held is_running w
    after_ingestion-Done (err e) w = elim (Bool-cases (ends_ingestion e)) [
      | inl h ↦
          rw h (failed-Done host max_tool_iterations parse_uuid backoff_base held is_running _ _ w)
      | inr h ↦
          rw h (
            retry_or_fail-Done host max_tool_iterations parse_uuid backoff_base held is_running e w)
    ]

    with_asset-Done :
        (asset_id : ℕ) (w : World Outside)
        → Done held (
            with_asset host max_tool_iterations parse_uuid backoff_base ingestion
              (some asset_id)
              held
              w)
    unfolding with_asset ingest_for
    with_asset-Done asset_id w = elim (Bool-cases (ingestion.has_chunks asset_id w.outside)) [
      | inl h ↦
          rw h (completed-Done host max_tool_iterations parse_uuid backoff_base held is_running w)
      | inr h ↦ rw h (after_ingestion-Done _ _)
    ]

    typed-Done :
        (session_job : ℕ → World Outside → Option Job) (job_type : String) (run_id : ℕ)
        (w : World Outside)
        → held.target_run_id ≡ some run_id
        → Done held (
            process_typed host max_tool_iterations parse_uuid backoff_base ingestion session_job
              job_type held w)
    unfolding process_typed process_asset_ingestion_job
    typed-Done session_job job_type run_id w h =
        elim (Bool-cases (job_type == agent_run_job_type)) [
          | inl a ↦ rw a (
              process_agent_run_job-Done host max_tool_iterations parse_uuid backoff_base held
                is_running run_id w h)
          | inr a ↦ elim (Bool-cases (job_type == workflow_run_job_type)) [
            | inl b ↦
                rw (a, b)
                  (process_workflow_run_job-Done host max_tool_iterations parse_uuid backoff_base
                    held is_running session_job run_id w h)
            | inr b ↦ elim (Bool-cases (job_type == asset_ingestion_job_type)) [
              | inl c ↦
                  rw (a, b, c)
                    (subst
                      (λ t. Done held (
                        with_asset host max_tool_iterations parse_uuid backoff_base ingestion t held
                          w))
                      (sym h) (with_asset-Done run_id w))
              | inr c ↦
                  rw (a, b, c)
                    (failed-Done host max_tool_iterations parse_uuid backoff_base held is_running _
                      _ w)
            ]
          ]
        ]

    -- The dispatch of a RUNNING job with a target never raises, whatever its type and whatever the
    -- execution does: the job's row is QUEUED and RUNNING no more, has the attempt counted, and is
    -- RETRYING only if an attempt is left.
    pub process_claimed_job-Done :
        (session_job : ℕ → World Outside → Option Job) (run_id : ℕ) (w : World Outside)
        → held.target_run_id ≡ some run_id
        → Done held (
            process_claimed_job host max_tool_iterations parse_uuid backoff_base ingestion
              session_job held w)
    unfolding process_claimed_job
    process_claimed_job-Done session_job run_id w h =
        typed-Done session_job held.job_type run_id w h
