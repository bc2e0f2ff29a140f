-- ===== src/Worker/Ingest.antt =====
-- backend/app/worker/dispatch.py for asset ingestion, and the choice of the branch by the job's type.
-- The ingestion service is an interface over the world outside, where its tables are.
pub mod Outcome
pub mod Service
use pack_verse.Base.{
  ℕ, String, Bool, true, false, Option, none, some, Result, ok, err, if◌then◌else◌, ◌==◌, string_eq,
}
use Prim.Native.String.{◌++◌}
use pack_verse.Base.Int.{ℤ, pos}
use pack_verse.Base.Dict.{or_else}
use pack_verse.Json.{Value, str, get, as_str, int_or}
use pack_verse.Errors.{
  Exn, domain, llm, other, DomainError, class_name, asset_not_found, asset_deleted,
  asset_not_ingestable, asset_already_ingested, asset_storage_failed, extraction_failed,
  empty_extracted_text, embedding_mismatch,
}
use pack_verse.Effects.{Act, raise}
use pack_verse.Jobs.Row.{Job}
use pack_verse.Jobs.Queue.{mark_completed, mark_failed}
use pack_verse.Jobs.Service.{agent_run_job_type, workflow_run_job_type}
use pack_verse.Jobs.Ingestion.{asset_ingestion_job_type}
use pack_verse.Runtime.Prompt.{to_str}
use pack_verse.World.{Host, World}
use pack_verse.Worker.Dispatch.{
  mark, retry_or_fail, process_agent_run_job, process_workflow_run_job,
}

-- services/ingestion_service.py: are there chunks of an asset, and the ingestion of one by a model, a
-- provider and the sizes of the chunks
pub record Ingestion (O : Type 0) : Type 0 where
  pub has_chunks : ℕ → O → Bool
  pub ingest : ℕ → String → Option String → ℤ → ℤ → O → Result Exn Unit × O

-- `_INGESTION_DOMAIN_ERROR_TYPES`
abbrev pub is_ingestion_domain_error : DomainError → Bool
is_ingestion_domain_error (asset_not_found _) = true
is_ingestion_domain_error (asset_deleted _) = true
is_ingestion_domain_error (asset_not_ingestable _) = true
is_ingestion_domain_error (asset_already_ingested _) = true
is_ingestion_domain_error (asset_storage_failed _) = true
is_ingestion_domain_error (extraction_failed _) = true
is_ingestion_domain_error (empty_extracted_text _) = true
is_ingestion_domain_error (embedding_mismatch _ _ _) = true
is_ingestion_domain_error _ = false

-- `except (*_INGESTION_DOMAIN_ERROR_TYPES, LLMError)`
abbrev pub ends_ingestion : Exn → Bool
ends_ingestion (domain e) = is_ingestion_domain_error e
ends_ingestion (llm e) = true
ends_ingestion _ = false

module _ (host : Host) (max_tool_iterations : ℕ) (parse_uuid : String → Option ℕ)
    (backoff_base : ℕ) where
  open host use {services, text}
  open services use {Outside, printing}

  -- `str(job.input_json.get("embedding_model", ""))`
  abbrev pub embedding_model_of : Job → String
  embedding_model_of held =
      to_str printing (some (or_else (get "embedding_model" held.input_json) (str "")))

  unfoldable pub after_ingestion : Job → Result Exn Unit → Act (World Outside) Unit
  unfolding retry_or_fail mark_completed mark_failed
  after_ingestion held (ok u) =
      mark host max_tool_iterations parse_uuid backoff_base mark_completed held
  after_ingestion held (err e) =
      if ends_ingestion e
      then mark host max_tool_iterations parse_uuid backoff_base
          (λ now. mark_failed now (class_name e) (text e)) held
      else retry_or_fail host max_tool_iterations parse_uuid backoff_base held e

  module _ (ingestion : Ingestion Outside) where
    unfoldable pub ingest_for : ℕ → Job → Act (World Outside) Unit
    unfolding after_ingestion
    ingest_for asset_id held w =
        let (r, o) =
          ingestion.ingest asset_id (embedding_model_of held)
            (as_str (get "embedding_provider" held.input_json))
            (int_or (pos 1000) (get "chunk_size" held.input_json))
            (int_or (pos 200) (get "chunk_overlap" held.input_json)) w.outside in
        after_ingestion held r (record w { outside = o })

    -- `assert job.target_run_id is not None`, and the asset that it names
    unfoldable pub with_asset : Option ℕ → Job → Act (World Outside) Unit
    unfolding ingest_for mark_completed
    with_asset none held = raise (other "AssertionError")
    with_asset (some asset_id) held = λ w.
        if ingestion.has_chunks asset_id w.outside
        then mark host max_tool_iterations parse_uuid backoff_base mark_completed held w
        else ingest_for asset_id held w

    unfoldable pub process_asset_ingestion_job : Job → Act (World Outside) Unit
    unfolding with_asset
    process_asset_ingestion_job held = with_asset held.target_run_id held

    -- the branch of a job's type
    unfoldable pub process_typed :
        (ℕ → World Outside → Option Job) → String → Job → Act (World Outside) Unit
    unfolding process_agent_run_job process_workflow_run_job process_asset_ingestion_job mark_failed
    process_typed session_job job_type held =
        if job_type == agent_run_job_type
        then process_agent_run_job host max_tool_iterations parse_uuid backoff_base held
        else if job_type == workflow_run_job_type
        then process_workflow_run_job host max_tool_iterations parse_uuid backoff_base session_job
            held
        else if job_type == asset_ingestion_job_type
        then process_asset_ingestion_job held
        else mark host max_tool_iterations parse_uuid backoff_base
            (λ now.
              mark_failed now "UnknownJobType" ("Unknown job_type " ++ printing.repr_text job_type))
            held

    unfoldable pub process_claimed_job :
        (ℕ → World Outside → Option Job) → Job → Act (World Outside) Unit
    unfolding process_typed
    process_claimed_job session_job held = process_typed session_job held.job_type held
