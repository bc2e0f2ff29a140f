-- ===== src/Jobs/Ingestion.antt =====
-- backend/app/jobs/service.py for asset ingestion. `check` is `check_ingestable` of
-- services/ingestion_service.py on the world outside the queue; `others` are the rows that other
-- sessions commit during that check.
pub mod Single
use pack_verse.Base.{
  ℕ, ◌+◌, String, Bool, true, false, ◌&&◌, ◌||◌, Option, none, some, List, [], ◌∷◌, ◌++◌, Result,
  ok, err, if◌then◌else◌, ◌==◌, ℕ_eq, string_eq, elem, keep,
}
use mathlib.Core.List.{reverse}
use pack_verse.Base.Int.{ℤ}
use pack_verse.Enums.{JobStatus, job_status_eq}
use pack_verse.Json.{Value, null, str, int, Fields, end, field}
use pack_verse.Errors.{Exn, domain, ingestion_already_queued}
use pack_verse.Effects.{Act, pure, ◌>>=◌, ◌>>◌}
use pack_verse.Jobs.Row.{Job}
use pack_verse.Jobs.Lifecycle.{new_job}
use pack_verse.World.{World, read_clock, make_id}

abbrev pub asset_ingestion_job_type : String
asset_ingestion_job_type = "asset_ingestion"

abbrev pub str_or_null : Option String → Value
str_or_null none = null
str_or_null (some text) = str text

abbrev pub ingestion_input : String → Option String → ℤ → ℤ → Fields
ingestion_input model provider size overlap = field "embedding_model" (str model) (
    field "embedding_provider" (str_or_null provider)
      (field "chunk_size" (int size) (field "chunk_overlap" (int overlap) end)))

-- the rows of the partial index `uq_jobs_active_asset_ingestion`
abbrev pub is_active_ingestion : Job → Bool
is_active_ingestion j =
    j.job_type == asset_ingestion_job_type
    && elem j.status (JobStatus.queued ∷ JobStatus.running ∷ JobStatus.retrying ∷ [])

abbrev pub same_target : Option ℕ → Option ℕ → Bool
same_target none b = false
same_target (some a) none = false
same_target (some a) (some b) = a == b

-- the index refuses a second active row of a target; NULL targets never collide
abbrev pub blocks : Job → Job → Bool
blocks row j = is_active_ingestion j && same_target j.target_run_id row.target_run_id

abbrev pub violates : Job → List Job → Bool
violates row [] = false
violates row (j ∷ jobs) = blocks row j || violates row jobs

-- the newest of the rows of an asset, which stand in the order of their creation
abbrev pub newest : List Job → Option Job
newest [] = none
newest (j ∷ []) = some j
newest (j ∷ k ∷ jobs) = newest (k ∷ jobs)

abbrev pub ingests : ℕ → Job → Bool
ingests asset_id j =
    j.job_type == asset_ingestion_job_type && same_target j.target_run_id (some asset_id)

module _ {O : Type 0} where
  -- the commit of the new row
  unfoldable pub commit_job : (List Job → List Job) → ℕ → Job → Act (World O) Job
  commit_job others asset_id row w =
      let jobs = others w.jobs in
      if violates row jobs
      then (err (domain (ingestion_already_queued asset_id)), record w { jobs = jobs })
      else (ok row, record w { jobs = jobs ++ (row ∷ []) })

  unfoldable pub enqueue_asset_ingestion :
      (ℕ → ℕ)
      → (ℕ → ℕ)
      → (List Job → List Job)
      → (ℕ → Act O Unit)
      → ℕ
      → Fields
      → ℕ
      → Act (World O) Job
  unfolding new_job commit_job
  enqueue_asset_ingestion time new_id others check asset_id input max_attempts = do
    (λ w. let (r, o) = check asset_id w.outside in (r, record w { outside = o }))
    id ← make_id new_id
    created_at ← read_clock time
    commit_job others asset_id
        (new_job id asset_ingestion_job_type asset_id input max_attempts created_at)

  unfoldable pub get_latest_asset_ingestion_job : ℕ → World O → Option Job
  get_latest_asset_ingestion_job asset_id w = newest (keep (ingests asset_id) w.jobs)
