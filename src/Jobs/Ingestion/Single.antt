-- ===== src/Jobs/Ingestion/Single.antt =====
-- The queue holds no two active ingestion jobs of one asset.
use pack_verse.Base.{◌⊎◌, ok, err, Result, ℕ, ◌≡◌, some, List, [], ◌∷◌, ◌++◌, All}
use pack_verse.Errors.{Exn, domain, ingestion_already_queued}
use pack_verse.Enums.{JobStatus, job_status_eq}
use mathlib.Core.List.{Memᴰ}
use pack_verse.Jobs.Row.{Job}
use pack_verse.World.{World}

-- An ingestion job that is not over.
abbrev pub Active : Job → Type 0
Active j =
    (j.job_type ≡ "asset_ingestion")
    × ((j.status ≡ JobStatus.queued)
        ⊎ (j.status ≡ JobStatus.running)
        ⊎ (j.status ≡ JobStatus.retrying))

-- Not both are active ingestion jobs of one asset.
abbrev pub Apart : Job → Job → Type 0
Apart j k = ¬ (
    Active j
    × Active k
    × (asset_id : ℕ) × (j.target_run_id ≡ some asset_id)
    × (k.target_run_id ≡ some asset_id))

abbrev pub AreSingle : List Job → Type 0
AreSingle [] = Unit
AreSingle (j ∷ jobs) = All (Apart j) jobs × AreSingle jobs

-- An active ingestion job of the asset among the jobs.
abbrev pub IsActiveAmong : ℕ → List Job → Type 0
IsActiveAmong asset_id jobs = (j : Job) × Memᴰ j jobs × Active j × (j.target_run_id ≡ some asset_id)

module _ {O : Type 0} (others : List Job → List Job) where
  -- What an enqueueing leaves: the new row behind those of the other sessions, or no row of its own.
  abbrev pub Enqueued : ℕ → World O → Result Exn Job × World O → Type 0
  Enqueued asset_id w (ok job, w') =
      (w'.jobs ≡ others w.jobs ++ (job ∷ []))
      × (job.job_type ≡ "asset_ingestion")
      × (job.status ≡ JobStatus.queued)
      × (job.target_run_id ≡ some asset_id)
      × AreSingle w'.jobs
  Enqueued asset_id w (err e, w') =
      (w'.jobs ≡ w.jobs)
      ⊎ ((w'.jobs ≡ others w.jobs)
          × (e ≡ domain (ingestion_already_queued asset_id))
          × IsActiveAmong asset_id w'.jobs)
