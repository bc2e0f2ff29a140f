-- ===== src/Jobs/Service/Enqueue.antt =====
-- What enqueueing an agent run leaves in the tables.
use pack_verse.Base.{
  ℕ, ◌≡◌, refl, String, Option, some, [], ◌∷◌, ◌++◌, Result, ok, err, ◌==◌, Option-cases,
  Bool-cases, inl, inr,
}
use pack_verse.Base.Table.{find}
use pack_verse.Enums.{JobStatus, AgentRunStatus, AgentStatus, agent_status_eq}
use pack_verse.Json.{Fields}
use pack_verse.Errors.{Exn}
use pack_verse.Jobs.Row.{Job}
use pack_verse.Jobs.Lifecycle.{new_job}
use pack_verse.Runtime.Row.{AgentRun}
use pack_verse.Runtime.Service.{create_run, get_active_agent}
use pack_verse.World.{World}
use pack_verse.Jobs.Service.{agent_run_job_type, enqueue_agent_run}

-- A result with the world before and after: a QUEUED run and a QUEUED job for it were added, or
-- nothing changed.
abbrev pub IsEnqueued : {O : Type 0} → World O → Result Exn (AgentRun × Job) × World O → Type 0
IsEnqueued w (ok (run, row), w') =
    (w'.agent_runs ≡ w.agent_runs ++ (run ∷ []))
    × (w'.jobs ≡ w.jobs ++ (row ∷ []))
    × (row.target_run_id ≡ some run.id)
    × (row.job_type ≡ agent_run_job_type)
    × (run.status ≡ AgentRunStatus.queued)
    × (row.status ≡ JobStatus.queued)
IsEnqueued w (err e, w') = w' ≡ w

module _ {O : Type 0} where
  -- Enqueueing an agent run adds a QUEUED run and, naming it, a QUEUED job, each at the end of its
  -- table; or it raises and changes nothing.
  pub enqueue_agent_run-IsEnqueued :
      (time new_id : ℕ → ℕ) (agent_id user_id : ℕ) (user_input : String) (context : Option Fields)
      (max_attempts : ℕ) (w : World O)
      → IsEnqueued w
          (enqueue_agent_run time new_id agent_id user_id user_input context max_attempts w)
  unfolding enqueue_agent_run create_run get_active_agent new_job
  enqueue_agent_run-IsEnqueued time new_id agent_id user_id user_input context max_attempts w =
      elim (Option-cases (find (λ a. a.id) agent_id w.agents)) [
        | inl e ↦ rw e refl
        | inr (agent, e) ↦ rw e (elim (Bool-cases (agent.status == AgentStatus.active)) [
          | inl h ↦ rw h (refl, refl, refl, refl, refl, refl)
          | inr h ↦ rw h refl
        ])
      ]
