-- ===== src/Runtime/Service.antt =====
-- backend/app/runtime/service.py: create, read and cancel agent runs. `list_runs` orders its page by
-- `created_at`, newest first; the table holds its rows in the order of their creation.
use pack_verse.Base.{
  ℕ, Bool, ◌&&◌, not, Option, none, some, List, min, max, ◌==◌, ℕ_eq, take, drop, keep, length,
}
use mathlib.Core.List.{reverse}
use pack_verse.Base.Table
use pack_verse.Base.Int.{ℤ, pos_part}
use pack_verse.Enums.{AgentStatus, AgentRunStatus, UserRole, admin, agent_status_eq, user_role_eq}
use pack_verse.Errors.{runtime, agent_not_found, agent_not_active, agent_run_not_found}
use pack_verse.Effects.{Act, pure, lift, gets, or_raise, raise_when, as_exn, ◌>>=◌, ◌>>◌}
use pack_verse.Runtime.Row.{AgentDefinition, AgentRun}
use pack_verse.Runtime.Machine.{validate_transition}
use pack_verse.World.{World, read_clock, make_id, save_agent_run, insert_agent_run, milliseconds}

-- backend/app/models/user.py, the columns that authorisation reads
pub record User : Type 0 where
  pub id : ℕ
  pub role : UserRole

-- `current_user.role != ADMIN and created_by_user_id != current_user.id`
abbrev pub hidden_from : User → Option ℕ → Bool
hidden_from user none = not (user.role == admin)
hidden_from user (some owner) = not (user.role == admin) && not (owner == user.id)

abbrev pub max_page_size : ℕ
max_page_size = 100

-- `if run.started_at is not None: run.duration_ms = …`
abbrev pub duration_since : Option ℕ → ℕ → Option ℕ → Option ℕ
duration_since none now old = old
duration_since (some started) now old = some (milliseconds started now)

module _ {O : Type 0} where
  unfoldable pub get_active_agent : ℕ → Act (World O) AgentDefinition
  get_active_agent agent_id = do
    found ← gets (λ w. Table.find (λ a. a.id) agent_id w.agents)
    agent ← or_raise found (runtime (agent_not_found agent_id))
    raise_when (not (agent.status == AgentStatus.active)) (runtime (agent_not_active agent_id))
    pure agent

  unfoldable pub create_run : (ℕ → ℕ) → ℕ → ℕ → Act (World O) AgentRun
  unfolding get_active_agent
  create_run new_id agent_id created_by_user_id = do
    get_active_agent agent_id
    id ← make_id new_id
    let run : AgentRun = record {
      id = id;
      agent_id = agent_id;
      created_by_user_id = some created_by_user_id;
      status = AgentRunStatus.queued;
      llm_request_id = none;
      provider = none;
      model = none;
      input_tokens = none;
      output_tokens = none;
      total_tokens = none;
      estimated_cost_usd = none;
      output_text = none;
      tool_calls_json = none;
      error_code = none;
      error_message = none;
      duration_ms = none;
      started_at = none;
      completed_at = none;
    }
    insert_agent_run run
    pure run

  unfoldable pub get_run : ℕ → User → Act (World O) AgentRun
  get_run run_id current_user = do
    found ← gets (λ w. Table.find (λ r. r.id) run_id w.agent_runs)
    run ← or_raise found (runtime (agent_run_not_found run_id))
    raise_when (hidden_from current_user run.created_by_user_id)
        (runtime (agent_run_not_found run_id))
    pure run

  unfoldable pub list_runs : User → ℤ → ℤ → World O → List AgentRun × ℕ
  list_runs current_user limit offset w =
      let visible = keep (λ r. not (hidden_from current_user r.created_by_user_id)) w.agent_runs in
      (
        take (min (max (pos_part limit) 1) max_page_size)
            (drop (pos_part offset) (reverse visible)),
        length visible,
      )

  unfoldable pub cancel_run : (ℕ → ℕ) → ℕ → User → Act (World O) AgentRun
  unfolding get_run validate_transition
  cancel_run time run_id current_user = do
    run ← get_run run_id current_user
    lift (as_exn runtime (validate_transition run.status AgentRunStatus.cancelled))
    now ← read_clock time
    let run' = record run {
      status = AgentRunStatus.cancelled;
      completed_at = some now;
      duration_ms = duration_since run.started_at now run.duration_ms;
    }
    save_agent_run run'
    pure run'
