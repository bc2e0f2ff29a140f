-- ===== src/Runtime/Executor.antt =====
-- `execute_run` of backend/app/runtime/executor.py. `run` is the row that the session holds; what it
-- commits is written to the table, and no other transaction writes the same row meanwhile.
pub mod Outcome
use pack_verse.Base.{
  ℕ, ◌+◌, String, Bool, true, false, Option, none, some, List, [], ◌∷◌, Result, ok, err,
  if◌then◌else◌,
}
use pack_verse.Enums.{AgentRunStatus, agent_run_status_eq}
use pack_verse.Json.{Fields}
use pack_verse.Errors.{
  Exn, runtime, llm, mcp, job, workflow, domain, other, no_owning_user, from_mcp, class_name,
}
use pack_verse.Effects.{Act, pure, raise, lift, gets, or_raise, as_exn, ◌>>=◌, ◌>>◌}
use pack_verse.Runtime.Row.{AgentDefinition, AgentRun}
use pack_verse.Runtime.Machine.{validate_transition}
use pack_verse.Runtime.Prompt.{GenerateResponse}
use pack_verse.Runtime.ToolLoop.{
  Services, ToolLoopUsage, LoopState, new_usage, persist_tool_loop_usage, run_tool_loop,
}
use pack_verse.Runtime.Service.{get_active_agent}
use pack_verse.World.{Host, World, read_clock, save_agent_run, milliseconds}

module _ (host : Host) (max_tool_iterations : ℕ) where
  open host use {services, time, text}
  open services use {Outside}

  -- run the loop over the world, and hand back the usage, also when the loop raised
  abbrev pub in_world :
      {A : Type 0}
      → Act (LoopState Outside) A
      → World Outside
      → Result Exn A × ToolLoopUsage × World Outside
  in_world m w =
      let (r, s) = m (record { outside = w.outside; usage = new_usage }) in
      (r, s.usage, record w { outside = s.outside })

  -- the body of the `try`; the usage is that of no call where the loop was not reached
  unfoldable pub try_body :
      AgentRun
      → String
      → Option Fields
      → World Outside
      → Result Exn GenerateResponse × ToolLoopUsage × World Outside
  unfolding get_active_agent
  try_body run user_input context w =
      let (r, w') =
        (do
          owner_id ← or_raise run.created_by_user_id (runtime (no_owning_user run.id))
          agent ← get_active_agent run.agent_id
          pure {A = ℕ × AgentDefinition} (owner_id, agent))
          w in
      elim r [
        | err e ↦ (err e, new_usage, w')
        | ok (owner_id, agent) ↦
            in_world (run_tool_loop services max_tool_iterations agent user_input context owner_id)
              w'
      ]

  -- the assignments of the `except` block
  unfoldable pub failed_row : AgentRun → ToolLoopUsage → ℕ → ℕ → ℕ → Exn → AgentRun
  unfolding persist_tool_loop_usage
  failed_row run usage started ended now exc = record (persist_tool_loop_usage run usage) {
    status = AgentRunStatus.failed;
    error_code = some (class_name exc);
    error_message = some (text exc);
    duration_ms = some (milliseconds started ended);
    completed_at = some now;
  }

  -- the assignments after the `try`
  unfoldable pub completed_row : AgentRun → ToolLoopUsage → ℕ → ℕ → ℕ → GenerateResponse → AgentRun
  unfolding persist_tool_loop_usage
  completed_row run usage started ended now response =
      let done : AgentRun =
        persist_tool_loop_usage
          (record run {
            status = AgentRunStatus.completed;
            llm_request_id = some response.request_id;
            provider = some response.provider;
            model = some response.model;
            output_text = some response.content;
          })
          usage in
      record done { duration_ms = some (milliseconds started ended); completed_at = some now }

  -- the `except` block for a domain error: the failed row is committed, then `reraised` is raised
  unfoldable pub fail_run : AgentRun → ToolLoopUsage → ℕ → Exn → Exn → Act (World Outside) AgentRun
  unfolding validate_transition failed_row
  fail_run run usage started exc reraised = do
    lift (as_exn runtime (validate_transition run.status AgentRunStatus.failed))
    ended ← read_clock time
    now ← read_clock time
    save_agent_run (failed_row run usage started ended now exc)
    raise reraised

  -- `except (LLMError, RuntimeDomainError, MCPError)`; any other exception passes through
  unfoldable pub handle : AgentRun → ToolLoopUsage → ℕ → Exn → Act (World Outside) AgentRun
  unfolding fail_run
  handle run usage started (llm e) = fail_run run usage started (llm e) (llm e)
  handle run usage started (runtime e) = fail_run run usage started (runtime e) (runtime e)
  handle run usage started (mcp e) = fail_run run usage started (mcp e) (runtime (from_mcp e))
  handle run usage started (job e) = raise (job e)
  handle run usage started (workflow e) = raise (workflow e)
  handle run usage started (domain e) = raise (domain e)
  handle run usage started (other name) = raise (other name)

  unfoldable pub complete_run :
      AgentRun → ToolLoopUsage → ℕ → GenerateResponse → Act (World Outside) AgentRun
  unfolding validate_transition completed_row
  complete_run run usage started response = do
    lift (as_exn runtime (validate_transition run.status AgentRunStatus.completed))
    ended ← read_clock time
    now ← read_clock time
    let run' = completed_row run usage started ended now response
    save_agent_run run'
    pure run'

  -- the outcome of the `try`
  unfoldable pub finish :
      AgentRun
      → ℕ
      → Result Exn GenerateResponse × ToolLoopUsage × World Outside
      → Result Exn AgentRun × World Outside
  unfolding complete_run handle
  finish run started (ok response, usage, w) = complete_run run usage started response w
  finish run started (err e, usage, w) = handle run usage started e w

  unfoldable pub execute_run : AgentRun → String → Option Fields → Act (World Outside) AgentRun
  unfolding finish try_body validate_transition
  execute_run run user_input context = do
    lift (as_exn runtime (validate_transition run.status AgentRunStatus.running))
    now ← read_clock time
    let run' = record run { status = AgentRunStatus.running; started_at = some now }
    save_agent_run run'
    started ← read_clock time
    λ w. finish run' started (try_body run' user_input context w)
