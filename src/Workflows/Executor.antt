-- ===== src/Workflows/Executor.antt =====
-- backend/app/workflows/executor.py. `run` and `step_run` are the rows that the session holds; what
-- it commits is written to the tables. `check` is the `cancellation_check`, which returns False
-- where none is given.
pub mod Steps
pub mod Outcome
use pack_verse.Base.{
  ℕ, String, Bool, true, false, Option, none, some, List, [], ◌∷◌, Result, ok, err, if◌then◌else◌,
  ◌==◌, string_eq,
}
use pack_verse.Base.Table
use pack_verse.Enums.{WorkflowRunStatus, WorkflowStepRunStatus}
use pack_verse.Json.{Fields}
use pack_verse.Errors.{
  Exn, workflow, runtime, llm, job, mcp, domain, other, workflow_not_found, workflow_not_active,
  workflow_run_not_found, definition_invalid, invalid_workflow_run_transition,
  invalid_step_run_transition, input_resolution, cancelled_during_execution, no_owning_user,
  class_name,
}
use pack_verse.Effects.{Act, pure, raise, lift, gets, or_raise, modify, as_exn, ◌>>=◌, ◌>>◌}
use pack_verse.Runtime.Row.{AgentRun}
use pack_verse.Runtime.ToolLoop.{Services}
use pack_verse.Runtime.Service.{create_run}
use pack_verse.Runtime.Executor.{execute_run}
use pack_verse.Workflows.Row.{WorkflowRun, WorkflowStepRun}
use pack_verse.Workflows.Machine.{validate_workflow_run_transition, validate_step_run_transition}
use pack_verse.Workflows.Definition.{WorkflowStepSpec, parse_workflow_steps}
use pack_verse.Workflows.Inputs.{build_step_input}
use pack_verse.Workflows.Service.{end_pending, steps_of}
use pack_verse.World.{Host, World, read_clock, save_workflow_run, save_step_run, milliseconds}

-- what the loop over the steps remembers
pub record Progress : Type 0 where
  pub step_outputs : List (String × String)
  pub previous_step_id : Option String
  pub final_output : Option String

abbrev pub no_progress : Progress
no_progress = record { step_outputs = []; previous_step_id = none; final_output = none }

-- `{step.step_id: step for step in steps}[step_id]`
abbrev pub spec_of : String → List WorkflowStepSpec → Option WorkflowStepSpec
spec_of step_id [] = none
spec_of step_id (s ∷ ss) = elim (spec_of step_id ss) [
  | some found ↦ some found
  | none ↦ if s.step_id == step_id then some s else none
]

-- `text or ""`
abbrev pub or_empty : Option String → String
or_empty none = ""
or_empty (some text) = text

abbrev pub remember : String → Option String → Progress → Progress
remember step_id output p = record {
  step_outputs = (step_id, or_empty output) ∷ p.step_outputs;
  previous_step_id = some step_id;
  final_output = output;
}

module _ (host : Host) (max_tool_iterations : ℕ) (parse_uuid : String → Option ℕ) where
  open host use {services, time, new_id, text}
  open services use {Outside}

  -- `int((time.monotonic() - started) * 1000)`
  abbrev pub elapsed : ℕ → Act (World Outside) ℕ
  elapsed started = do ended ← read_clock time; pure (milliseconds started ended)

  -- the commit that ends a run and its PENDING steps
  abbrev pub commit_end : WorkflowRun → WorkflowStepRunStatus → ℕ → World Outside → World Outside
  commit_end run steps now w = record w {
    workflow_runs = Table.save (λ r. r.id) run w.workflow_runs;
    step_runs = end_pending steps now run.id w.step_runs;
  }

  unfoldable pub fail_workflow_run : WorkflowRun → Exn → ℕ → Act (World Outside) Unit
  unfolding validate_workflow_run_transition
  fail_workflow_run run exc duration_ms = do
    lift (as_exn workflow (validate_workflow_run_transition run.status WorkflowRunStatus.failed))
    now ← read_clock time
    let run' = record run {
      status = WorkflowRunStatus.failed;
      error_code = some (class_name exc);
      error_message = some (text exc);
      duration_ms = some duration_ms;
      completed_at = some now;
    }
    modify (commit_end run' WorkflowStepRunStatus.skipped now)

  unfoldable pub cancel_workflow_run : WorkflowRun → ℕ → Act (World Outside) Unit
  unfolding validate_workflow_run_transition
  cancel_workflow_run run duration_ms = do
    lift (as_exn workflow (validate_workflow_run_transition run.status WorkflowRunStatus.cancelled))
    now ← read_clock time
    let run' = record run {
      status = WorkflowRunStatus.cancelled;
      duration_ms = some duration_ms;
      completed_at = some now;
    }
    modify (commit_end run' WorkflowStepRunStatus.cancelled now)

  -- fail the run for an exception of a `try`, and raise it again
  unfoldable pub fail_and_raise : {A : Type 0} → WorkflowRun → ℕ → Exn → Act (World Outside) A
  unfolding fail_workflow_run
  fail_and_raise run started exc = do
    duration_ms ← elapsed started
    fail_workflow_run run exc duration_ms
    raise exc

  -- the body of the first `try`: the steps and the owner
  unfoldable pub plan : WorkflowRun → Act (World Outside) (List WorkflowStepSpec × ℕ)
  unfolding parse_workflow_steps
  plan run = do
    found ← gets (λ w. Table.find (λ d. d.id) run.workflow_id w.workflows)
    definition ← or_raise found (workflow (workflow_not_found run.workflow_id))
    steps ← lift (parse_workflow_steps run.workflow_id parse_uuid definition.definition_json)
    owner_id ← or_raise run.created_by_user_id (runtime (no_owning_user run.id))
    pure (steps, owner_id)

  -- `except (WorkflowDomainError, RuntimeDomainError)`
  unfoldable pub handle_plan : {A : Type 0} → WorkflowRun → ℕ → Exn → Act (World Outside) A
  unfolding fail_and_raise
  handle_plan run started (workflow e) = fail_and_raise run started (workflow e)
  handle_plan run started (runtime e) = fail_and_raise run started (runtime e)
  handle_plan run started (llm e) = raise (llm e)
  handle_plan run started (mcp e) = raise (mcp e)
  handle_plan run started (job e) = raise (job e)
  handle_plan run started (domain e) = raise (domain e)
  handle_plan run started (other name) = raise (other name)

  -- the two calls of the runtime; beside the result, the id of the agent run if it was created
  unfoldable pub run_agent :
      WorkflowStepSpec
      → ℕ
      → Option Fields
      → String
      → WorkflowStepRun
      → World Outside
      → Result Exn AgentRun × Option ℕ × World Outside
  unfolding create_run execute_run
  run_agent spec owner_id context step_input step_run w =
      let (created, w') = create_run new_id spec.agent_definition_id owner_id w in
      elim created [
        | err e ↦ (err e, none, w')
        | ok agent_run ↦
            let (_, committed) = save_step_run step_run w' in
            let (r, w'') =
              execute_run host max_tool_iterations agent_run step_input context committed in
            (r, some agent_run.id, w'')
      ]

  -- the assignments of the `except` block of a step
  abbrev pub failed_step : WorkflowStepRun → Option ℕ → Exn → ℕ → ℕ → WorkflowStepRun
  failed_step step_run agent_run_id exc duration_ms now = record step_run {
    status = WorkflowStepRunStatus.failed;
    agent_run_id = agent_run_id;
    error_code = some (class_name exc);
    error_message = some (text exc);
    duration_ms = some duration_ms;
    completed_at = some now;
  }

  module _ (run : WorkflowRun) (started : ℕ) where
    unfoldable pub fail_step :
        {A : Type 0} → WorkflowStepRun → ℕ → Option ℕ → Exn → Act (World Outside) A
    unfolding validate_step_run_transition fail_and_raise
    fail_step step_run step_started agent_run_id exc = do
      lift (
          as_exn workflow
            (validate_step_run_transition step_run.status WorkflowStepRunStatus.failed))
      duration_ms ← elapsed step_started
      now ← read_clock time
      save_step_run (failed_step step_run agent_run_id exc duration_ms now)
      fail_and_raise run started exc

    -- `except (WorkflowInputResolutionError, RuntimeDomainError, LLMError)`
    unfoldable pub handle_step :
        {A : Type 0} → WorkflowStepRun → ℕ → Option ℕ → Exn → Act (World Outside) A
    unfolding fail_step
    handle_step s started' id (runtime e) = fail_step s started' id (runtime e)
    handle_step s started' id (llm e) = fail_step s started' id (llm e)
    handle_step s started' id (workflow (input_resolution step)) =
        fail_step s started' id (workflow (input_resolution step))
    handle_step s started' id (workflow e) = raise (workflow e)
    handle_step s started' id (mcp e) = raise (mcp e)
    handle_step s started' id (job e) = raise (job e)
    handle_step s started' id (domain e) = raise (domain e)
    handle_step s started' id (other name) = raise (other name)

    unfoldable pub complete_step :
        WorkflowStepRun → ℕ → AgentRun → Progress → Act (World Outside) Progress
    complete_step step_run step_started agent_run p = do
      duration_ms ← elapsed step_started
      now ← read_clock time
      save_step_run (record step_run {
        status = WorkflowStepRunStatus.completed;
        agent_run_id = some agent_run.id;
        output_text = agent_run.output_text;
        duration_ms = some duration_ms;
        completed_at = some now;
      })
      pure (remember step_run.step_id agent_run.output_text p)

    -- the outcome of the two calls of the runtime
    unfoldable pub finish_step :
        WorkflowStepRun
        → ℕ
        → Progress
        → Result Exn AgentRun × Option ℕ × World Outside
        → Result Exn Progress × World Outside
    unfolding handle_step complete_step
    finish_step s step_started p (ok agent_run, id, w) = complete_step s step_started agent_run p w
    finish_step s step_started p (err e, id, w) = handle_step s step_started id e w

    -- the `try` of a step that is RUNNING, and what follows it
    unfoldable pub try_step :
        WorkflowStepSpec
        → ℕ
        → Option Fields
        → WorkflowStepRun
        → ℕ
        → Progress
        → Result Exn String
        → Act (World Outside) Progress
    unfolding run_agent finish_step
    try_step spec owner_id context s step_started p (err e) = handle_step s step_started none e
    try_step spec owner_id context s step_started p (ok step_input) = λ w.
        let s' = record s { input_snapshot = some step_input } in
        finish_step s' step_started p (run_agent spec owner_id context step_input s' w)

    unfoldable pub run_step :
        WorkflowStepSpec
        → ℕ
        → String
        → Option Fields
        → WorkflowStepRun
        → Progress
        → Act (World Outside) Progress
    unfolding validate_step_run_transition build_step_input try_step
    run_step spec owner_id user_input context s p = do
      lift (as_exn workflow (validate_step_run_transition s.status WorkflowStepRunStatus.running))
      now ← read_clock time
      let s' = record s { status = WorkflowStepRunStatus.running; started_at = some now }
      save_step_run s'
      step_started ← read_clock time
      try_step spec owner_id context s' step_started p
          (build_step_input spec user_input p.previous_step_id p.step_outputs)

    -- a True of the `cancellation_check` ends the run
    unfoldable pub stop_if : Bool → Act (World Outside) Unit
    unfolding cancel_workflow_run
    stop_if false = pure tt
    stop_if true = do
      duration_ms ← elapsed started
      cancel_workflow_run run duration_ms
      raise (workflow (cancelled_during_execution run.id))

    module _ (check : Act (World Outside) Bool) (steps : List WorkflowStepSpec) (owner_id : ℕ)
        (user_input : String) (context : Option Fields) where
      -- the loop over the step runs; the value is the text of the last one
      unfoldable pub run_steps :
          List WorkflowStepRun → Progress → Act (World Outside) (Option String)
      unfolding run_step stop_if
      run_steps [] p = pure p.final_output
      run_steps (s ∷ ss) p = do
        stop ← check
        stop_if stop
        spec ← or_raise (spec_of s.step_id steps) (other "KeyError")
        p' ← run_step spec owner_id user_input context s p
        run_steps ss p'

    unfoldable pub complete_run : Option String → Act (World Outside) WorkflowRun
    unfolding validate_workflow_run_transition
    complete_run final_output = do
      lift (
          as_exn workflow (validate_workflow_run_transition run.status WorkflowRunStatus.completed))
      duration_ms ← elapsed started
      now ← read_clock time
      let run' = record run {
        status = WorkflowRunStatus.completed;
        output_text = final_output;
        duration_ms = some duration_ms;
        completed_at = some now;
      }
      save_workflow_run run'
      pure run'

    -- what follows the first `try`
    unfoldable pub run_plan :
        Act (World Outside) Bool
        → String
        → Option Fields
        → Result Exn (List WorkflowStepSpec × ℕ)
        → Act (World Outside) WorkflowRun
    unfolding handle_plan run_steps complete_run
    run_plan check user_input context (err e) = handle_plan run started e
    run_plan check user_input context (ok (steps, owner_id)) = do
      step_runs ← gets (λ w. steps_of run.id w.step_runs)
      final_output ← run_steps check steps owner_id user_input context step_runs no_progress
      complete_run final_output

  unfoldable pub execute_workflow_run :
      Act (World Outside) Bool
      → WorkflowRun
      → String
      → Option Fields
      → Act (World Outside) WorkflowRun
  unfolding validate_workflow_run_transition plan run_plan
  execute_workflow_run check run user_input context = do
    lift (as_exn workflow (validate_workflow_run_transition run.status WorkflowRunStatus.running))
    now ← read_clock time
    let run' = record run { status = WorkflowRunStatus.running; started_at = some now }
    save_workflow_run run'
    started ← read_clock time
    λ w.
        let (planned, w') = plan run' w in run_plan run' started check user_input context planned w'
