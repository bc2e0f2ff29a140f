-- ===== src/Workflows/Executor/Outcome.antt =====
-- What `execute_workflow_run` leaves behind, by how it ends.
use pack_verse.Base.{
  ℕ, ◌≡◌, refl, inl, inr, String, Bool, true, Option, some, List, Result, ok, err, ℕ_eq,
  Result-cases, Option-cases, ◌+◌, arith,
}
use pack_verse.Base.Table.{All-saved, find}
use pack_verse.Enums.{WorkflowRunStatus, step_run_status_eq}
use pack_verse.Json.{Fields}
use pack_verse.Errors.{Exn, workflow, runtime, llm, job, mcp, domain, other}
use pack_verse.Effects.{Act, continue}
use pack_verse.Workflows.Row.{WorkflowRun}
use pack_verse.Workflows.Machine.{validate_workflow_run_transition}
use pack_verse.Workflows.Definition.{WorkflowStepSpec}
use pack_verse.Workflows.Service.{steps_of}
use pack_verse.World.{Host, World, read_clock, save_workflow_run}
use pack_verse.Workflows.Executor.{
  no_progress, plan, run_steps, complete_run, run_plan, execute_workflow_run,
}
use pack_verse.Workflows.Definition.{parse_workflow_steps}
use pack_verse.Workflows.Definition.Refusal.{is_refusal, parse_workflow_steps-refuses}
use pack_verse.Workflows.Executor.Steps.{
  Settled, Part, is_plan_error, handle_plan-Settled, run_steps-Settled,
}

refusal-plan : (id : ℕ) (e : Exn) → is_refusal id e ≡ true → is_plan_error e ≡ true
refusal-plan id (llm e) h = absurd (ground arith)
refusal-plan id (runtime e) h = refl
refusal-plan id (workflow e) h = ground arith
refusal-plan id (mcp e) h = absurd (ground arith)
refusal-plan id (job e) h = absurd (ground arith)
refusal-plan id (domain e) h = absurd (ground arith)
refusal-plan id (other e) h = h

abbrev IsPlanned : {A : Type 0} → Result Exn A → Type 0
IsPlanned (ok a) = Unit
IsPlanned (err e) = is_plan_error e ≡ true

module _ (host : Host) (max_tool_iterations : ℕ) (parse_uuid : String → Option ℕ) where
  open host use {services}
  open services use {Outside}

  Settled-continue :
      {A : Type 0} (id : ℕ) (r : Result Exn A × World Outside)
      (f : A → Act (World Outside) WorkflowRun)
      → Part host max_tool_iterations parse_uuid id r
      → ((a : A) (w : World Outside) → Settled host max_tool_iterations parse_uuid id (f a w))
      → Settled host max_tool_iterations parse_uuid id (continue r.0 f r.1)
  Settled-continue id (ok a, w) f h k = k a w
  Settled-continue id (err e, w) f h k = h

  plan-IsPlanned :
      (run : WorkflowRun) (w : World Outside)
      → IsPlanned (plan host max_tool_iterations parse_uuid run w).0
  unfolding plan
  plan-IsPlanned run w = elim (Option-cases (find (λ d. d.id) run.workflow_id w.workflows)) [
    | inl e ↦ rw e refl
    | inr (definition, e) ↦
        rw e
          (elim (Result-cases
            (parse_workflow_steps run.workflow_id parse_uuid definition.definition_json)) [
              | inr (x, h) ↦ rw h (
                  refusal-plan run.workflow_id x (
                    parse_workflow_steps-refuses run.workflow_id parse_uuid
                      definition.definition_json x h))
              | inl (steps, h) ↦ rw h (elim (Option-cases run.created_by_user_id) [
                | inl o ↦ rw o refl
                | inr (owner, o) ↦ rw o tt
              ])
            ])
  ]

  complete_run-Settled :
      (run : WorkflowRun) (started : ℕ) (final_output : Option String) (w : World Outside)
      → run.status ≡ WorkflowRunStatus.running
      → Settled host max_tool_iterations parse_uuid run.id
          (complete_run host max_tool_iterations parse_uuid run started final_output w)
  unfolding complete_run validate_workflow_run_transition
  complete_run-Settled run started final_output w h =
      rw h (refl, refl, All-saved (λ r. r.id) (λ r. r ≡ _) _ w.workflow_runs refl)

  module _ (check : Act (World Outside) Bool)
      (check_answers : (w : World Outside) → (b : Bool) × ((check w).0 ≡ ok b)) where
    run_plan-Settled :
        (run : WorkflowRun) (started : ℕ) (user_input : String) (context : Option Fields)
        (planned : Result Exn (List WorkflowStepSpec × ℕ)) (w : World Outside)
        → run.status ≡ WorkflowRunStatus.running
        → IsPlanned planned
        → Settled host max_tool_iterations parse_uuid run.id (
            run_plan host max_tool_iterations parse_uuid run started check user_input context
              planned w)
    unfolding run_plan
    run_plan-Settled run started user_input context (err e) w h x =
        handle_plan-Settled host max_tool_iterations parse_uuid run started e w h x
    run_plan-Settled run started user_input context (ok (steps, owner)) w h x =
        Settled-continue run.id
          (run_steps host max_tool_iterations parse_uuid run started check steps owner user_input
            context (steps_of run.id w.step_runs) no_progress w)
          _
          (run_steps-Settled host max_tool_iterations parse_uuid run started h check check_answers
            steps owner user_input context (steps_of run.id w.step_runs) no_progress w)
          (λ final_output w'. complete_run-Settled run started final_output w' h)

    -- The execution of a QUEUED run, with a cancellation check that raises nothing, ends in one of
    -- three ways. It returns, and the run's row is the returned one, COMPLETED. It raises an
    -- exception and no step run of the run is PENDING; the row is FAILED with the exception's class
    -- as its code, or it is CANCELLED and the exception says so. Or the exception is none that the
    -- `except` clause of a step names, and it comes from a step's agent run, from Python itself
    -- (KeyError, TypeError or AssertionError) or from a step run that was not PENDING.
    pub execute_workflow_run-Settled :
        (run : WorkflowRun) (user_input : String) (context : Option Fields) (w : World Outside)
        → run.status ≡ WorkflowRunStatus.queued
        → Settled host max_tool_iterations parse_uuid run.id (
            execute_workflow_run host max_tool_iterations parse_uuid check run user_input context w)
    unfolding execute_workflow_run validate_workflow_run_transition
    execute_workflow_run-Settled run user_input context w h =
        let run' : WorkflowRun = record run {
          status = WorkflowRunStatus.running;
          started_at = some (host.time w.clock_reads);
        } in
        let w1 = (read_clock host.time (save_workflow_run run' (read_clock host.time w).1).1).1 in
        let planned = plan host max_tool_iterations parse_uuid run' w1 in
        rw h (
          run_plan-Settled run' (host.time (w.clock_reads + 1)) user_input context planned.0
            planned.1 refl (plan-IsPlanned run' w1))
