-- ===== src/Worker/Dispatch.antt =====
-- backend/app/worker/dispatch.py for agent and workflow runs. `job` is the row that the worker's
-- session holds after the claim. `session_job` is what `AsyncSession.get(Job, id)` returns, and
-- `backoff_base` is the setting `job_retry_backoff_base_seconds`, in microseconds.
pub mod Outcome
use pack_verse.Base.{
  ℕ, ◌+◌, String, Bool, true, false, not, Option, none, some, Result, ok, err, if◌then◌else◌, ◌==◌,
  is_some,
}
use pack_verse.Base.Table
use pack_verse.Enums.{
  JobStatus, AgentRunStatus, WorkflowRunStatus, agent_run_status_eq, workflow_run_status_eq,
}
use pack_verse.Json.{Fields, get, as_obj}
use pack_verse.Errors.{
  Exn, JobDomainError, job, runtime, workflow, llm, mcp, domain, other, cancelled_during_execution,
  workflow_not_found, workflow_not_active, workflow_run_not_found, definition_invalid,
  invalid_workflow_run_transition, invalid_step_run_transition, input_resolution, class_name,
}
use pack_verse.Effects.{Act, raise, pure}
use pack_verse.Jobs.Row.{Job}
use pack_verse.Jobs.Queue.{mark_completed, mark_failed, mark_failed_or_retry, mark_cancelled}
use pack_verse.Runtime.Row.{AgentRun}
use pack_verse.Runtime.Prompt.{Printing, to_str}
use pack_verse.Runtime.ToolLoop.{Services}
use pack_verse.Runtime.Executor.{execute_run}
use pack_verse.Workflows.Row.{WorkflowRun}
use pack_verse.Workflows.Executor.{execute_workflow_run}
use pack_verse.World.{Host, World}

-- the job of a call of `mark_failed_or_retry`
abbrev pub marked : Result JobDomainError (JobStatus × Job) → Result JobDomainError Job
marked (ok r) = ok r.1
marked (err e) = err e

module _ (host : Host) (max_tool_iterations : ℕ) (parse_uuid : String → Option ℕ)
    (backoff_base : ℕ) where
  open host use {services, time, text}
  open services use {Outside, printing}

  -- the commit of a queue operation on the held job; one that raises has read no clock
  abbrev pub commit : World Outside → Result JobDomainError Job → Result Exn Unit × World Outside
  commit w (ok row) = (
    ok tt,
    record w { clock_reads = w.clock_reads + 1; jobs = Table.save (λ j. j.id) row w.jobs },
  )
  commit w (err e) = (err (job e), w)

  abbrev pub mark : (ℕ → Job → Result JobDomainError Job) → Job → Act (World Outside) Unit
  mark operation held w = commit w (operation (time w.clock_reads) held)

  unfoldable pub retry_or_fail : Job → Exn → Act (World Outside) Unit
  unfolding mark_failed_or_retry
  retry_or_fail held exc =
      mark (λ now j. marked (mark_failed_or_retry now (class_name exc) (text exc) backoff_base j))
        held

  -- the exceptions that `_process_agent_run_job` catches, and its last line
  unfoldable pub after_run : {A : Type 0} → Job → Result Exn A → Act (World Outside) Unit
  unfolding retry_or_fail mark_completed mark_failed
  after_run held (ok _) = mark mark_completed held
  after_run held (err (llm e)) =
      mark (λ now. mark_failed now (class_name (llm e)) (text (llm e))) held
  after_run held (err (runtime e)) =
      mark (λ now. mark_failed now (class_name (runtime e)) (text (runtime e))) held
  after_run held (err (workflow e)) =
      mark (λ now. mark_failed now (class_name (workflow e)) (text (workflow e))) held
  after_run held (err (mcp e)) = retry_or_fail held (mcp e)
  after_run held (err (job e)) = retry_or_fail held (job e)
  after_run held (err (domain e)) = retry_or_fail held (domain e)
  after_run held (err (other name)) = retry_or_fail held (other name)

  abbrev pub is_cancellation : {A : Type 0} → Result Exn A → Bool
  is_cancellation (err (workflow (cancelled_during_execution id))) = true
  is_cancellation _ = false

  -- those of `_process_workflow_run_job`
  unfoldable pub after_workflow_run : {A : Type 0} → Job → Result Exn A → Act (World Outside) Unit
  unfolding after_run mark_cancelled
  after_workflow_run held r =
      if is_cancellation r then mark mark_cancelled held else after_run held r

  abbrev pub user_input_of : Job → String
  user_input_of held = to_str printing (get "user_input" held.input_json)

  abbrev pub context_of : Job → Option Fields
  context_of held = as_obj (get "context" held.input_json)

  unfoldable pub on_agent_run : Job → Option AgentRun → Act (World Outside) Unit
  unfolding mark_completed mark_cancelled execute_run after_run
  on_agent_run held none = mark mark_completed held
  on_agent_run held (some run) =
      if run.status == AgentRunStatus.queued
      then (λ w.
          let (r, w') =
            execute_run host max_tool_iterations run (user_input_of held) (context_of held) w in
          after_run held r w')
      else if run.status == AgentRunStatus.cancelled
      then mark mark_cancelled held
      else mark mark_completed held

  -- `assert job.target_run_id is not None`, and the run that it names
  unfoldable pub with_agent_run : Option ℕ → Job → Act (World Outside) Unit
  unfolding on_agent_run
  with_agent_run none held = raise (other "AssertionError")
  with_agent_run (some run_id) held =
      λ w. on_agent_run held (Table.find (λ r. r.id) run_id w.agent_runs) w

  unfoldable pub process_agent_run_job : Job → Act (World Outside) Unit
  unfolding with_agent_run
  process_agent_run_job held = with_agent_run held.target_run_id held

  module _ (session_job : ℕ → World Outside → Option Job) where
    abbrev pub asked_to_stop : Option Job → Bool
    asked_to_stop none = false
    asked_to_stop (some current) = is_some current.cancel_requested_at

    -- `_cancellation_check`
    unfoldable pub cancellation_check : ℕ → Act (World Outside) Bool
    cancellation_check job_id w = (ok (asked_to_stop (session_job job_id w)), w)

    unfoldable pub on_workflow_run : Job → Option WorkflowRun → Act (World Outside) Unit
    unfolding mark_completed mark_cancelled execute_workflow_run after_workflow_run
        cancellation_check
    on_workflow_run held none = mark mark_completed held
    on_workflow_run held (some run) =
        if run.status == WorkflowRunStatus.queued
        then (λ w.
            let (r, w') =
              execute_workflow_run host max_tool_iterations parse_uuid (cancellation_check held.id)
                run (user_input_of held) (context_of held) w in
            after_workflow_run held r w')
        else if run.status == WorkflowRunStatus.cancelled
        then mark mark_cancelled held
        else mark mark_completed held

    unfoldable pub with_workflow_run : Option ℕ → Job → Act (World Outside) Unit
    unfolding on_workflow_run
    with_workflow_run none held = raise (other "AssertionError")
    with_workflow_run (some run_id) held =
        λ w. on_workflow_run held (Table.find (λ r. r.id) run_id w.workflow_runs) w

    unfoldable pub process_workflow_run_job : Job → Act (World Outside) Unit
    unfolding with_workflow_run
    process_workflow_run_job held = with_workflow_run held.target_run_id held
