-- ===== src/Tests/Runs.antt =====
-- The executors and the dispatch on the sample database.
use pack_verse.Base.{ℕ, ◌+◌, ◌≤◌, ◌≡◌, refl, Bool, false, Option, none, some, [], ◌∷◌, ok, arith}
use pack_verse.Enums.{JobStatus, AgentRunStatus}
use pack_verse.Jobs.Row.{Job}
use pack_verse.Runtime.ToolLoop.{new_usage, persist_tool_loop_usage, run_tool_loop}
use pack_verse.Runtime.ToolLoop.Bounds.{calls, calls-run_tool_loop}
use pack_verse.Runtime.ToolLoop.Usage.{record_calls, persist-record_calls}
use pack_verse.Runtime.Executor.{execute_run}
use pack_verse.Runtime.Executor.Outcome as AgentOutcome
use pack_verse.Workflows.Executor.{execute_workflow_run}
use pack_verse.Workflows.Executor.Steps.{Settled}
use pack_verse.Workflows.Executor.Outcome.{execute_workflow_run-Settled}
use pack_verse.Worker.Dispatch.{process_agent_run_job}
use pack_verse.Worker.Dispatch.Outcome.{IsIdle, process_agent_run_job-IsIdle}
use pack_verse.Effects.{Act}
use pack_verse.Jobs.Service.{enqueue_agent_run}
use pack_verse.Jobs.Service.Enqueue.{IsEnqueued, enqueue_agent_run-IsEnqueued}
use pack_verse.World.{World}
use pack_verse.Tests.Samples.{
  sample_job, sample_agent, sample_run, answer, sample_services, sample_host, parse_five,
  sample_workflow_run, sample_world,
}

abbrev fresh : World Unit
fresh = sample_world AgentRunStatus.queued

abbrev interrupted : World Unit
interrupted = sample_world AgentRunStatus.running

abbrev held : Job
held = sample_job 2 JobStatus.running 10

abbrev held_workflow : Job
held_workflow = record held { job_type = "workflow_run"; target_run_id = some 11 }

abbrev never_stopped : Act (World Unit) Bool
never_stopped w = (ok false, w)

abbrev the_held_job : ℕ → World Unit → Option Job
the_held_job id w = some held_workflow

execute_run-Settled_example :
    let (r, w') = execute_run sample_host 5 (sample_run AgentRunStatus.queued) "hello" none fresh in
    AgentOutcome.Settled r (AgentOutcome.row_of (sample_run AgentRunStatus.queued) w')
execute_run-Settled_example =
    AgentOutcome.execute_run-Settled sample_host 5 (sample_run AgentRunStatus.queued) "hello" none
      fresh refl refl

calls-run_tool_loop_example :
    calls sample_services
      (run_tool_loop sample_services 5 sample_agent "hello" none 1
        (record { outside = tt; usage = new_usage })).1
    ≤ 5
calls-run_tool_loop_example = calls-run_tool_loop sample_services 5 sample_agent "hello" none 1 tt

persist-record_calls_example :
    let row =
      persist_tool_loop_usage
        (sample_run AgentRunStatus.running)
        (record_calls (answer ∷ answer ∷ []) new_usage) in
    (row.input_tokens ≡ some 6)
    × (row.output_tokens ≡ some 8)
    × (row.total_tokens ≡ some 14)
    × (row.estimated_cost_usd ≡ some 4)
    × (persist_tool_loop_usage (sample_run AgentRunStatus.running) new_usage
        ≡ sample_run AgentRunStatus.running)
persist-record_calls_example =
    persist-record_calls (sample_run AgentRunStatus.running) answer (answer ∷ [])

execute_workflow_run-Settled_example : Settled sample_host 5 parse_five 11 (
    execute_workflow_run sample_host 5 parse_five never_stopped sample_workflow_run "hello" none
      fresh)
execute_workflow_run-Settled_example =
    execute_workflow_run-Settled sample_host 5 parse_five never_stopped (λ w. (false, refl))
      sample_workflow_run "hello" none fresh refl

process_agent_run_job-IsIdle_example :
    IsIdle held
      (sample_run AgentRunStatus.running)
      interrupted
      (process_agent_run_job sample_host 5 parse_five 1 held interrupted)
process_agent_run_job-IsIdle_example =
    process_agent_run_job-IsIdle sample_host 5 parse_five 1 held refl 7
      (sample_run AgentRunStatus.running) interrupted refl refl (λ e. absurd (ground (arith, e)))

enqueue_agent_run-IsEnqueued_example :
    IsEnqueued fresh (enqueue_agent_run (λ n. n) (λ n. 100 + n) 5 1 "hello" none 3 fresh)
enqueue_agent_run-IsEnqueued_example =
    enqueue_agent_run-IsEnqueued (λ n. n) (λ n. 100 + n) 5 1 "hello" none 3 fresh
