-- ===== src/Tests/Samples.antt =====
-- Sample rows, a program's host whose model always answers, and a database of one run of each kind.
use pack_verse.Base.{ℕ, ◌+◌, String, Option, none, some, [], ◌∷◌, ok, err, false}
use pack_verse.Base.Int.{pos}
use pack_verse.Enums.{
  JobStatus, AgentStatus, AgentRunStatus, WorkflowStatus, WorkflowRunStatus, WorkflowStepRunStatus,
}
use pack_verse.Json.{Value, str, int, arr, obj, nil, cons, Fields, end, field}
use pack_verse.Errors.{other, class_name}
use pack_verse.Jobs.Row.{Job}
use pack_verse.Runtime.Row.{AgentDefinition, AgentRun}
use pack_verse.Runtime.Prompt.{Printing, GenerateResponse}
use pack_verse.Runtime.ToolLoop.{Services}
use pack_verse.Workflows.Row.{WorkflowRun, WorkflowStepRun}
use pack_verse.World.{Host, World}

abbrev pub sample_job : ℕ → JobStatus → ℕ → Job
sample_job id status created_at = record {
  id = id;
  job_type = "agent_run";
  status = status;
  target_run_id = some 7;
  input_json = field "user_input" (str "hello") end;
  error_code = none;
  error_message = none;
  attempt_count = 1;
  max_attempts = 3;
  next_attempt_at = none;
  lease_expires_at = some 50;
  heartbeat_at = some 20;
  worker_id = some "w1";
  cancel_requested_at = none;
  started_at = some 20;
  completed_at = none;
  created_at = created_at;
}

abbrev pub sample_agent : AgentDefinition
sample_agent = record {
  id = 5;
  name = "writer";
  status = AgentStatus.active;
  configuration_json = field "model" (str "m") (field "system_prompt" (str "be brief") end);
}

abbrev pub sample_run : AgentRunStatus → AgentRun
sample_run status = record {
  id = 7;
  agent_id = 5;
  created_by_user_id = some 1;
  status = status;
  llm_request_id = none;
  provider = none;
  model = none;
  input_tokens = none;
  output_tokens = none;
  total_tokens = none;
  estimated_cost_usd = none;
  output_text = none;
  tool_calls_json = none;
  error_code = none;
  error_message = none;
  duration_ms = none;
  started_at = none;
  completed_at = none;
}

abbrev pub answer : GenerateResponse
answer = record {
  request_id = 9;
  provider = "fake";
  model = "m";
  content = "done";
  input_tokens = 3;
  output_tokens = 4;
  estimated_cost_usd = some 2;
  tool_calls = [];
}

abbrev pub sample_printing : Printing
sample_printing = record {
  str_of = λ v. "value";
  repr_text = λ s. s;
  repr_dict = λ d. "dict";
  dumps = λ d. "json";
  real_is_zero = λ r. false;
  temperature_in_range = λ v. false;
}

abbrev pub sample_services : Services
sample_services = record {
  Outside = Unit;
  printing = sample_printing;
  generate = λ request owner o. (ok answer, o);
  mcp_configured = λ name. false;
  list_tools = λ name o. (ok [], o);
  call_tool = λ name tool arguments o. (err (other "ConnectionError"), o);
}

abbrev pub sample_host : Host
sample_host = record {
  services = sample_services;
  time = λ n. 1000 + n;
  new_id = λ n. 100 + n;
  text = class_name;
}

abbrev pub step_json : String → ℕ → Fields → Value
step_json step_id order rest = obj (
    field "step_id" (str step_id) (
      field "order" (int (pos order))
        (field "name" (str step_id) (field "agent_definition_id" (str "five") rest))))

-- two steps, listed against their order; the second reads the output of the first
abbrev pub sample_definition : Fields
sample_definition =
    field "steps"
      (arr (
        cons
          (step_json "revise" 2 (
            field "input_mapping"
              (obj (field "source" (str "step_output") (field "step_id" (str "draft") end))) end))
          (cons (step_json "draft" 1 end) nil)))
      end

abbrev pub parse_five : String → Option ℕ
parse_five text = some 5

abbrev pub sample_workflow_run : WorkflowRun
sample_workflow_run = record {
  id = 11;
  workflow_id = 3;
  created_by_user_id = some 1;
  status = WorkflowRunStatus.queued;
  output_text = none;
  error_code = none;
  error_message = none;
  duration_ms = none;
  started_at = none;
  completed_at = none;
}

abbrev pub sample_step_run : ℕ → String → ℕ → WorkflowStepRun
sample_step_run id step_id order = record {
  id = id;
  workflow_run_id = 11;
  step_id = step_id;
  step_order = pos order;
  agent_id = 5;
  agent_run_id = none;
  input_snapshot = none;
  output_text = none;
  status = WorkflowStepRunStatus.pending;
  error_code = none;
  error_message = none;
  duration_ms = none;
  started_at = none;
  completed_at = none;
}

abbrev pub sample_world : AgentRunStatus → World Unit
sample_world status = record {
  outside = tt;
  clock_reads = 0;
  ids_made = 0;
  agents = sample_agent ∷ [];
  agent_runs = sample_run status ∷ [];
  workflows =
      (record { id = 3; status = WorkflowStatus.active; definition_json = sample_definition }) ∷ [];
  workflow_runs = sample_workflow_run ∷ [];
  step_runs = sample_step_run 21 "revise" 2 ∷ sample_step_run 22 "draft" 1 ∷ [];
  jobs = sample_job 2 JobStatus.running 10 ∷ [];
}
