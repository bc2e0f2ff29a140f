-- ===== src/Jobs/Service.antt =====
-- backend/app/jobs/service.py for agent and workflow runs. `commit=False` of the creating functions
-- leaves one commit for the run and its job; a commit that fails is not modelled.
pub mod Enqueue
use pack_verse.Base.{
  ℕ, String, Bool, true, false, ◌&&◌, Option, none, some, List, [], ◌∷◌, ◌++◌, keep, elem, ok, err,
  if◌then◌else◌, ◌==◌, ℕ_eq, string_eq, is_none,
}
use pack_verse.Base.Table
use pack_verse.Enums.{JobStatus, job_status_eq}
use pack_verse.Json.{Value, null, str, obj, Fields, end, field}
use pack_verse.Errors.{Exn, job, other, job_not_found, job_already_running}
use pack_verse.Effects.{Act, pure, raise, lift, gets, or_raise, as_exn, ◌>>=◌, ◌>>◌}
use pack_verse.Jobs.Row.{Job}
use pack_verse.Jobs.Queue.{cancel_queued_job, request_cancel}
use pack_verse.Jobs.Lifecycle.{new_job}
use pack_verse.Runtime.Row.{AgentRun}
use pack_verse.Runtime.Service as Agents
use pack_verse.Workflows.Row.{WorkflowRun}
use pack_verse.Workflows.Service as Flows
use pack_verse.World.{World, read_clock, make_id, save_job, insert_job}

abbrev pub agent_run_job_type : String
agent_run_job_type = "agent_run"

abbrev pub workflow_run_job_type : String
workflow_run_job_type = "workflow_run"

-- `{"user_input": user_input, "context": context}`
abbrev pub run_input : String → Option Fields → Fields
run_input user_input none = field "user_input" (str user_input) (field "context" null end)
run_input user_input (some context) =
    field "user_input" (str user_input) (field "context" (obj context) end)

abbrev pub targets : String → ℕ → Job → Bool
targets job_type run_id j = elim j.target_run_id [
  | none ↦ false
  | some target ↦ j.job_type == job_type && target == run_id
]

-- `scalar_one_or_none`, which raises MultipleResultsFound
abbrev pub one_or_none : {O : Type 0} → List Job → Act (World O) (Option Job)
one_or_none [] = pure none
one_or_none (j ∷ []) = pure (some j)
one_or_none (j ∷ k ∷ js) = raise (other "MultipleResultsFound")

-- `job.status in (QUEUED, RETRYING)`
abbrev pub is_waiting : Job → Bool
is_waiting j = elem j.status (JobStatus.queued ∷ JobStatus.retrying ∷ [])

module _ {O : Type 0} where
  unfoldable pub get_job : ℕ → Act (World O) Job
  get_job job_id = do
    found ← gets (λ w. Table.find (λ j. j.id) job_id w.jobs)
    or_raise found (job (job_not_found job_id))

  unfoldable pub get_job_for_run : String → ℕ → Act (World O) (Option Job)
  get_job_for_run job_type run_id = do
    found ← gets (λ w. keep (targets job_type run_id) w.jobs)
    one_or_none found

  -- the insertion of the job of a run; `created_at` is a default of the database
  abbrev pub enqueue : (ℕ → ℕ) → (ℕ → ℕ) → String → ℕ → Fields → ℕ → Act (World O) Job
  enqueue time new_id job_type run_id input max_attempts = do
    id ← make_id new_id
    now ← read_clock time
    let row = new_job id job_type run_id input max_attempts now
    insert_job row
    pure row

  unfoldable pub enqueue_agent_run :
      (ℕ → ℕ) → (ℕ → ℕ) → ℕ → ℕ → String → Option Fields → ℕ → Act (World O) (AgentRun × Job)
  unfolding Agents.create_run new_job
  enqueue_agent_run time new_id agent_id created_by_user_id user_input context max_attempts = do
    run ← Agents.create_run new_id agent_id created_by_user_id
    row ← enqueue time new_id agent_run_job_type run.id (run_input user_input context) max_attempts
    pure (run, row)

  unfoldable pub enqueue_workflow_run :
      (String → Option ℕ)
      → (ℕ → ℕ)
      → (ℕ → ℕ)
      → ℕ
      → ℕ
      → String
      → Option Fields
      → ℕ
      → Act (World O) (WorkflowRun × Job)
  unfolding Flows.create_workflow_run new_job
  enqueue_workflow_run parse_uuid time new_id workflow_id user_id user_input context max_attempts =
      do
        run ← Flows.create_workflow_run parse_uuid new_id workflow_id user_id
        row ←
            enqueue time new_id workflow_run_job_type run.id (run_input user_input context)
              max_attempts
        pure (run, row)

  -- `queue.cancel_queued_job`
  abbrev pub cancel_waiting : (ℕ → ℕ) → Job → Act (World O) Unit
  cancel_waiting time j = do
    now ← read_clock time
    row ← lift (as_exn job (cancel_queued_job now j))
    save_job row

  -- the request that the workflow's worker reads, made once
  unfoldable pub ask_to_stop : (ℕ → ℕ) → Job → Act (World O) Unit
  unfolding request_cancel
  ask_to_stop time j =
      if is_none j.cancel_requested_at
      then (do now ← read_clock time; save_job (request_cancel now j))
      else pure tt

  -- what `cancel_agent_run` does for the job it found
  unfoldable pub cancel_agent_job : (ℕ → ℕ) → ℕ → Agents.User → Option Job → Act (World O) AgentRun
  unfolding cancel_queued_job Agents.cancel_run
  cancel_agent_job time run_id user none = Agents.cancel_run time run_id user
  cancel_agent_job time run_id user (some j) =
      if is_waiting j
      then (do cancel_waiting time j; Agents.cancel_run time run_id user)
      else if j.status == JobStatus.running
      then raise (job (job_already_running j.id))
      else Agents.cancel_run time run_id user

  unfoldable pub cancel_agent_run : (ℕ → ℕ) → ℕ → Agents.User → Act (World O) AgentRun
  unfolding Agents.get_run get_job_for_run cancel_agent_job
  cancel_agent_run time run_id user = do
    Agents.get_run run_id user
    found ← get_job_for_run agent_run_job_type run_id
    cancel_agent_job time run_id user found

  -- what `cancel_workflow_run` does for the job it found
  unfoldable pub cancel_workflow_job :
      (ℕ → ℕ) → ℕ → Agents.User → Option Job → Act (World O) WorkflowRun
  unfolding cancel_queued_job ask_to_stop Flows.cancel_run Flows.get_run
  cancel_workflow_job time run_id user none = Flows.cancel_run time run_id user
  cancel_workflow_job time run_id user (some j) =
      if is_waiting j
      then (do cancel_waiting time j; Flows.cancel_run time run_id user)
      else if j.status == JobStatus.running
      then (do ask_to_stop time j; Flows.get_run run_id user)
      else Flows.cancel_run time run_id user

  unfoldable pub cancel_workflow_run : (ℕ → ℕ) → ℕ → Agents.User → Act (World O) WorkflowRun
  unfolding Flows.get_run get_job_for_run cancel_workflow_job
  cancel_workflow_run time run_id user = do
    Flows.get_run run_id user
    found ← get_job_for_run workflow_run_job_type run_id
    cancel_workflow_job time run_id user found
