-- ===== src/Workflows/Service.antt =====
-- backend/app/workflows/service.py: create, read and cancel workflow runs. `parse_uuid` is that of
-- the definition's parser. `list_runs` orders its page by `created_at`, newest first; the table
-- holds its rows in the order of their creation.
use pack_verse.Base.{
  ℕ, String, Bool, ◌&&◌, not, Option, none, some, List, [], ◌∷◌, ◌++◌, map, min, max, if◌then◌else◌,
  ◌==◌, ℕ_eq, take, drop, keep, length,
}
use mathlib.Core.List.{reverse}
use pack_verse.Base.Table
use pack_verse.Base.Int.{ℤ, pos_part, leb_ℤ}
use pack_verse.Enums.{
  WorkflowStatus, WorkflowRunStatus, WorkflowStepRunStatus, workflow_status_eq,
  workflow_run_status_eq, step_run_status_eq,
}
use pack_verse.Errors.{workflow, workflow_not_found, workflow_not_active, workflow_run_not_found}
use pack_verse.Effects.{Act, pure, lift, gets, or_raise, modify, raise_when, as_exn, ◌>>=◌, ◌>>◌}
use pack_verse.Runtime.Service.{User, hidden_from, max_page_size, duration_since, get_active_agent}
use pack_verse.Workflows.Row.{WorkflowDefinition, WorkflowRun, WorkflowStepRun}
use pack_verse.Workflows.Machine.{validate_workflow_run_transition}
use pack_verse.Workflows.Definition.{WorkflowStepSpec, parse_workflow_steps}
use pack_verse.World.{World, read_clock, make_id, save_workflow_run, insert_workflow_run}

abbrev pub insert_in_order : WorkflowStepRun → List WorkflowStepRun → List WorkflowStepRun
insert_in_order s [] = s ∷ []
insert_in_order s (x ∷ xs) =
    if leb_ℤ s.step_order x.step_order then s ∷ x ∷ xs else x ∷ insert_in_order s xs

-- `ORDER BY step_order`
abbrev pub in_order : List WorkflowStepRun → List WorkflowStepRun
in_order [] = []
in_order (s ∷ ss) = insert_in_order s (in_order ss)

-- the select of a run's step runs
abbrev pub steps_of : ℕ → List WorkflowStepRun → List WorkflowStepRun
steps_of run_id rows = in_order (keep (λ s. s.workflow_run_id == run_id) rows)

abbrev pub is_pending : ℕ → WorkflowStepRun → Bool
is_pending run_id s = s.workflow_run_id == run_id && s.status == WorkflowStepRunStatus.pending

-- the bulk update of a run's PENDING step runs
abbrev pub end_pending : WorkflowStepRunStatus → ℕ → ℕ → List WorkflowStepRun → List WorkflowStepRun
end_pending status now run_id =
    map
      λ s. if is_pending run_id s then record s { status = status; completed_at = some now } else s

abbrev pub new_step_run : ℕ → ℕ → WorkflowStepSpec → WorkflowStepRun
new_step_run id run_id step = record {
  id = id;
  workflow_run_id = run_id;
  step_id = step.step_id;
  step_order = step.order;
  agent_id = step.agent_definition_id;
  agent_run_id = none;
  input_snapshot = none;
  output_text = none;
  status = WorkflowStepRunStatus.pending;
  error_code = none;
  error_message = none;
  duration_ms = none;
  started_at = none;
  completed_at = none;
}

module _ {O : Type 0} where
  abbrev pub insert_step_run : WorkflowStepRun → Act (World O) Unit
  insert_step_run s = modify λ w. record w { step_runs = w.step_runs ++ (s ∷ []) }

  unfoldable pub get_active_workflow : ℕ → Act (World O) WorkflowDefinition
  get_active_workflow workflow_id = do
    found ← gets (λ w. Table.find (λ d. d.id) workflow_id w.workflows)
    definition ← or_raise found (workflow (workflow_not_found workflow_id))
    raise_when (not (definition.status == WorkflowStatus.active))
        (workflow (workflow_not_active workflow_id))
    pure definition

  -- `for step in steps: await get_active_agent(...)`
  unfoldable pub check_agents : List WorkflowStepSpec → Act (World O) Unit
  unfolding get_active_agent
  check_agents [] = pure tt
  check_agents (s ∷ ss) = do get_active_agent s.agent_definition_id; check_agents ss

  unfoldable pub add_step_runs : (ℕ → ℕ) → ℕ → List WorkflowStepSpec → Act (World O) Unit
  add_step_runs new_id run_id [] = pure tt
  add_step_runs new_id run_id (s ∷ ss) = do
    id ← make_id new_id
    insert_step_run (new_step_run id run_id s)
    add_step_runs new_id run_id ss

  unfoldable pub create_workflow_run :
      (String → Option ℕ) → (ℕ → ℕ) → ℕ → ℕ → Act (World O) WorkflowRun
  unfolding get_active_workflow check_agents add_step_runs parse_workflow_steps
  create_workflow_run parse_uuid new_id workflow_id created_by_user_id = do
    definition ← get_active_workflow workflow_id
    steps ← lift (parse_workflow_steps workflow_id parse_uuid definition.definition_json)
    check_agents steps
    id ← make_id new_id
    let run : WorkflowRun = record {
      id = id;
      workflow_id = workflow_id;
      created_by_user_id = some created_by_user_id;
      status = WorkflowRunStatus.queued;
      output_text = none;
      error_code = none;
      error_message = none;
      duration_ms = none;
      started_at = none;
      completed_at = none;
    }
    insert_workflow_run run
    add_step_runs new_id id steps
    pure run

  unfoldable pub get_run : ℕ → User → Act (World O) WorkflowRun
  get_run run_id current_user = do
    found ← gets (λ w. Table.find (λ r. r.id) run_id w.workflow_runs)
    run ← or_raise found (workflow (workflow_run_not_found run_id))
    raise_when (hidden_from current_user run.created_by_user_id)
        (workflow (workflow_run_not_found run_id))
    pure run

  unfoldable pub list_runs : User → ℤ → ℤ → World O → List WorkflowRun × ℕ
  list_runs current_user limit offset w =
      let visible =
        keep (λ r. not (hidden_from current_user r.created_by_user_id)) w.workflow_runs in
      (
        take (min (max (pos_part limit) 1) max_page_size)
            (drop (pos_part offset) (reverse visible)),
        length visible,
      )

  unfoldable pub get_steps : ℕ → User → Act (World O) (List WorkflowStepRun)
  unfolding get_run
  get_steps run_id current_user = do
    get_run run_id current_user
    gets (λ w. steps_of run_id w.step_runs)

  -- the part of `cancel_run` for a run that is not cancelled yet
  unfoldable pub cancel_active : (ℕ → ℕ) → WorkflowRun → Act (World O) WorkflowRun
  unfolding validate_workflow_run_transition
  cancel_active time run = do
    lift (as_exn workflow (validate_workflow_run_transition run.status WorkflowRunStatus.cancelled))
    now ← read_clock time
    let run' = record run {
      status = WorkflowRunStatus.cancelled;
      completed_at = some now;
      duration_ms = duration_since run.started_at now run.duration_ms;
    }
    save_workflow_run run'
    modify (λ w. record w {
      step_runs = end_pending WorkflowStepRunStatus.cancelled now run.id w.step_runs;
    })
    pure run'

  unfoldable pub cancel_run : (ℕ → ℕ) → ℕ → User → Act (World O) WorkflowRun
  unfolding get_run cancel_active
  cancel_run time run_id current_user = do
    run ← get_run run_id current_user
    if run.status == WorkflowRunStatus.cancelled then pure run else cancel_active time run
