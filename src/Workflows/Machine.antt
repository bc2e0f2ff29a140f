-- ===== src/Workflows/Machine.antt =====
-- backend/app/workflows/models.py: the transition tables of a workflow run and of a step run.
use pack_verse.Base.{List, [], ◌∷◌, Result, ok, err, if◌then◌else◌, elem}
use pack_verse.Enums.{
  WorkflowRunStatus, WorkflowStepRunStatus, workflow_run_status_eq, step_run_status_eq,
}
use pack_verse.Errors.{
  WorkflowDomainError, invalid_workflow_run_transition, invalid_step_run_transition,
}

unfoldable pub workflow_run_transitions : WorkflowRunStatus → List WorkflowRunStatus
workflow_run_transitions WorkflowRunStatus.queued =
    WorkflowRunStatus.running ∷ WorkflowRunStatus.cancelled ∷ []
workflow_run_transitions WorkflowRunStatus.running =
    WorkflowRunStatus.completed ∷ WorkflowRunStatus.failed ∷ WorkflowRunStatus.cancelled ∷ []
workflow_run_transitions WorkflowRunStatus.completed = []
workflow_run_transitions WorkflowRunStatus.failed = []
workflow_run_transitions WorkflowRunStatus.cancelled = []

unfoldable pub step_run_transitions : WorkflowStepRunStatus → List WorkflowStepRunStatus
step_run_transitions WorkflowStepRunStatus.pending =
    WorkflowStepRunStatus.running ∷ WorkflowStepRunStatus.skipped ∷ WorkflowStepRunStatus.cancelled
    ∷ []
step_run_transitions WorkflowStepRunStatus.running =
    WorkflowStepRunStatus.completed ∷ WorkflowStepRunStatus.failed ∷ WorkflowStepRunStatus.cancelled
    ∷ []
step_run_transitions WorkflowStepRunStatus.completed = []
step_run_transitions WorkflowStepRunStatus.failed = []
step_run_transitions WorkflowStepRunStatus.cancelled = []
step_run_transitions WorkflowStepRunStatus.skipped = []

unfoldable pub validate_workflow_run_transition :
    WorkflowRunStatus → WorkflowRunStatus → Result WorkflowDomainError Unit
unfolding workflow_run_transitions
validate_workflow_run_transition current target =
    if elem target (workflow_run_transitions current)
    then ok tt
    else err (invalid_workflow_run_transition current target)

unfoldable pub validate_step_run_transition :
    WorkflowStepRunStatus → WorkflowStepRunStatus → Result WorkflowDomainError Unit
unfolding step_run_transitions
validate_step_run_transition current target =
    if elem target (step_run_transitions current)
    then ok tt
    else err (invalid_step_run_transition current target)
