-- ===== src/Runtime/Machine.antt =====
-- backend/app/runtime/models.py: the transition table of an agent run and its check.
use pack_verse.Base.{List, [], ◌∷◌, Result, ok, err, if◌then◌else◌, elem}
use pack_verse.Enums.{AgentRunStatus, agent_run_status_eq}
use pack_verse.Errors.{RuntimeDomainError, invalid_run_transition}

unfoldable pub transitions : AgentRunStatus → List AgentRunStatus
transitions AgentRunStatus.queued = AgentRunStatus.running ∷ AgentRunStatus.cancelled ∷ []
transitions AgentRunStatus.running =
    AgentRunStatus.completed ∷ AgentRunStatus.failed ∷ AgentRunStatus.cancelled ∷ []
transitions AgentRunStatus.completed = []
transitions AgentRunStatus.failed = []
transitions AgentRunStatus.cancelled = []

unfoldable pub validate_transition :
    AgentRunStatus → AgentRunStatus → Result RuntimeDomainError Unit
unfolding transitions
validate_transition current target =
    if elem target (transitions current) then ok tt else err (invalid_run_transition current target)
