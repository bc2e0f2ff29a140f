-- ===== src/Jobs/Machine.antt =====
-- backend/app/jobs/models.py: the transition table of a job and its check.
use pack_verse.Base.{List, [], ◌∷◌, Result, ok, err, if◌then◌else◌, elem}
use pack_verse.Enums.{JobStatus, running, retrying, completed, failed, cancelled, job_status_eq}
use pack_verse.Errors.{JobDomainError, invalid_job_transition}

unfoldable pub job_transitions : JobStatus → List JobStatus
job_transitions JobStatus.queued = running ∷ cancelled ∷ []
job_transitions JobStatus.running = completed ∷ failed ∷ retrying ∷ cancelled ∷ []
job_transitions JobStatus.retrying = running ∷ cancelled ∷ []
job_transitions JobStatus.completed = []
job_transitions JobStatus.failed = []
job_transitions JobStatus.cancelled = []

unfoldable pub validate_job_transition : JobStatus → JobStatus → Result JobDomainError Unit
unfolding job_transitions
validate_job_transition current target =
    if elem target (job_transitions current)
    then ok tt
    else err (invalid_job_transition current target)
