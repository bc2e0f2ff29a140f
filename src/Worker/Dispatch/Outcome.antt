-- ===== src/Worker/Dispatch/Outcome.antt =====
-- What the dispatch of a job leaves behind.
use pack_verse.Base.{
  ℕ, ◌≡◌, ◌≢◌, ◌<◌, refl, sym, String, false, Option, none, some, Result, ok, err, if◌then◌else◌,
  ◌==◌, ltb, ltb→lt, All, Bool-cases, inl, inr, arith,
}
use mathlib.Core.Path.{subst}
use pack_verse.Workflows.Row.{WorkflowRun}
use pack_verse.Base.Table.{find, All-saved}
use pack_verse.Enums.{
  JobStatus, AgentRunStatus, agent_run_status_eq, same_agent_run_status_iff, WorkflowRunStatus,
  workflow_run_status_eq, job_status_eq,
}
use pack_verse.Errors.{Exn, job, runtime, workflow, llm, mcp, domain, other}
use pack_verse.Jobs.Row.{Job}
use pack_verse.Jobs.Machine.{job_transitions, validate_job_transition}
use pack_verse.Jobs.Queue.{
  mark_completed, mark_failed, mark_retrying, mark_failed_or_retry, mark_cancelled,
}
use pack_verse.Runtime.Row.{AgentRun}
use pack_verse.World.{Host, World}
use pack_verse.Worker.Dispatch.{
  mark, retry_or_fail, after_run, after_workflow_run, is_cancellation, on_agent_run, with_agent_run,
  process_agent_run_job, with_workflow_run, on_workflow_run, process_workflow_run_job,
}

-- A row that no worker runs and that waits for no first run any more: it has the attempt of the held
-- job counted, and waits for another one only if one is left.
abbrev pub IsReleased : Job → Job → Type 0
IsReleased held j =
    (j.status ≢ JobStatus.running)
    × (j.status ≢ JobStatus.queued)
    × (j.attempt_count ≡ held.attempt_count)
    × (j.status ≡ JobStatus.retrying → held.attempt_count < held.max_attempts)

-- The dispatch returned, and the rows with the job's id are released.
abbrev pub Done : {O : Type 0} → Job → Result Exn Unit × World O → Type 0
Done held (r, w) = (r ≡ ok tt) × All (λ j. j.id ≡ held.id → IsReleased held j) w.jobs

-- the status of a job whose run has been handled already
abbrev pub idle_status : AgentRun → JobStatus
idle_status run =
    if run.status == AgentRunStatus.cancelled then JobStatus.cancelled else JobStatus.completed

-- The dispatch returned without touching the runs or the world outside, and closed the job.
abbrev pub IsIdle : {O : Type 0} → Job → AgentRun → World O → Result Exn Unit × World O → Type 0
IsIdle held run w (r, w') =
    (r ≡ ok tt)
    × (w'.agent_runs ≡ w.agent_runs)
    × (w'.outside ≡ w.outside)
    × All (λ j. j.id ≡ held.id → j.status ≡ idle_status run) w'.jobs

module _ (host : Host) (max_tool_iterations : ℕ) (parse_uuid : String → Option ℕ)
    (backoff_base : ℕ) where
  open host use {services}
  open services use {Outside}

  module _ (held : Job) (is_running : held.status ≡ JobStatus.running) where
    pub completed-Done :
        (w : World Outside)
        → Done held (mark host max_tool_iterations parse_uuid backoff_base mark_completed held w)
    unfolding mark_completed validate_job_transition job_transitions
    completed-Done w = rw is_running (
      refl,
      All-saved (λ j. j.id) (IsReleased held) _ w.jobs
          (
            (λ e. absurd (ground arith)),
            (λ e. absurd (ground arith)),
            refl,
            λ e. absurd (ground arith),
          ),
    )

    pub failed-Done :
        (code message : String) (w : World Outside)
        → Done held (
            mark host max_tool_iterations parse_uuid backoff_base
              (λ now. mark_failed now code message)
              held
              w)
    unfolding mark_failed validate_job_transition job_transitions
    failed-Done code message w = rw is_running (
      refl,
      All-saved (λ j. j.id) (IsReleased held) _ w.jobs
          (
            (λ e. absurd (ground arith)),
            (λ e. absurd (ground arith)),
            refl,
            λ e. absurd (ground arith),
          ),
    )

    cancelled-Done :
        (w : World Outside)
        → Done held (mark host max_tool_iterations parse_uuid backoff_base mark_cancelled held w)
    unfolding mark_cancelled validate_job_transition job_transitions
    cancelled-Done w = rw is_running (
      refl,
      All-saved (λ j. j.id) (IsReleased held) _ w.jobs
          (
            (λ e. absurd (ground arith)),
            (λ e. absurd (ground arith)),
            refl,
            λ e. absurd (ground arith),
          ),
    )

    pub retry_or_fail-Done :
        (e : Exn) (w : World Outside)
        → Done held (retry_or_fail host max_tool_iterations parse_uuid backoff_base held e w)
    unfolding retry_or_fail mark_failed_or_retry mark_retrying mark_failed validate_job_transition
        job_transitions
    retry_or_fail-Done e w = elim (Bool-cases (ltb held.attempt_count held.max_attempts)) [
      | inl h ↦ rw h (
          rw is_running (
            refl,
            All-saved (λ j. j.id) (IsReleased held) _ w.jobs
                (
                  (λ e. absurd (ground arith)),
                  (λ e. absurd (ground arith)),
                  refl,
                  λ _. ltb→lt held.attempt_count held.max_attempts h,
                ),
          ))
      | inr h ↦ rw h (
          rw is_running (
            refl,
            All-saved (λ j. j.id) (IsReleased held) _ w.jobs
                (
                  (λ e. absurd (ground arith)),
                  (λ e. absurd (ground arith)),
                  refl,
                  λ e. absurd (ground arith),
                ),
          ))
    ]

    after_run-Done :
        (A : Type 0) (r : Result Exn A) (w : World Outside)
        → Done held (after_run host max_tool_iterations parse_uuid backoff_base held r w)
    unfolding after_run
    after_run-Done A (ok a) w = completed-Done w
    after_run-Done A (err (llm e)) w = failed-Done _ _ w
    after_run-Done A (err (runtime e)) w = failed-Done _ _ w
    after_run-Done A (err (workflow e)) w = failed-Done _ _ w
    after_run-Done A (err (mcp e)) w = retry_or_fail-Done (mcp e) w
    after_run-Done A (err (job e)) w = retry_or_fail-Done (job e) w
    after_run-Done A (err (domain e)) w = retry_or_fail-Done (domain e) w
    after_run-Done A (err (other e)) w = retry_or_fail-Done (other e) w

    after_workflow_run-Done :
        (A : Type 0) (r : Result Exn A) (w : World Outside)
        → Done held (after_workflow_run host max_tool_iterations parse_uuid backoff_base held r w)
    unfolding after_workflow_run
    after_workflow_run-Done A r w =
        elim (Bool-cases (is_cancellation host max_tool_iterations parse_uuid backoff_base r)) [
          | inl h ↦ rw h (cancelled-Done w)
          | inr h ↦ rw h (after_run-Done A r w)
        ]

    on_agent_run-Done :
        (found : Option AgentRun) (w : World Outside)
        → Done held (on_agent_run host max_tool_iterations parse_uuid backoff_base held found w)
    unfolding on_agent_run
    on_agent_run-Done none w = completed-Done w
    on_agent_run-Done (some run) w = elim (Bool-cases (run.status == AgentRunStatus.queued)) [
      | inl h ↦ rw h (after_run-Done AgentRun _ _)
      | inr h ↦ rw h (elim (Bool-cases (run.status == AgentRunStatus.cancelled)) [
        | inl k ↦ rw k (cancelled-Done w)
        | inr k ↦ rw k (completed-Done w)
      ])
    ]

    -- The dispatch of a RUNNING job with a target never raises, whatever the execution does: the
    -- job's row is RUNNING no more, and RETRYING only if an attempt is left.
    pub process_agent_run_job-Done :
        (run_id : ℕ) (w : World Outside)
        → held.target_run_id ≡ some run_id
        → Done held (process_agent_run_job host max_tool_iterations parse_uuid backoff_base held w)
    unfolding process_agent_run_job with_agent_run
    process_agent_run_job-Done run_id w h =
        subst
          (λ t.
            Done held (with_agent_run host max_tool_iterations parse_uuid backoff_base t held w))
          (sym h) (on_agent_run-Done (find (λ r. r.id) run_id w.agent_runs) w)

    module _ (session_job : ℕ → World Outside → Option Job) where
      on_workflow_run-Done :
          (found : Option WorkflowRun) (w : World Outside)
          → Done held (
              on_workflow_run host max_tool_iterations parse_uuid backoff_base session_job held
                found w)
      unfolding on_workflow_run
      on_workflow_run-Done none w = completed-Done w
      on_workflow_run-Done (some run) w =
          elim (Bool-cases (run.status == WorkflowRunStatus.queued)) [
            | inl h ↦ rw h (after_workflow_run-Done WorkflowRun _ _)
            | inr h ↦ rw h (elim (Bool-cases (run.status == WorkflowRunStatus.cancelled)) [
              | inl k ↦ rw k (cancelled-Done w)
              | inr k ↦ rw k (completed-Done w)
            ])
          ]

      -- The dispatch of a RUNNING workflow-run job with a target never raises: the job's row is RUNNING
      -- no more, and RETRYING only if an attempt is left.
      pub process_workflow_run_job-Done :
          (run_id : ℕ) (w : World Outside)
          → held.target_run_id ≡ some run_id
          → Done held (
              process_workflow_run_job host max_tool_iterations parse_uuid backoff_base session_job
                held w)
      unfolding process_workflow_run_job with_workflow_run
      process_workflow_run_job-Done run_id w h =
          subst
            (λ t. Done held (
              with_workflow_run host max_tool_iterations parse_uuid backoff_base session_job t held
                w))
            (sym h) (on_workflow_run-Done (find (λ r. r.id) run_id w.workflow_runs) w)

    on_agent_run-IsIdle :
        (run : AgentRun) (w : World Outside)
        → (run.status == AgentRunStatus.queued) ≡ false
        → IsIdle held run w
            (on_agent_run host max_tool_iterations parse_uuid backoff_base held (some run) w)
    unfolding on_agent_run mark_completed mark_cancelled validate_job_transition job_transitions
    on_agent_run-IsIdle run w idle =
        rw idle (elim (Bool-cases (run.status == AgentRunStatus.cancelled)) [
          | inl c ↦ rw c (
              rw is_running (
                refl,
                refl,
                refl,
                All-saved (λ j. j.id) (λ j. j.status ≡ JobStatus.cancelled) _ w.jobs refl,
              ))
          | inr c ↦ rw c (
              rw is_running (
                refl,
                refl,
                refl,
                All-saved (λ j. j.id) (λ j. j.status ≡ JobStatus.completed) _ w.jobs refl,
              ))
        ])

    -- A job whose agent run is not QUEUED, say RUNNING since an attempt that ended unexpectedly,
    -- executes nothing: the agent runs stay as they are, and the job's row is COMPLETED, or
    -- CANCELLED if the run is.
    pub process_agent_run_job-IsIdle :
        (run_id : ℕ) (run : AgentRun) (w : World Outside)
        → held.target_run_id ≡ some run_id
        → find (λ r. r.id) run_id w.agent_runs ≡ some run
        → run.status ≢ AgentRunStatus.queued
        → IsIdle held run w
            (process_agent_run_job host max_tool_iterations parse_uuid backoff_base held w)
    unfolding process_agent_run_job with_agent_run
    process_agent_run_job-IsIdle run_id run w h k not_queued =
        subst
          (λ t.
            IsIdle held run w
              (with_agent_run host max_tool_iterations parse_uuid backoff_base t held w))
          (sym h)
          (subst
            (λ found.
              IsIdle held run w
                (on_agent_run host max_tool_iterations parse_uuid backoff_base held found w))
            (sym k)
            (on_agent_run-IsIdle run w (
              ground
                (arith, not_queued, same_agent_run_status_iff run.status AgentRunStatus.queued))))
