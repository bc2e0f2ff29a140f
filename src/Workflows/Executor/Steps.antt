-- ===== src/Workflows/Executor/Steps.antt =====
-- What the parts of `execute_workflow_run` leave behind when they raise.
use pack_verse.Base.{
  ℕ, ◌≡◌, refl, ◌⊎◌, ◌||◌, not, string_eq, inl, inr, String, Bool, true, false, Option, none, some,
  List, [], ◌∷◌, Result, ok, err, ◌==◌, ℕ_eq, All, Bool-cases, Option-cases, ◌+◌, arith,
}
use pack_verse.Base.Table.{All-saved}
use pack_verse.Enums.{WorkflowRunStatus, WorkflowStepRunStatus, step_run_status_eq}
use pack_verse.Json.{Fields}
use pack_verse.Errors.{
  Exn, workflow, runtime, llm, job, mcp, domain, other, workflow_not_found, workflow_not_active,
  workflow_run_not_found, definition_invalid, invalid_workflow_run_transition,
  invalid_step_run_transition, input_resolution, cancelled_during_execution, class_name,
}
use pack_verse.Effects.{Act, continue, continue_cases, as_exn}
use pack_verse.Runtime.Row.{AgentRun}
use pack_verse.Workflows.Row.{WorkflowRun, WorkflowStepRun}
use pack_verse.Workflows.Machine.{
  validate_workflow_run_transition, validate_step_run_transition, step_run_transitions,
}
use pack_verse.Workflows.Definition.{
  WorkflowStepSpec, Source, workflow_input, previous_output, step_output, static,
}
use pack_verse.Workflows.Service.{is_pending, end_pending}
use pack_verse.World.{Host, World, read_clock, save_step_run}
use pack_verse.Workflows.Inputs.{build_step_input, recorded, static_text, output_of}
use mathlib.Core.Path.{subst, sym}
use pack_verse.Workflows.Executor.{
  Progress, spec_of, fail_workflow_run, cancel_workflow_run, fail_and_raise, handle_plan, fail_step,
  handle_step, complete_step, finish_step, try_step, run_step, stop_if, run_steps, run_agent,
}

-- what the `except` clause of a step names
abbrev pub is_step_failure : Exn → Bool
is_step_failure (runtime e) = true
is_step_failure (llm e) = true
is_step_failure (workflow (input_resolution s)) = true
is_step_failure _ = false

abbrev pub is_cancelled : Exn → Bool
is_cancelled (workflow (cancelled_during_execution id)) = true
is_cancelled _ = false

-- what the first `try` can raise
abbrev pub is_plan_error : Exn → Bool
is_plan_error (workflow e) = not (is_cancelled (workflow e))
is_plan_error (runtime e) = true
is_plan_error (other name) = name == "TypeError"
is_plan_error _ = false

-- No step run of the run is PENDING, and the run's row satisfies `P`.
abbrev pub IsEnded : {O : Type 0} → ℕ → (WorkflowRun → Type 0) → World O → Type 0
IsEnded run_id P w =
    All (λ s. is_pending run_id s ≡ false) w.step_runs
    × All (λ r. r.id ≡ run_id → P r) w.workflow_runs

abbrev pub IsFailed : Exn → WorkflowRun → Type 0
IsFailed e r = (r.status ≡ WorkflowRunStatus.failed) × (r.error_code ≡ some (class_name e))

end_pending-ended :
    (status : WorkflowStepRunStatus) (now run_id : ℕ) (rows : List WorkflowStepRun)
    → (status == WorkflowStepRunStatus.pending) ≡ false
    → All (λ s. is_pending run_id s ≡ false) (end_pending status now run_id rows)
end_pending-ended status now run_id [] h = tt
end_pending-ended status now run_id (s ∷ ss) h = (
  (elim (Bool-cases (is_pending run_id s)) [ inl e ↦ rw e (ground (arith, h)) | inr e ↦ rw e e ]),
  end_pending-ended status now run_id ss h,
)

-- the exceptions of Python itself that the code of the engine can run into
abbrev pub is_builtin : Exn → Bool
is_builtin (other name) = name == "KeyError" || (name == "TypeError" || name == "AssertionError")
is_builtin _ = false

step_refused :
    (status : WorkflowStepRunStatus) (e : Exn)
    → as_exn workflow (validate_step_run_transition status WorkflowStepRunStatus.running) ≡ err e
    → e ≡ workflow (invalid_step_run_transition status WorkflowStepRunStatus.running)
unfolding validate_step_run_transition step_run_transitions
step_refused status e h = elim status [
  | WorkflowStepRunStatus.pending ↦ ground arith
  | WorkflowStepRunStatus.running ↦ ground arith
  | WorkflowStepRunStatus.completed ↦ ground arith
  | WorkflowStepRunStatus.failed ↦ ground arith
  | WorkflowStepRunStatus.skipped ↦ ground arith
  | WorkflowStepRunStatus.cancelled ↦ ground arith
]

module _ (host : Host) (max_tool_iterations : ℕ) (parse_uuid : String → Option ℕ) where
  open host use {services}
  open services use {Outside}

  -- The exception comes from a step's agent run, from Python itself, or from a step run that was not
  -- PENDING.
  abbrev pub Raised : Exn → Type 0
  Raised e =
      (is_builtin e ≡ true)
      ⊎ ((status : WorkflowStepRunStatus) × (e
            ≡ workflow (invalid_step_run_transition status WorkflowStepRunStatus.running)))
      ⊎ ((spec : WorkflowStepSpec) × (owner : ℕ) × (context : Option Fields) × (step_input : String)
          × (s : WorkflowStepRun) × (w : World Outside) × ((run_agent host max_tool_iterations
                parse_uuid spec owner context step_input s w).0
              ≡ err e))

  -- A result with the world it leaves: the run is COMPLETED, FAILED with the exception, or CANCELLED,
  -- or the exception is none that a step's `except` clause names, and comes from where `Raised` says.
  abbrev pub Settled : ℕ → Result Exn WorkflowRun × World Outside → Type 0
  Settled run_id (ok run, w) =
      (run.id ≡ run_id)
      × (run.status ≡ WorkflowRunStatus.completed)
      × All (λ r. r.id ≡ run_id → r ≡ run) w.workflow_runs
  Settled run_id (err e, w) =
      ((is_cancelled e ≡ false) × IsEnded run_id (IsFailed e) w)
      ⊎ ((e ≡ workflow (cancelled_during_execution run_id))
          × IsEnded run_id (λ r. r.status ≡ WorkflowRunStatus.cancelled) w)
      ⊎ ((is_step_failure e ≡ false) × Raised e)

  -- the same of a part of the execution that returns something else
  abbrev pub Part : {A : Type 0} → ℕ → Result Exn A × World Outside → Type 0
  Part run_id (ok a, w) = Unit
  Part run_id (err e, w) = Settled run_id (err e, w)

  pub Part-continue :
      {A B : Type 0} (id : ℕ) (r : Result Exn A × World Outside) (f : A → Act (World Outside) B)
      → Part id r
      → ((a : A) (w : World Outside) → Part id (f a w))
      → Part id (continue r.0 f r.1)
  Part-continue id (ok a, w) f h k = k a w
  Part-continue id (err e, w) f h k = h

  answers :
      {A : Type 0} (id : ℕ) (r : Result Exn A × World Outside) (a : A) → r.0 ≡ ok a → Part id r
  answers id (ok b, w) a h = tt
  answers id (err e, w) a h = absurd (ground arith)

  -- an exception that a step may meet: one that its `except` clause names, or another of those above
  abbrev Met : Exn → Type 0
  Met e = (is_step_failure e ≡ true) ⊎ Raised e

  passed : (e : Exn) → is_step_failure e ≡ false → Met e → (is_step_failure e ≡ false) × Raised e
  passed e h (inl k) = absurd (ground arith)
  passed e h (inr r) = (h, r)

  recorded-Met :
      (step_id : String) (ref : Option String) (outputs : List (String × String)) (e : Exn)
      → recorded step_id ref outputs ≡ err e
      → Met e
  recorded-Met step_id none outputs e h = inl (ground arith)
  recorded-Met step_id (some ref) outputs e h = elim (Option-cases (output_of ref outputs)) [
    | inl n ↦ inl (ground arith)
    | inr (o, n) ↦ absurd (ground arith)
  ]

  static_text-Met : (value : Option String) (e : Exn) → static_text value ≡ err e → Met e
  static_text-Met none e h = inr (inl (ground arith))
  static_text-Met (some value) e h = absurd (ground arith)

  source-Met :
      (spec : WorkflowStepSpec) (user_input : String) (previous : Option String)
      (outputs : List (String × String)) (e : Exn) (source : Source)
      → elim source [
        | workflow_input ↦ ok user_input
        | static ↦ static_text spec.input_mapping.value
        | previous_output ↦ recorded spec.step_id previous outputs
        | step_output ↦ recorded spec.step_id spec.input_mapping.step_id outputs
      ]
        ≡ err e
      → Met e
  source-Met spec user_input previous outputs e workflow_input h = absurd (ground arith)
  source-Met spec user_input previous outputs e static h =
      static_text-Met spec.input_mapping.value e h
  source-Met spec user_input previous outputs e previous_output h =
      recorded-Met spec.step_id previous outputs e h
  source-Met spec user_input previous outputs e step_output h =
      recorded-Met spec.step_id spec.input_mapping.step_id outputs e h

  input-Met :
      (spec : WorkflowStepSpec) (user_input : String) (previous : Option String)
      (outputs : List (String × String)) (e : Exn)
      → build_step_input spec user_input previous outputs ≡ err e
      → Met e
  unfolding build_step_input
  input-Met spec user_input previous outputs e h =
      source-Met spec user_input previous outputs e spec.input_mapping.source h

  fail_and_raise-Settled :
      (A : Type 0) (run : WorkflowRun) (started : ℕ) (e : Exn) (w : World Outside)
      → run.status ≡ WorkflowRunStatus.running
      → is_cancelled e ≡ false
      → Part {A = A} run.id (fail_and_raise host max_tool_iterations parse_uuid run started e w)
  unfolding fail_and_raise fail_workflow_run validate_workflow_run_transition
  fail_and_raise-Settled A run started e w h c = rw h (
      inl (
        c,
        (
          end_pending-ended WorkflowStepRunStatus.skipped _ run.id w.step_runs refl,
          All-saved (λ r. r.id) (IsFailed e) _ w.workflow_runs (refl, refl),
        ),
      ))

  fail_and_raise-run :
      (run : WorkflowRun) (started : ℕ) (e : Exn) (w : World Outside)
      → run.status ≡ WorkflowRunStatus.running
      → is_cancelled e ≡ false
      → Settled run.id (fail_and_raise host max_tool_iterations parse_uuid run started e w)
  unfolding fail_and_raise fail_workflow_run validate_workflow_run_transition
  fail_and_raise-run run started e w h c = rw h (
      inl (
        c,
        (
          end_pending-ended WorkflowStepRunStatus.skipped _ run.id w.step_runs refl,
          All-saved (λ r. r.id) (IsFailed e) _ w.workflow_runs (refl, refl),
        ),
      ))

  pub handle_plan-Settled :
      (run : WorkflowRun) (started : ℕ) (e : Exn) (w : World Outside)
      → run.status ≡ WorkflowRunStatus.running
      → is_plan_error e ≡ true
      → Settled run.id (handle_plan host max_tool_iterations parse_uuid run started e w)
  unfolding handle_plan
  handle_plan-Settled run started (workflow e) w h x =
      fail_and_raise-run run started (workflow e) w h (ground arith)
  handle_plan-Settled run started (runtime e) w h x =
      fail_and_raise-run run started (runtime e) w h refl
  handle_plan-Settled run started (llm e) w h x = absurd (ground arith)
  handle_plan-Settled run started (mcp e) w h x = absurd (ground arith)
  handle_plan-Settled run started (job e) w h x = absurd (ground arith)
  handle_plan-Settled run started (domain e) w h x = absurd (ground arith)
  handle_plan-Settled run started (other e) w h x = inr (inr (refl, inl (ground arith)))

  module _ (run : WorkflowRun) (started : ℕ)
      (is_running : run.status ≡ WorkflowRunStatus.running) where
    fail_step-Settled :
        (A : Type 0) (s : WorkflowStepRun) (step_started : ℕ) (id : Option ℕ) (e : Exn)
        (w : World Outside)
        → s.status ≡ WorkflowStepRunStatus.running
        → is_cancelled e ≡ false
        → Part {A = A} run.id
            (fail_step host max_tool_iterations parse_uuid run started s step_started id e w)
    unfolding fail_step validate_step_run_transition
    fail_step-Settled A s step_started id e w h c =
        rw h (fail_and_raise-Settled A run started e _ is_running c)

    handle_step-Settled :
        (A : Type 0) (s : WorkflowStepRun) (step_started : ℕ) (id : Option ℕ) (e : Exn)
        (w : World Outside)
        → s.status ≡ WorkflowStepRunStatus.running
        → Met e
        → Part {A = A} run.id
            (handle_step host max_tool_iterations parse_uuid run started s step_started id e w)
    unfolding handle_step
    handle_step-Settled A s t id (runtime e) w h met =
        fail_step-Settled A s t id (runtime e) w h refl
    handle_step-Settled A s t id (llm e) w h met = fail_step-Settled A s t id (llm e) w h refl
    handle_step-Settled A s t id (mcp e) w h met = inr (inr (passed (mcp e) refl met))
    handle_step-Settled A s t id (job e) w h met = inr (inr (passed (job e) refl met))
    handle_step-Settled A s t id (domain e) w h met = inr (inr (passed (domain e) refl met))
    handle_step-Settled A s t id (other e) w h met = inr (inr (passed (other e) refl met))
    handle_step-Settled A s t id (workflow (input_resolution x)) w h met =
        fail_step-Settled A s t id (workflow (input_resolution x)) w h refl
    handle_step-Settled A s t id (workflow (workflow_not_found x)) w h met =
        inr (inr (passed (workflow (workflow_not_found x)) refl met))
    handle_step-Settled A s t id (workflow (workflow_not_active x)) w h met =
        inr (inr (passed (workflow (workflow_not_active x)) refl met))
    handle_step-Settled A s t id (workflow (workflow_run_not_found x)) w h met =
        inr (inr (passed (workflow (workflow_run_not_found x)) refl met))
    handle_step-Settled A s t id (workflow (definition_invalid x p)) w h met =
        inr (inr (passed (workflow (definition_invalid x p)) refl met))
    handle_step-Settled A s t id (workflow (invalid_workflow_run_transition x y)) w h met =
        inr (inr (passed (workflow (invalid_workflow_run_transition x y)) refl met))
    handle_step-Settled A s t id (workflow (invalid_step_run_transition x y)) w h met =
        inr (inr (passed (workflow (invalid_step_run_transition x y)) refl met))
    handle_step-Settled A s t id (workflow (cancelled_during_execution x)) w h met =
        inr (inr (passed (workflow (cancelled_during_execution x)) refl met))

    finish_step-Settled :
        (s : WorkflowStepRun) (step_started : ℕ) (p : Progress)
        (outcome : Result Exn AgentRun × Option ℕ × World Outside)
        → s.status ≡ WorkflowStepRunStatus.running
        → ((e : Exn) → outcome.0 ≡ err e → Met e)
        → Part run.id
            (finish_step host max_tool_iterations parse_uuid run started s step_started p outcome)
    unfolding finish_step complete_step
    finish_step-Settled s t p (ok agent_run, id, w) h met = tt
    finish_step-Settled s t p (err e, id, w) h met =
        handle_step-Settled Progress s t id e w h (met e refl)

    try_step-Settled :
        (spec : WorkflowStepSpec) (owner : ℕ) (context : Option Fields) (s : WorkflowStepRun)
        (step_started : ℕ) (p : Progress) (step_input : Result Exn String) (w : World Outside)
        → s.status ≡ WorkflowStepRunStatus.running
        → ((e : Exn) → step_input ≡ err e → Met e)
        → Part run.id (
            try_step host max_tool_iterations parse_uuid run started spec owner context s
              step_started p step_input w)
    unfolding try_step
    try_step-Settled spec owner context s t p (err e) w h met =
        handle_step-Settled Progress s t none e w h (met e refl)
    try_step-Settled spec owner context s t p (ok step_input) w h met =
        let s' = record s { input_snapshot = some step_input } in
        finish_step-Settled s' t p
          (run_agent host max_tool_iterations parse_uuid spec owner context step_input s' w) h
          (λ e k. inr (inr (inr (spec, owner, context, step_input, s', w, k))))

    run_step-Settled :
        (spec : WorkflowStepSpec) (owner : ℕ) (user_input : String) (context : Option Fields)
        (s : WorkflowStepRun) (p : Progress) (w : World Outside)
        → Part run.id (
            run_step host max_tool_iterations parse_uuid run started spec owner user_input context s
              p w)
    unfolding run_step validate_step_run_transition
    run_step-Settled spec owner user_input context s p w =
        continue_cases (Part run.id)
          (as_exn workflow (validate_step_run_transition s.status WorkflowStepRunStatus.running)) _
          w
          (λ e h.
            let same = step_refused s.status e h in
            inr (
              inr (
                subst (λ x. is_step_failure x ≡ false) (sym same) refl,
                inr (inl (s.status, same)),
              )))
          (λ _ h.
            try_step-Settled spec owner context
              (record s {
                status = WorkflowStepRunStatus.running;
                started_at = some (host.time w.clock_reads);
              })
              (host.time (w.clock_reads + 1)) p
              (build_step_input spec user_input p.previous_step_id p.step_outputs)
              (read_clock host.time
                (save_step_run
                  (record s {
                    status = WorkflowStepRunStatus.running;
                    started_at = some (host.time w.clock_reads);
                  })
                  (read_clock host.time w).1).1).1
              refl (input-Met spec user_input p.previous_step_id p.step_outputs))

    stop_if-Settled :
        (stop : Bool) (w : World Outside)
        → Part run.id (stop_if host max_tool_iterations parse_uuid run started stop w)
    unfolding stop_if cancel_workflow_run validate_workflow_run_transition
    stop_if-Settled false w = tt
    stop_if-Settled true w = rw is_running (
        inr (
          inl (
            refl,
            (
              end_pending-ended WorkflowStepRunStatus.cancelled _ run.id w.step_runs refl,
              All-saved (λ r. r.id) (λ r. r.status ≡ WorkflowRunStatus.cancelled) _ w.workflow_runs
                  refl,
            ),
          )))

    module _ (check : Act (World Outside) Bool)
        (check_answers : (w : World Outside) → (b : Bool) × ((check w).0 ≡ ok b))
        (steps : List WorkflowStepSpec) (owner : ℕ) (user_input : String)
        (context : Option Fields) where
      pub run_steps-Settled :
          (ss : List WorkflowStepRun) (p : Progress) (w : World Outside)
          → Part run.id (
              run_steps host max_tool_iterations parse_uuid run started check steps owner user_input
                context ss p w)
      unfolding run_steps
      run_steps-Settled [] p w = tt
      run_steps-Settled (s ∷ ss) p w =
          let (b, answer) = check_answers w in
          Part-continue run.id (check w) _ (answers run.id (check w) b answer) λ stop w1.
            Part-continue run.id (stop_if host max_tool_iterations parse_uuid run started stop w1) _
              (stop_if-Settled stop w1)
              λ _ w2. elim (Option-cases (spec_of s.step_id steps)) [
                | inl e ↦ rw e (inr (inr (refl, inl refl)))
                | inr (spec, e) ↦ rw e (
                    Part-continue run.id
                      (run_step host max_tool_iterations parse_uuid run started spec owner
                        user_input context s p w2)
                      _ (run_step-Settled spec owner user_input context s p w2)
                      (λ p' w3. run_steps-Settled ss p' w3))
              ]
