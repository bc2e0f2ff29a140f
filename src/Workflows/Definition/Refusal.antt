-- ===== src/Workflows/Definition/Refusal.antt =====
-- Which exceptions the parser of backend/app/workflows/definition.py raises.
use pack_verse.Base.{
  ℕ, ◌≡◌, inl, inr, refl, String, Bool, true, false, Option, none, some, List, [], ◌∷◌, ◌++◌,
  Result, ok, err, ◌==◌, string_eq, ℕ_eq, arith, Result-cases,
}
use mathlib.Core.Path.{subst}
use pack_verse.Json.{Value, null, boolean, int, real, str, arr, obj, Items, nil, cons, Fields, get}
use pack_verse.Errors.{Exn, workflow, other, definition_invalid}
use pack_verse.Workflows.Definition.{
  workflow_input, previous_output, step_output, static, WorkflowStepSpec, Entry, as_spec,
  sort_by_order, Lookup, known, unknown, unhashable, parse_source, parse_input_mapping,
  resolve_mapping, resolve, read_step, read_steps, parse_steps, parse_workflow_steps,
}

-- `WorkflowDefinitionInvalidError` of this workflow, or `TypeError`
abbrev pub is_refusal : ℕ → Exn → Bool
is_refusal id (workflow (definition_invalid x p)) = x == id
is_refusal id (other name) = name == "TypeError"
is_refusal id _ = false

-- a refusal, if anything is raised
abbrev refuses : {A : Type 0} → ℕ → Result Exn A → Bool
refuses id (ok a) = true
refuses id (err e) = is_refusal id e

module _ (workflow_id : ℕ) where
  refused :
      {A : Type 0} {r : Result Exn A} {e : Exn}
      → refuses workflow_id r ≡ true
      → r ≡ err e
      → is_refusal workflow_id e ≡ true
  refused p h = subst (λ r. refuses workflow_id r ≡ true) h p

  parse_source-refuses :
      (step_id : String) (raw : Fields) (known_earlier : List String) (first : Bool) (l : Lookup)
      → refuses workflow_id (parse_source workflow_id step_id raw known_earlier first l) ≡ true
  unfolding parse_source
  parse_source-refuses step_id raw ids first unhashable = ground arith
  parse_source-refuses step_id raw ids first unknown = ground arith
  parse_source-refuses step_id raw ids first (known workflow_input) = ground arith
  parse_source-refuses step_id raw ids first (known previous_output) = ground arith
  parse_source-refuses step_id raw ids first (known step_output) = ground arith
  parse_source-refuses step_id raw ids first (known static) = ground arith

  parse_input_mapping-refuses :
      (step_id : String) (raw : Value) (known_earlier : List String) (first : Bool)
      → refuses workflow_id (parse_input_mapping workflow_id step_id raw known_earlier first) ≡ true
  unfolding parse_input_mapping
  parse_input_mapping-refuses step_id (obj raw) ids first =
      parse_source-refuses step_id raw ids first _
  parse_input_mapping-refuses step_id null ids first = ground arith
  parse_input_mapping-refuses step_id (boolean b) ids first = ground arith
  parse_input_mapping-refuses step_id (int n) ids first = ground arith
  parse_input_mapping-refuses step_id (real x) ids first = ground arith
  parse_input_mapping-refuses step_id (str x) ids first = ground arith
  parse_input_mapping-refuses step_id (arr x) ids first = ground arith

  resolve_mapping-refuses :
      (resolved : List WorkflowStepSpec) (step_id : String) (raw : Option Value)
      → refuses workflow_id (resolve_mapping workflow_id resolved step_id raw) ≡ true
  unfolding resolve_mapping
  resolve_mapping-refuses [] step_id none = refl
  resolve_mapping-refuses (r ∷ rs) step_id none = refl
  resolve_mapping-refuses [] step_id (some null) = refl
  resolve_mapping-refuses (r ∷ rs) step_id (some null) = refl
  resolve_mapping-refuses [] step_id (some raw) = parse_input_mapping-refuses step_id raw [] true
  resolve_mapping-refuses (r ∷ rs) step_id (some raw) =
      parse_input_mapping-refuses step_id raw _ false

  resolve-refuses :
      (resolved : List WorkflowStepSpec) (es : List Entry)
      → refuses workflow_id (resolve workflow_id resolved es) ≡ true
  unfolding resolve
  resolve-refuses resolved [] = refl
  resolve-refuses resolved (e ∷ es) =
      elim (Result-cases
        (resolve_mapping workflow_id resolved e.step_id (get "input_mapping" e.raw_step))) [
          | inl (m, h) ↦ rw h (resolve-refuses (resolved ++ (as_spec e m ∷ [])) es)
          | inr (x, h) ↦ rw h (refused (resolve_mapping-refuses resolved e.step_id _) h)
        ]

  module _ (parse_uuid : String → Option ℕ) where
    read_step-refuses :
        (seen : List Entry) (v : Value)
        → refuses workflow_id (read_step workflow_id parse_uuid seen v) ≡ true
    unfolding read_step
    read_step-refuses seen (obj raw) = ground arith
    read_step-refuses seen null = ground arith
    read_step-refuses seen (boolean b) = ground arith
    read_step-refuses seen (int n) = ground arith
    read_step-refuses seen (real x) = ground arith
    read_step-refuses seen (str x) = ground arith
    read_step-refuses seen (arr x) = ground arith

    read_steps-refuses :
        (seen : List Entry) (vs : Items)
        → refuses workflow_id (read_steps workflow_id parse_uuid seen vs) ≡ true
    unfolding read_steps
    read_steps-refuses seen nil = refl
    read_steps-refuses seen (cons v vs) =
        elim (Result-cases (read_step workflow_id parse_uuid seen v)) [
          | inl (e, h) ↦ rw h (read_steps-refuses (seen ++ (e ∷ [])) vs)
          | inr (x, h) ↦ rw h (refused (read_step-refuses seen v) h)
        ]

    parse_steps-refuses :
        (raw : Option Value) → refuses workflow_id (parse_steps workflow_id parse_uuid raw) ≡ true
    unfolding parse_steps
    parse_steps-refuses none = ground arith
    parse_steps-refuses (some null) = ground arith
    parse_steps-refuses (some (boolean b)) = ground arith
    parse_steps-refuses (some (int n)) = ground arith
    parse_steps-refuses (some (real x)) = ground arith
    parse_steps-refuses (some (str x)) = ground arith
    parse_steps-refuses (some (obj x)) = ground arith
    parse_steps-refuses (some (arr nil)) = ground arith
    parse_steps-refuses (some (arr (cons v vs))) =
        elim (Result-cases (read_steps workflow_id parse_uuid [] (cons v vs))) [
          | inl (es, h) ↦ rw h (resolve-refuses [] (sort_by_order es))
          | inr (x, h) ↦ rw h (refused (read_steps-refuses [] (cons v vs)) h)
        ]

    -- All that the parser raises is `WorkflowDefinitionInvalidError` of the workflow, or `TypeError`.
    pub parse_workflow_steps-refuses :
        (definition_json : Fields) (e : Exn)
        → parse_workflow_steps workflow_id parse_uuid definition_json ≡ err e
        → is_refusal workflow_id e ≡ true
    unfolding parse_workflow_steps
    parse_workflow_steps-refuses definition_json e h =
        refused (parse_steps-refuses (get "steps" definition_json)) h
