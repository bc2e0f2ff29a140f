-- ===== src/Workflows/Definition/WellFormed.antt =====
-- What the parser of backend/app/workflows/definition.py promises of the steps it returns.
use pack_verse.Base.{
  ℕ, suc, length, ◌≡◌, ◌≢◌, refl, sym, ap, ◌∙◌, String, Bool, true, false, Option, none, some, List,
  [], ◌∷◌, ◌++◌, map, ok, Ensures, Ensures-raise_if, Ensures-result, Ensures-weaken, ◌≤◌,
  length-map, ◌==◌, string_eq, elem, arith, Bool-cases, inl, inr, Result-cases, Option-cases,
}
use pack_verse.Base.Int.{ℤ_eq}
use pack_verse.Json.{
  Value, null, boolean, int, real, str, arr, obj, nil, cons, Fields, get, as_str, as_name,
}
use pack_verse.Workflows.Definition.{
  workflow_input, previous_output, step_output, static, InputMapping, WorkflowStepSpec, Entry,
  as_spec, sort_by_order, Lookup, known, unknown, unhashable, parse_source, parse_input_mapping,
  resolve_mapping, resolve, read_steps, parse_steps, parse_workflow_steps,
}
use pack_verse.Workflows.Definition.Sorting.{
  key, entry_key, AreApart, sort_by_order-AreSorted, length-sort_by_order, AreAscending,
  AreSorted-AreAscending,
}
use mathlib.Core.Path.{subst}
use mathlib.Core.List.{append-nil, append_assoc}
use pack_verse.Workflows.Definition.Reading.{items, read_steps-AreApart, IsRead}

-- A mapping whose input exists once the earlier steps have run.
abbrev pub IsSatisfied : List WorkflowStepSpec → InputMapping → Type 0
IsSatisfied earlier m = elim m.source [
  | workflow_input ↦ Unit
  | previous_output ↦ earlier ≢ []
  | step_output ↦
      (r : String) × (m.step_id ≡ some r) × (elem r (map (λ x. x.step_id) earlier) ≡ true)
  | static ↦ (v : String) × (m.value ≡ some v)
]

-- Every step behind `earlier` has a mapping that the steps before it satisfy.
abbrev pub AreSatisfied : List WorkflowStepSpec → List WorkflowStepSpec → Type 0
AreSatisfied earlier [] = Unit
AreSatisfied earlier (s ∷ ss) =
    IsSatisfied earlier s.input_mapping × AreSatisfied (earlier ++ (s ∷ [])) ss

abbrev step_ids : List WorkflowStepSpec → List String
step_ids = map (λ x. x.step_id)

module _ (workflow_id : ℕ) (earlier : List WorkflowStepSpec) (step_id : String) where
  parse_source-IsSatisfied :
      (raw : Fields) (first : Bool) (l : Lookup)
      → (first ≡ false → earlier ≢ [])
      → Ensures
          (IsSatisfied earlier)
          (parse_source workflow_id step_id raw (step_ids earlier) first l)
  unfolding parse_source
  parse_source-IsSatisfied raw first unhashable p = tt
  parse_source-IsSatisfied raw first unknown p = tt
  parse_source-IsSatisfied raw first (known workflow_input) p = tt
  parse_source-IsSatisfied raw first (known previous_output) p =
      Ensures-raise_if (IsSatisfied earlier) first _ _ p
  parse_source-IsSatisfied raw first (known step_output) p =
      elim (Option-cases (as_name (get "step_id" raw))) [
        | inl e ↦ rw e tt
        | inr (ref, e) ↦ rw e (elim (Bool-cases (ref == step_id)) [
          | inl own ↦ rw own tt
          | inr own ↦ rw own (elim (Bool-cases (elem ref (step_ids earlier))) [
            | inl found ↦ rw found (ref, refl, found)
            | inr found ↦ rw found tt
          ])
        ])
      ]
  parse_source-IsSatisfied raw first (known static) p =
      elim (Option-cases (as_str (get "value" raw))) [
        | inl e ↦ rw e tt
        | inr (v, e) ↦ rw e (v, refl)
      ]

  parse_input_mapping-IsSatisfied :
      (raw : Value) (first : Bool)
      → (first ≡ false → earlier ≢ [])
      → Ensures
          (IsSatisfied earlier)
          (parse_input_mapping workflow_id step_id raw (step_ids earlier) first)
  unfolding parse_input_mapping
  parse_input_mapping-IsSatisfied (obj raw) first p = parse_source-IsSatisfied raw first _ p
  parse_input_mapping-IsSatisfied null first p = tt
  parse_input_mapping-IsSatisfied (boolean b) first p = tt
  parse_input_mapping-IsSatisfied (int n) first p = tt
  parse_input_mapping-IsSatisfied (real s) first p = tt
  parse_input_mapping-IsSatisfied (str s) first p = tt
  parse_input_mapping-IsSatisfied (arr xs) first p = tt

module _ (workflow_id : ℕ) where
  resolve_mapping-IsSatisfied :
      (earlier : List WorkflowStepSpec) (step_id : String) (raw : Option Value)
      → Ensures (IsSatisfied earlier) (resolve_mapping workflow_id earlier step_id raw)
  unfolding resolve_mapping
  resolve_mapping-IsSatisfied [] step_id none = tt
  resolve_mapping-IsSatisfied (r ∷ rs) step_id none = ground arith
  resolve_mapping-IsSatisfied [] step_id (some null) = tt
  resolve_mapping-IsSatisfied (r ∷ rs) step_id (some null) = ground arith
  resolve_mapping-IsSatisfied [] step_id (some raw) =
      parse_input_mapping-IsSatisfied workflow_id [] step_id raw true (λ e. absurd (ground arith))
  resolve_mapping-IsSatisfied (r ∷ rs) step_id (some raw) =
      parse_input_mapping-IsSatisfied workflow_id (r ∷ rs) step_id raw false
        (λ _ e. absurd (ground arith))

module _ (workflow_id : ℕ) where
  -- what the second pass returns behind `earlier`, for entries with these keys
  abbrev IsResolved : List WorkflowStepSpec → List Entry → List WorkflowStepSpec → Type 0
  IsResolved earlier es specs =
      (added : List WorkflowStepSpec) × (specs ≡ earlier ++ added)
      × AreSatisfied earlier added
      × (map key added ≡ map entry_key es)

  resolve-IsResolved :
      (earlier : List WorkflowStepSpec) (es : List Entry)
      → Ensures (IsResolved earlier es) (resolve workflow_id earlier es)
  unfolding resolve
  resolve-IsResolved earlier [] = ([], sym (append-nil earlier), tt, refl)
  resolve-IsResolved earlier (e ∷ es) =
      elim (Result-cases
        (resolve_mapping workflow_id earlier e.step_id (get "input_mapping" e.raw_step))) [
          | inr (x, h) ↦ rw h tt
          | inl (m, h) ↦
              let satisfied =
                Ensures-result (IsSatisfied earlier) _ m
                  (resolve_mapping-IsSatisfied workflow_id earlier e.step_id _) h in
              let spec = as_spec e m in
              rw h (
                Ensures-weaken (IsResolved (earlier ++ (spec ∷ [])) es)
                  (IsResolved earlier (e ∷ es)) _ (resolve-IsResolved (earlier ++ (spec ∷ [])) es)
                  (λ specs (added, split, rest, keys). (
                    spec ∷ added,
                    split ∙ append_assoc earlier (spec ∷ []) added,
                    (satisfied, rest),
                    ap (λ ks. key spec ∷ ks) keys,
                  )))
        ]

-- how many steps a value of "steps" lists
abbrev pub count : Option Value → ℕ
count (some (arr vs)) = items vs
count _ = 0

-- The steps are those that the definition lists, at least one. Their orders ascend strictly, no two
-- have one id, and each has a mapping that the steps before it satisfy.
abbrev pub IsWellFormed : Fields → List WorkflowStepSpec → Type 0
IsWellFormed definition_json specs =
    (1 ≤ length specs)
    × (length specs ≡ count (get "steps" definition_json))
    × AreAscending (map key specs)
    × AreSatisfied [] specs

module _ (workflow_id : ℕ) (parse_uuid : String → Option ℕ) where
  resolved_lem :
      (specs : List WorkflowStepSpec) (es : List Entry) (n : ℕ)
      → AreApart es
      → length es ≡ suc n
      → IsResolved workflow_id [] (sort_by_order es) specs
      → (1 ≤ length specs)
        × (length specs ≡ suc n)
        × AreAscending (map key specs)
        × AreSatisfied [] specs
  resolved_lem specs es n apart size (added, split, satisfied, keys) =
      let keys' : map key specs ≡ map entry_key (sort_by_order es) = ap (map key) split ∙ keys in
      let same : length specs ≡ suc n =
        sym (length-map key specs)
        ∙ ap length keys'
        ∙ length-map entry_key (sort_by_order es)
        ∙ length-sort_by_order es
        ∙ size in
      (
        omega (arith, same),
        same,
        subst AreAscending (sym keys')
            (AreSorted-AreAscending (sort_by_order es) (sort_by_order-AreSorted es apart)),
        subst (AreSatisfied []) (sym split) satisfied,
      )

  parse_steps-IsWellFormed :
      (raw : Option Value)
      → Ensures
          (λ specs.
            (1 ≤ length specs)
            × (length specs ≡ count raw)
            × AreAscending (map key specs)
            × AreSatisfied [] specs)
          (parse_steps workflow_id parse_uuid raw)
  unfolding parse_steps
  parse_steps-IsWellFormed none = tt
  parse_steps-IsWellFormed (some null) = tt
  parse_steps-IsWellFormed (some (boolean b)) = tt
  parse_steps-IsWellFormed (some (int n)) = tt
  parse_steps-IsWellFormed (some (real x)) = tt
  parse_steps-IsWellFormed (some (str x)) = tt
  parse_steps-IsWellFormed (some (obj fs)) = tt
  parse_steps-IsWellFormed (some (arr nil)) = tt
  parse_steps-IsWellFormed (some (arr (cons v vs))) =
      elim (Result-cases (read_steps workflow_id parse_uuid [] (cons v vs))) [
        | inr (x, h) ↦ rw h tt
        | inl (es, h) ↦
            let (apart, size) =
              Ensures-result (IsRead workflow_id parse_uuid [] (cons v vs)) _ es
                (read_steps-AreApart workflow_id parse_uuid [] (cons v vs) tt) h in
            rw h (
              Ensures-weaken (IsResolved workflow_id [] (sort_by_order es)) _ _
                (resolve-IsResolved workflow_id [] (sort_by_order es))
                (λ specs r. resolved_lem specs es (items vs) apart (omega (arith, size)) r))
      ]

  -- Whatever the parser returns is well formed.
  pub parse_workflow_steps-IsWellFormed :
      (definition_json : Fields) (specs : List WorkflowStepSpec)
      → parse_workflow_steps workflow_id parse_uuid definition_json ≡ ok specs
      → IsWellFormed definition_json specs
  unfolding parse_workflow_steps
  parse_workflow_steps-IsWellFormed definition_json specs h =
      Ensures-result (IsWellFormed definition_json) _ specs
        (parse_steps-IsWellFormed (get "steps" definition_json)) h
