-- ===== src/Workflows/Definition/Reading.antt =====
-- The first pass of the parser: what it has checked of the steps it read.
use pack_verse.Base.{
  ℕ, suc, length, ◌≡◌, ◌≢◌, String, Bool, false, ◌||◌, Option, List, [], ◌∷◌, ◌++◌, map, Ensures,
  Ensures-result, Ensures-weaken, length-append, ◌+◌, ◌==◌, string_eq, elem, eq_iff, All,
  All-append, arith, Bool-cases, inl, inr, Result-cases, Option-cases,
}
use pack_verse.Base.Int.{ℤ, ℤ_eq, beq_ℤ_iff}
use pack_verse.Json.{
  Value, null, boolean, int, real, str, arr, obj, Items, nil, cons, get, as_str, as_name, as_order,
}
use pack_verse.Workflows.Definition.{Entry, read_step, read_steps}
use pack_verse.Workflows.Definition.Sorting.{Differs, AreApart}

abbrev pub items : Items → ℕ
items nil = 0
items (cons v vs) = suc (items vs)

or_false : (a b : Bool) → a || b ≡ false → (a ≡ false) × (b ≡ false)
or_false a b h = ground arith

All-differ :
    (seen : List Entry) (order : ℤ) (step_id : String)
    → elem order (map (λ x. x.order) seen) ≡ false
    → elem step_id (map (λ x. x.step_id) seen) ≡ false
    → All (λ x. (x.order ≢ order) × (x.step_id ≢ step_id)) seen
All-differ [] order step_id o i = tt
All-differ (x ∷ xs) order step_id o i =
    let (o', os) = or_false (order == x.order) _ o in
    let (i', is) = or_false (step_id == x.step_id) _ i in
    (
      (
        (λ e. ground (arith, o', e, beq_ℤ_iff order x.order)),
        (λ e. ground (arith, i', e, eq_iff step_id x.step_id)),
      ),
      All-differ xs order step_id os is,
    )

module _ (workflow_id : ℕ) (parse_uuid : String → Option ℕ) where
  read_step-Differs :
      (seen : List Entry) (v : Value)
      → Ensures (λ e. All (λ x. Differs x e) seen) (read_step workflow_id parse_uuid seen v)
  unfolding read_step
  read_step-Differs seen (obj raw) = elim (Option-cases (as_name (get "step_id" raw))) [
    | inl h ↦ rw h tt
    | inr (step_id, h) ↦ rw h (elim (Bool-cases (elem step_id (map (λ x. x.step_id) seen))) [
      | inl old ↦ rw old tt
      | inr new_id ↦ rw new_id (elim (Option-cases (as_order (get "order" raw))) [
        | inl k ↦ rw k tt
        | inr (order, k) ↦ rw k (elim (Bool-cases (elem order (map (λ x. x.order) seen))) [
          | inl old ↦ rw old tt
          | inr new_order ↦ rw new_order (elim (Option-cases (as_name (get "name" raw))) [
            | inl l ↦ rw l tt
            | inr (name, l) ↦ rw l (elim (Option-cases (as_str (get "agent_definition_id" raw))) [
              | inl m ↦ rw m tt
              | inr (id_text, m) ↦ rw m (elim (Option-cases (parse_uuid id_text)) [
                | inl n ↦ rw n tt
                | inr (agent_id, n) ↦ rw n (All-differ seen order step_id new_order new_id)
              ])
            ])
          ])
        ])
      ])
    ])
  ]
  read_step-Differs seen null = tt
  read_step-Differs seen (boolean b) = tt
  read_step-Differs seen (int n) = tt
  read_step-Differs seen (real s) = tt
  read_step-Differs seen (str s) = tt
  read_step-Differs seen (arr xs) = tt

  AreApart-append :
      (seen : List Entry) (e : Entry)
      → AreApart seen
      → All (λ x. Differs x e) seen
      → AreApart (seen ++ (e ∷ []))
  AreApart-append [] e h d = (tt, tt)
  AreApart-append (x ∷ xs) e h d =
      (All-append (Differs x) xs (e ∷ []) h.0 (d.0, tt), AreApart-append xs e h.1 d.1)

  abbrev pub IsRead : List Entry → Items → List Entry → Type 0
  IsRead seen vs es = AreApart es × (length es ≡ length seen + items vs)

  pub read_steps-AreApart :
      (seen : List Entry) (vs : Items)
      → AreApart seen
      → Ensures (IsRead seen vs) (read_steps workflow_id parse_uuid seen vs)
  unfolding read_steps
  read_steps-AreApart seen nil h = (h, omega arith)
  read_steps-AreApart seen (cons v vs) h =
      elim (Result-cases (read_step workflow_id parse_uuid seen v)) [
        | inr (x, r) ↦ rw r tt
        | inl (e, r) ↦
            let new =
              Ensures-result (λ e. All (λ x. Differs x e) seen) _ e (read_step-Differs seen v) r in
            rw r (
              Ensures-weaken (IsRead (seen ++ (e ∷ [])) vs) (IsRead seen (cons v vs)) _
                (read_steps-AreApart (seen ++ (e ∷ [])) vs (AreApart-append seen e h new))
                (λ es (apart, count). (apart, omega (arith, count, length-append seen (e ∷ [])))))
      ]
