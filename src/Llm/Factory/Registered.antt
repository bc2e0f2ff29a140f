-- ===== src/Llm/Factory/Registered.antt =====
-- Which providers the gateway finds in the registry.
use pack_verse.Base.{
  ◌≡◌, refl, String, Bool, true, false, Bool-cases, inl, inr, Option, none, some, List, [], ◌∷◌,
  Result, ok, err, ◌==◌, string_eq, elem, arith, ◌||◌,
}
use mathlib.Core.Path.{sym}
use pack_verse.Base.Dict.{lookup}
use pack_verse.Errors.{LlmError}
use pack_verse.Llm.Factory.{
  Adapter, ProviderSettings, build_provider, set, register_built, register, get_provider_registry,
}

-- What a registry holds of a name: what is built of it, if it is among the names.
abbrev pub built : Bool → Result LlmError Adapter → Option Adapter
built false r = none
built true (err e) = none
built true (ok adapter) = some adapter

-- the one of the two that is there, the later first
abbrev or_found : Option Adapter → Option Adapter → Option Adapter
or_found none old = old
or_found (some a) old = some a

lookup-set_same :
    (name : String) (a : Adapter) (items : List (String × Adapter))
    → lookup name (set name a items) ≡ some a
lookup-set_same name a [] = ground (arith, string_eq.same_iff name name)
lookup-set_same name a ((k, v) ∷ items) = elim (Bool-cases (k == name)) [
  | inl h ↦ rw h (rw h refl)
  | inr h ↦ rw h (rw h (lookup-set_same name a items))
]

lookup-set_other :
    (name other : String) (a : Adapter) (items : List (String × Adapter))
    → (name == other) ≡ false
    → lookup other (set name a items) ≡ lookup other items
lookup-set_other name other a [] h = rw h refl
lookup-set_other name other a ((k, v) ∷ items) h = elim (Bool-cases (k == name)) [
  | inl s ↦ ground (arith, string_eq.same_iff k name)
  | inr s ↦ elim (Bool-cases (k == other)) [
    | inl o ↦ rw (s, o) refl
    | inr o ↦ rw (s, o) (lookup-set_other name other a items h)
  ]
]

lookup-register_built :
    (name other : String) (r : Result LlmError Adapter) (items : List (String × Adapter))
    → (name == other) ≡ false
    → lookup other (register_built name r items) ≡ lookup other items
lookup-register_built name other (err e) items h = refl
lookup-register_built name other (ok a) items h = lookup-set_other name other a items h

lookup-register_same :
    (name : String) (r : Result LlmError Adapter) (items : List (String × Adapter)) (seen : Bool)
    → lookup name items ≡ built seen r
    → lookup name (register_built name r items) ≡ built true r
lookup-register_same name (err e) items false h = h
lookup-register_same name (err e) items true h = h
lookup-register_same name (ok a) items seen h = lookup-set_same name a items

or_assoc : (a b c : Bool) → ((a || b) || c) ≡ (a || (b || c))
or_assoc false b c = refl
or_assoc true b c = refl

or_self : (a : Bool) → (a || false) ≡ a
or_self false = refl
or_self true = refl

or_true : (a : Bool) → (a || true) ≡ true
or_true false = refl
or_true true = refl

flip_false : (n name : String) → (n == name) ≡ false → (name == n) ≡ false
flip_false n name h = ground (arith, string_eq.same_iff n name, string_eq.same_iff name n)

module _ (settings : ProviderSettings) (name : String) where
  same_name :
      (n : String) (items : List (String × Adapter)) (seen : Bool)
      → lookup name items ≡ built seen (build_provider name settings)
      → n ≡ name
      → lookup name (register_built n (build_provider n settings) items)
        ≡ built (seen || (name == n)) (build_provider name settings)
  same_name n items seen h e =
      rw (e, (string_eq.same_iff name name).1 refl, or_true seen)
        (lookup-register_same name (build_provider name settings) items seen h)

  register_one :
      (n : String) (items : List (String × Adapter)) (seen : Bool)
      → lookup name items ≡ built seen (build_provider name settings)
      → lookup name (register_built n (build_provider n settings) items)
        ≡ built (seen || (name == n)) (build_provider name settings)
  register_one n items seen h = elim (Bool-cases (n == name)) [
    | inl e ↦ same_name n items seen h ((string_eq.same_iff n name).0 e)
    | inr e ↦
        rw (lookup-register_built n name (build_provider n settings) items e)
          (rw (flip_false n name e, or_self seen) h)
  ]

  lookup-register :
      (names : List String) (items : List (String × Adapter)) (seen : Bool)
      → lookup name items ≡ built seen (build_provider name settings)
      → lookup name (register settings names items)
        ≡ built (seen || elem name names) (build_provider name settings)
  lookup-register [] items seen h = rw (or_self seen) h
  lookup-register (n ∷ names) items seen h =
      let rest =
        lookup-register names (register_built n (build_provider n settings) items)
          (seen || (name == n)) (register_one n items seen h) in
      rw (sym (or_assoc seen (name == n) (elem name names))) rest

  -- The registry holds a provider of a name exactly if the name is allowed and its provider can be
  -- built, and then the one that is built.
  pub lookup-get_provider_registry :
      lookup name (get_provider_registry settings)
      ≡ built (elem name settings.llm_allowed_providers_list) (build_provider name settings)
  unfolding get_provider_registry
  lookup-get_provider_registry = lookup-register settings.llm_allowed_providers_list [] false refl
