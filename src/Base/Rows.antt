-- ===== src/Base/Rows.antt =====
-- Tables whose keys are unique, and loops that write back selected rows one by one.
use pack_verse.Base.Tests.{if◌then◌else◌, nat_eq, Bool-cases}
use pack_verse.Base.Lists.{All, keep}
use pack_verse.Base.Table.{save}
use Prim.Native.Nat.{ℕ}
use mathlib.Core.Path.{◌≡◌, refl, ap, ◌∙◌}
use mathlib.Core.Logic.{◌≢◌, inl, inr}
use mathlib.Core.Bool.{Bool}
use mathlib.Core.List.{List, [], ◌∷◌, map}
use native.Mathlib.Omega.{arith}

module _ {A : Type 0} (key : A → ℕ) where
  -- a primary key
  abbrev pub Unique : List A → Type 0
  Unique [] = Unit
  Unique (x ∷ xs) = All (λ y. key y ≢ key x) xs × Unique xs

  -- `for x in selected: f(x)`, with the changed rows written to the table
  abbrev pub save_each : (A → A) → List A → List A → List A
  save_each f [] table = table
  save_each f (x ∷ selected) table = save_each f selected (save key (f x) table)

  save_absent : (y : A) (xs : List A) → All (λ x. key x ≢ key y) xs → save key y xs ≡ xs
  save_absent y [] h = refl
  save_absent y (x ∷ xs) h = ground (arith, save_absent y xs h.1, h.0)

  save_head :
      (y x : A) (xs : List A)
      → key y ≡ key x
      → All (λ z. key z ≢ key x) xs
      → save key y (x ∷ xs) ≡ y ∷ xs
  save_head y x xs e h = ground (arith, save_absent y xs (rw e h))

  All-keep {κ} : (P : A → Type κ) (p : A → Bool) (xs : List A) → All P xs → All P (keep p xs)
  All-keep P p [] h = tt
  All-keep P p (x ∷ xs) h = elim (Bool-cases (p x)) [
    | inl e ↦ rw e (h.0, All-keep P p xs h.1)
    | inr e ↦ rw e (All-keep P p xs h.1)
  ]

  module _ (f : A → A) (same_key : (x : A) → key (f x) ≡ key x) where
    save_each-cons :
        (ys : List A) (x : A) (table : List A)
        → All (λ y. key y ≢ key x) ys
        → save_each f ys (x ∷ table) ≡ x ∷ save_each f ys table
    save_each-cons [] x table h = refl
    save_each-cons (y ∷ ys) x table h = elim (Bool-cases (nat_eq (key x) (key (f y)))) [
      | inl e ↦ absurd (h.0 (ground (arith, same_key y)))
      | inr e ↦ rw e (save_each-cons ys x (save key (f y) table) h.1)
    ]

    pub save_each_lem :
        (p : A → Bool) (xs : List A)
        → Unique xs
        → save_each f (keep p xs) xs ≡ map (λ x. if p x then f x else x) xs
    save_each_lem p [] u = refl
    save_each_lem p (x ∷ xs) u = elim (Bool-cases (p x)) [
      | inl e ↦ rw e (
          ap (λ t. save_each f (keep p xs) t) (save_head (f x) x xs (same_key x) u.0)
          ∙ save_each-cons (keep p xs) (f x) xs
              (rw same_key (All-keep (λ y. key y ≢ key x) p xs u.0))
          ∙ ap (λ r. f x ∷ r) (save_each_lem p xs u.1))
      | inr e ↦ rw e (
          save_each-cons (keep p xs) x xs (All-keep (λ y. key y ≢ key x) p xs u.0)
          ∙ ap (λ r. x ∷ r) (save_each_lem p xs u.1))
    ]
