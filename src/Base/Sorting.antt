-- ===== src/Base/Sorting.antt =====
-- A stable sort by a number, the smallest first.
use Prim.Native.Nat.{ℕ, zero, suc, ◌≤◌}
use mathlib.Core.Path.{refl}
use mathlib.Core.Logic.{inl, inr}
use mathlib.Core.List.{List, [], ◌∷◌, Memᴰ}
use native.Mathlib.Omega.{arith}
use pack_verse.Base.Tests.{leb, leb→le, if◌then◌else◌, Bool-cases}
use pack_verse.Base.Lists.{All, take}

module _ {A : Type 0} (key : A → ℕ) where
  abbrev pub insert_by : A → List A → List A
  insert_by a [] = a ∷ []
  insert_by a (x ∷ xs) = if leb (key a) (key x) then a ∷ x ∷ xs else x ∷ insert_by a xs

  abbrev pub sort_by : List A → List A
  sort_by [] = []
  sort_by (a ∷ xs) = insert_by a (sort_by xs)

  abbrev pub AreAscending : List A → Type 0
  AreAscending [] = Unit
  AreAscending (a ∷ xs) = All (λ x. key a ≤ key x) xs × AreAscending xs

  All-insert_by : (P : A → Type 0) (a : A) (xs : List A) → P a → All P xs → All P (insert_by a xs)
  All-insert_by P a [] p h = (p, tt)
  All-insert_by P a (x ∷ xs) p h = elim (Bool-cases (leb (key a) (key x))) [
    | inl e ↦ rw e (p, h)
    | inr e ↦ rw e (h.0, All-insert_by P a xs p h.1)
  ]

  pub All-sort_by : (P : A → Type 0) (xs : List A) → All P xs → All P (sort_by xs)
  All-sort_by P [] h = tt
  All-sort_by P (a ∷ xs) h = All-insert_by P a (sort_by xs) h.0 (All-sort_by P xs h.1)

  All-le_trans :
      (n : ℕ) (x : A) (xs : List A)
      → n ≤ key x
      → All (λ y. key x ≤ key y) xs
      → All (λ y. n ≤ key y) xs
  All-le_trans n x [] h k = tt
  All-le_trans n x (y ∷ ys) h k = (omega (arith, k.0), All-le_trans n x ys h k.1)

  insert_by-AreAscending : (a : A) (xs : List A) → AreAscending xs → AreAscending (insert_by a xs)
  insert_by-AreAscending a [] h = (tt, tt)
  insert_by-AreAscending a (x ∷ xs) h = elim (Bool-cases (leb (key a) (key x))) [
    | inl e ↦
        let first = leb→le (key a) (key x) e in
        rw e ((first, All-le_trans (key a) x xs first h.0), h)
    | inr e ↦ rw e (
      All-insert_by (λ y. key x ≤ key y) a xs (ground arith) h.0,
      insert_by-AreAscending a xs h.1,
    )
  ]

  pub sort_by-AreAscending : (xs : List A) → AreAscending (sort_by xs)
  sort_by-AreAscending [] = tt
  sort_by-AreAscending (a ∷ xs) = insert_by-AreAscending a (sort_by xs) (sort_by-AreAscending xs)

  mem-insert_by : (a : A) (xs : List A) → Memᴰ a (insert_by a xs)
  mem-insert_by a [] = Memᴰ.head refl
  mem-insert_by a (x ∷ xs) = elim (Bool-cases (leb (key a) (key x))) [
    | inl e ↦ rw e (Memᴰ.head refl)
    | inr e ↦ rw e (Memᴰ.tail (mem-insert_by a xs))
  ]

  mem-insert_by_tail : (a y : A) (xs : List A) → Memᴰ y xs → Memᴰ y (insert_by a xs)
  mem-insert_by_tail a y [] m = elim m [ ]
  mem-insert_by_tail a y (x ∷ xs) (Memᴰ.head q) = elim (Bool-cases (leb (key a) (key x))) [
    | inl e ↦ rw e (Memᴰ.tail (Memᴰ.head q))
    | inr e ↦ rw e (Memᴰ.head q)
  ]
  mem-insert_by_tail a y (x ∷ xs) (Memᴰ.tail n) = elim (Bool-cases (leb (key a) (key x))) [
    | inl e ↦ rw e (Memᴰ.tail (Memᴰ.tail n))
    | inr e ↦ rw e (Memᴰ.tail (mem-insert_by_tail a y xs n))
  ]

  -- Nothing is lost by sorting.
  pub mem-sort_by : (y : A) (xs : List A) → Memᴰ y xs → Memᴰ y (sort_by xs)
  mem-sort_by y [] m = elim m [ ]
  mem-sort_by y (x ∷ xs) (Memᴰ.head q) = rw q (mem-insert_by x (sort_by xs))
  mem-sort_by y (x ∷ xs) (Memᴰ.tail m) = mem-insert_by_tail x y (sort_by xs) (mem-sort_by y xs m)

  pub All-take : (P : A → Type 0) (n : ℕ) (xs : List A) → All P xs → All P (take n xs)
  All-take P zero xs h = tt
  All-take P (suc n) [] h = tt
  All-take P (suc n) (x ∷ xs) h = (h.0, All-take P n xs h.1)

  pub take-AreAscending : (n : ℕ) (xs : List A) → AreAscending xs → AreAscending (take n xs)
  take-AreAscending zero xs h = tt
  take-AreAscending (suc n) [] h = tt
  take-AreAscending (suc n) (x ∷ xs) h =
      (All-take (λ y. key x ≤ key y) n xs h.0, take-AreAscending n xs h.1)
