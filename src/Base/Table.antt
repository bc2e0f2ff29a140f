-- ===== src/Base/Table.antt =====
-- A database table as the list of its rows: read a row by its key, write a row back.
use pack_verse.Base.Tests.{if◌then◌else◌, is_some, nat_eq, Bool-cases}
use pack_verse.Base.Lists.{length, All, keep}
use Prim.Native.Nat.{ℕ}
use mathlib.Core.Path.{◌≡◌, refl, ap, ◌∙◌, subst}
use mathlib.Core.Logic.{◌≢◌, inl, inr}
use mathlib.Core.Bool.{Bool, true}
use mathlib.Core.Option.{Option, none, some}
use mathlib.Core.List.{List, [], ◌∷◌, ◌++◌, Memᴰ}
use native.Mathlib.Omega.{arith}

module _ {A : Type 0} (key : A → ℕ) where
  -- `db.get(Model, k)`
  abbrev pub find : ℕ → List A → Option A
  find k [] = none
  find k (x ∷ xs) = if nat_eq (key x) k then some x else find k xs

  -- the UPDATE that a commit sends for a changed row
  abbrev pub save : A → List A → List A
  save y [] = []
  save y (x ∷ xs) = (if nat_eq (key x) (key y) then y else x) ∷ save y xs

  pub find-save_self :
      (y : A) (xs : List A) → is_some (find (key y) xs) ≡ true → find (key y) (save y xs) ≡ some y
  find-save_self y [] h = ground arith
  find-save_self y (x ∷ xs) h = ground (arith, find-save_self y xs)

  pub find-save_ne : (k : ℕ) (y : A) (xs : List A) → k ≢ key y → find k (save y xs) ≡ find k xs
  find-save_ne k y [] h = refl
  find-save_ne k y (x ∷ xs) h = ground (arith, find-save_ne k y xs h)

  -- a row whose key no other row has, behind the others
  pub find-insert :
      (y : A) (xs : List A) → find (key y) xs ≡ none → find (key y) (xs ++ (y ∷ [])) ≡ some y
  find-insert y [] h = ground arith
  find-insert y (x ∷ xs) h = ground (arith, find-insert y xs)

  pub find-insert_ne :
      (k : ℕ) (y : A) (xs : List A) → k ≢ key y → find k (xs ++ (y ∷ [])) ≡ find k xs
  find-insert_ne k y [] h = ground arith
  find-insert_ne k y (x ∷ xs) h = ground (arith, find-insert_ne k y xs h)

  pub length-save : (y : A) (xs : List A) → length (save y xs) ≡ length xs
  length-save y [] = refl
  length-save y (x ∷ xs) = ground (arith, length-save y xs)

  pub key-find : (k : ℕ) (xs : List A) (x : A) → find k xs ≡ some x → key x ≡ k
  key-find k [] y h = ground arith
  key-find k (x ∷ xs) y h = ground (arith, key-find k xs y)

  -- a row that was read, written back changed: it is read again, and no other row is touched
  pub find-replace :
      (k : ℕ) (x y : A) (xs : List A)
      → find k xs ≡ some x
      → key y ≡ key x
      → (find k (save y xs) ≡ some y) × ((j : ℕ) → j ≢ k → find j (save y xs) ≡ find j xs)
  find-replace k x y xs e same =
      let q : key y ≡ k = same ∙ key-find k xs x e in
      (
        subst (λ j. is_some (find j xs) ≡ true → find j (save y xs) ≡ some y) q
            (find-save_self y xs) (ap is_some e),
        λ j differs. find-save_ne j y xs (λ h. differs (h ∙ q)),
      )

  pub All-save {κ} : (P : A → Type κ) (y : A) (xs : List A) → P y → All P xs → All P (save y xs)
  All-save P y [] hy h = tt
  All-save P y (x ∷ xs) hy h = elim (Bool-cases (nat_eq (key x) (key y))) [
    | inl e ↦ rw e (hy, All-save P y xs hy h.1)
    | inr e ↦ rw e (h.0, All-save P y xs hy h.1)
  ]

  pub All-find {κ} :
      (P : A → Type κ) (k : ℕ) (xs : List A) {x : A} → All P xs → find k xs ≡ some x → P x
  All-find P k [] h e = absurd (ground arith)
  All-find P k (x ∷ xs) h e = elim (Bool-cases (nat_eq (key x) k)) [
    | inl t ↦ ground arith
    | inr t ↦ All-find P k xs h.1 (ground arith)
  ]

  -- After a write, every row with the written key is the written row.
  pub save-only : (x y : A) (xs : List A) → Memᴰ x (save y xs) → key x ≡ key y → x ≡ y
  save-only x y [] m e = elim m [ ]
  save-only x y (z ∷ xs) (Memᴰ.head q) e = ground (arith, ap key q)
  save-only x y (z ∷ xs) (Memᴰ.tail m) e = save-only x y xs m e

  -- Every row with the key of the saved one is it.
  pub All-saved {κ} :
      (P : A → Type κ) (y : A) (xs : List A) → P y → All (λ x. key x ≡ key y → P x) (save y xs)
  All-saved P y [] h = tt
  All-saved P y (x ∷ xs) h = elim (Bool-cases (nat_eq (key x) (key y))) [
    | inl e ↦ rw e ((λ _. h), All-saved P y xs h)
    | inr e ↦ rw e ((λ same. absurd (ground arith)), All-saved P y xs h)
  ]

  -- Reading a row by the key of one that is there finds a row.
  pub find_of_mem : (x : A) (xs : List A) → Memᴰ x xs → is_some (find (key x) xs) ≡ true
  find_of_mem x [] m = elim m [ ]
  find_of_mem x (y ∷ xs) (Memᴰ.head e) = ground (arith, ap key e)
  find_of_mem x (y ∷ xs) (Memᴰ.tail m) = ground (arith, find_of_mem x xs m)

module _ {A : Type 0} where
  pub All-mem {κ} : (P : A → Type κ) (x : A) (xs : List A) → All P xs → Memᴰ x xs → P x
  All-mem P x [] h m = elim m [ ]
  All-mem P x (y ∷ xs) h (Memᴰ.head e) = rw e h.0
  All-mem P x (y ∷ xs) h (Memᴰ.tail m) = All-mem P x xs h.1 m

  pub All-of_mem {κ} : (P : A → Type κ) (xs : List A) → ((x : A) → Memᴰ x xs → P x) → All P xs
  All-of_mem P [] h = tt
  All-of_mem P (x ∷ xs) h = (h x (Memᴰ.head refl), All-of_mem P xs (λ y m. h y (Memᴰ.tail m)))

  kept :
      (p : A → Bool) (x y : A) (xs : List A)
      → p y ≡ true
      → Memᴰ x (y ∷ keep p xs)
      → (Memᴰ x xs × (p x ≡ true) → Memᴰ x (y ∷ xs) × (p x ≡ true))
      → (Memᴰ x (keep p xs) → Memᴰ x xs × (p x ≡ true))
      → Memᴰ x (y ∷ xs) × (p x ≡ true)
  kept p x y xs e (Memᴰ.head q) up ih = (Memᴰ.head q, rw q e)
  kept p x y xs e (Memᴰ.tail n) up ih = up (ih n)

  -- What a filter keeps is in the list and passes the test.
  pub mem-keep :
      (p : A → Bool) (x : A) (xs : List A) → Memᴰ x (keep p xs) → Memᴰ x xs × (p x ≡ true)
  mem-keep p x [] m = elim m [ ]
  mem-keep p x (y ∷ xs) m = elim (Bool-cases (p y)) [
    | inl e ↦ kept p x y xs e (rw e at m) (λ r. (Memᴰ.tail r.0, r.1)) (mem-keep p x xs)
    | inr e ↦ let r = mem-keep p x xs (rw e at m) in (Memᴰ.tail r.0, r.1)
  ]

  -- What is in the list and passes the test is kept.
  pub keep_of_mem :
      (p : A → Bool) (x : A) (xs : List A) → Memᴰ x xs → p x ≡ true → Memᴰ x (keep p xs)
  keep_of_mem p x [] m h = elim m [ ]
  keep_of_mem p x (y ∷ xs) (Memᴰ.head e) h = rw (rw e at h) (Memᴰ.head e)
  keep_of_mem p x (y ∷ xs) (Memᴰ.tail m) h = elim (Bool-cases (p y)) [
    | inl e ↦ rw e (Memᴰ.tail (keep_of_mem p x xs m h))
    | inr e ↦ rw e (keep_of_mem p x xs m h)
  ]
