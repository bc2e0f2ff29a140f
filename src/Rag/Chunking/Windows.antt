-- ===== src/Rag/Chunking/Windows.antt =====
-- The windows of rag/chunking.py, described without its loop.
use pack_verse.Base.{
  ℕ, zero, suc, ◌+◌, ◌<◌, ◌≤◌, ◌≡◌, refl, String, true, some, List, [], ◌∷◌, ◌++◌, ◌==◌, ℕ_eq, ltb,
  nat_eq_iff, min, take, drop, length, take-append-drop, Bool-cases, inl, inr, arith,
}
use mathlib.Core.Path.{subst}
use native.Mathlib.Nat.{suc-add}
use pack_verse.Rag.Chunking.{Chunk, chunk_at, windows}

module _ {A : Type 0} where
  pub drop-take-append :
      (o k : ℕ) (xs : List A) → drop o (take (o + k) xs) ++ drop (o + k) xs ≡ drop o xs
  drop-take-append zero k xs =
      subst (λ n. take n xs ++ drop n xs ≡ xs) (omega arith) (take-append-drop k xs)
  drop-take-append (suc o) k [] = rw suc-add refl
  drop-take-append (suc o) k (x ∷ xs) = rw suc-add (drop-take-append o k xs)

module _ {A : Type 0} (sha256 : List A → String) (text : List A) (size step : ℕ) where
  -- The chunks are the windows from `start` on: each of `size` characters but the last, which ends
  -- where the text ends, each `step` behind the one before, numbered in sequence.
  abbrev pub AreWindows : ℕ → ℕ → List (Chunk sha256) → Type 0
  AreWindows start index [] = ⊥
  AreWindows start index (c ∷ []) =
      (c ≡ chunk_at sha256 text index start (length text))
      × (start < length text)
      × (length text ≤ start + size)
  AreWindows start index (c ∷ d ∷ cs) =
      (c ≡ chunk_at sha256 text index start (start + size))
      × (start + size < length text)
      × AreWindows (start + step) (index + 1) (d ∷ cs)

  prepend-AreWindows :
      (start index : ℕ) (cs : List (Chunk sha256))
      → start + size < length text
      → AreWindows (start + step) (index + 1) cs
      → AreWindows start index (chunk_at sha256 text index start (start + size) ∷ cs)
  prepend-AreWindows start index [] h w = absurd w
  prepend-AreWindows start index (d ∷ cs) h w = (refl, h, w)

  pub windows-AreWindows :
      (fuel start index : ℕ)
      → start < length text
      → 1 ≤ step
      → step ≤ size
      → length text ≤ start + fuel
      → (cs : List (Chunk sha256)) × (windows sha256 text size step fuel start index ≡ some cs)
        × AreWindows start index cs
  unfolding windows
  windows-AreWindows zero start index h k s f = absurd (omega arith)
  windows-AreWindows (suc fuel) start index h k s f =
      let inside : ltb start (length text) ≡ true = ground arith in
      elim (Bool-cases (min (start + size) (length text) == length text)) [
        | inl e ↦
            let last : min (start + size) (length text) ≡ length text = (nat_eq_iff _ _).0 e in
            (
              chunk_at sha256 text index start (length text) ∷ [],
              rw inside (rw e (rw last refl)),
              (refl, h, omega (arith, last)),
            )
        | inr e ↦
            let more : start + size < length text = ground arith in
            let whole : min (start + size) (length text) ≡ start + size = omega arith in
            let (cs, r, w) =
              windows-AreWindows fuel (start + step) (index + 1) (omega arith) k s (omega arith) in
            (
              chunk_at sha256 text index start (start + size) ∷ cs,
              rw inside (rw e (rw r (rw whole refl))),
              prepend-AreWindows start index cs more w,
            )
      ]
