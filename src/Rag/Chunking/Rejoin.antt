-- ===== src/Rag/Chunking/Rejoin.antt =====
-- Reading a text off its chunks, without the overlap that each repeats, for rag/chunking.py.
use pack_verse.Base.{
  ℕ, ◌+◌, ◌-◌, ◌<◌, ◌≡◌, refl, sym, ap, ◌∙◌, String, false, some, List, [], ◌∷◌, ◌++◌, ok, take,
  drop, length, length-drop, take_all, take-append-drop, drop-drop, arith,
}
use mathlib.Core.Path.{subst}
use mathlib.Core.List.{append-nil}
use pack_verse.Base.Int.{pos, leb_ℤ, ltb_ℤ}
use pack_verse.Rag.Chunking.{Chunk, slice, chunk_checked, chunk_text}
use pack_verse.Rag.Chunking.Windows.{AreWindows, drop-take-append, windows-AreWindows}

module _ {A : Type 0} (sha256 : List A → String) where
  -- what the chunks add to the text before them
  abbrev pub tails : ℕ → List (Chunk sha256) → List A
  tails overlap [] = []
  tails overlap (c ∷ cs) = drop overlap c.content ++ tails overlap cs

  abbrev pub rejoin : ℕ → List (Chunk sha256) → List A
  rejoin overlap [] = []
  rejoin overlap (c ∷ cs) = c.content ++ tails overlap cs

  module _ (text : List A) (overlap step : ℕ) where
    last_slice : (start : ℕ) → slice sha256 start (length text) text ≡ drop start text
    last_slice start = take_all _ _ (omega (arith, length-drop start text))

    slice_lem :
        (start : ℕ)
        → slice sha256 start (start + (overlap + step)) text
          ≡ take (overlap + step) (drop start text)
    slice_lem start = ap (λ n. take n (drop start text)) (omega arith)

    ahead :
        (start : ℕ) → drop (start + step + overlap) text ≡ drop (overlap + step) (drop start text)
    ahead start = ap (λ n. drop n text) (omega arith) ∙ sym (drop-drop (overlap + step) start text)

    tails-AreWindows :
        (start index : ℕ) (cs : List (Chunk sha256))
        → AreWindows sha256 text (overlap + step) step start index cs
        → tails overlap cs ≡ drop (start + overlap) text
    tails-AreWindows start index [] w = absurd w
    tails-AreWindows start index (c ∷ []) w =
        append-nil _
        ∙ ap (λ x. drop overlap x.content) w.0
        ∙ ap (drop overlap) (last_slice start)
        ∙ drop-drop overlap start text
    tails-AreWindows start index (c ∷ d ∷ cs) w =
        ap (λ x. drop overlap x.content ++ tails overlap (d ∷ cs)) w.0
        ∙ ap (λ x. drop overlap x ++ tails overlap (d ∷ cs)) (slice_lem start)
        ∙ ap (λ y. drop overlap (take (overlap + step) (drop start text)) ++ y)
            (tails-AreWindows (start + step) (index + 1) (d ∷ cs) w.2 ∙ ahead start)
        ∙ drop-take-append overlap step (drop start text)
        ∙ drop-drop overlap start text

    pub rejoin-AreWindows :
        (index : ℕ) (cs : List (Chunk sha256))
        → AreWindows sha256 text (overlap + step) step 0 index cs
        → rejoin overlap cs ≡ text
    rejoin-AreWindows index [] w = absurd w
    rejoin-AreWindows index (c ∷ []) w = append-nil _ ∙ ap (λ x. x.content) w.0 ∙ last_slice 0
    rejoin-AreWindows index (c ∷ d ∷ cs) w =
        ap (λ x. x.content ++ tails overlap (d ∷ cs)) w.0
        ∙ ap (λ x. x ++ tails overlap (d ∷ cs)) (slice_lem 0)
        ∙ ap (λ y. take (overlap + step) text ++ y)
            (tails-AreWindows (0 + step) (index + 1) (d ∷ cs) w.2 ∙ ahead 0)
        ∙ take-append-drop (overlap + step) text

module _ {A : Type 0} (sha256 : List A → String) (size overlap : ℕ) where
  -- the chunks of a text, by the windows, and what they join to
  abbrev pub AreChunks : List A → List (Chunk sha256) → Type 0
  AreChunks text cs =
      (rejoin sha256 overlap cs ≡ text)
      × (0 < length text → AreWindows sha256 text size (size - overlap) 0 0 cs)

  chunk_checked-AreChunks :
      (text : List A)
      → overlap < size
      → (cs : List (Chunk sha256)) × (chunk_checked sha256 text size overlap ≡ some cs)
        × AreChunks text cs
  unfolding chunk_checked
  chunk_checked-AreChunks [] h = ([], refl, (refl, λ k. absurd (omega (arith, k))))
  chunk_checked-AreChunks (x ∷ xs) h =
      let text = x ∷ xs in
      let step = size - overlap in
      let same : overlap + step ≡ size = omega arith in
      let (cs, r, w) =
        windows-AreWindows sha256 text size step (length text) 0 0 (omega arith) (omega arith)
          (omega arith) (omega arith) in
      (
        cs,
        r,
        (
          rejoin-AreWindows sha256 text overlap step 0 cs
              (subst (λ n. AreWindows sha256 text n step 0 0 cs) (sym same) w),
          λ _. w,
        ),
      )

  -- Chunking with a size above the overlap returns: the chunks are the windows that start each
  -- `size - overlap` behind the one before, and dropping from each chunk but the first the `overlap`
  -- characters it repeats gives the text back.
  pub chunk_text-AreChunks :
      (text : List A)
      → overlap < size
      → (cs : List (Chunk sha256)) × (chunk_text sha256 text (pos size) (pos overlap)
          ≡ ok (some cs))
        × AreChunks text cs
  unfolding chunk_text
  chunk_text-AreChunks text h =
      let (cs, r, w) = chunk_checked-AreChunks text h in
      let positive : leb_ℤ (pos size) (pos 0) ≡ false = ground arith in
      let larger : leb_ℤ (pos size) (pos overlap) ≡ false = ground arith in
      let natural : ltb_ℤ (pos overlap) (pos 0) ≡ false = ground arith in
      (cs, rw positive (rw natural (rw larger (ap ok r))), w)
