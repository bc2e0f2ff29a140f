-- ===== src/Rag/Chunking.antt =====
-- backend/app/rag/chunking.py. A text is the list of its characters, of any type; `sha256` is the
-- hex digest of a text's UTF-8 bytes. Sizes are Python's integers, offsets are numbers. The loop runs
-- on fuel; the length of the text is enough, since `start` grows in each round.
-- The text can be encoded: it has no lone surrogate, which `encode` would refuse.
pub mod Windows
pub mod Rejoin
use pack_verse.Base.{
  ℕ, zero, suc, ◌+◌, ◌-◌, String, Option, none, some, List, [], ◌∷◌, Result, ok, err, ◌>>=◌, ◌>>◌,
  raise_if, if◌then◌else◌, ◌==◌, ℕ_eq, ltb, min, take, drop, length,
}
use pack_verse.Base.Int.{ℤ, pos, leb_ℤ, ltb_ℤ, pos_part}

-- The texts of the `ValueError`s.
pub data SizeProblem : Type 0 where
  size_not_positive overlap_negative overlap_not_smaller : SizeProblem

module _ {A : Type 0} (sha256 : List A → String) where
  pub record Chunk : Type 0 where
    pub index : ℕ
    pub content : List A
    pub char_start : ℕ
    pub char_end : ℕ
    pub content_hash : String

  -- `text[start:end]`
  abbrev pub slice : ℕ → ℕ → List A → List A
  slice start end text = take (end - start) (drop start text)

  abbrev pub chunk_at : List A → ℕ → ℕ → ℕ → Chunk
  chunk_at text index start end = record {
    index = index;
    content = slice start end text;
    char_start = start;
    char_end = end;
    content_hash = sha256 (slice start end text);
  }

  abbrev pub prepend : Chunk → Option (List Chunk) → Option (List Chunk)
  prepend c none = none
  prepend c (some cs) = some (c ∷ cs)

  -- the `while` loop; None when the fuel is used up
  unfoldable pub windows : List A → ℕ → ℕ → ℕ → ℕ → ℕ → Option (List Chunk)
  windows text size step zero start index = if ltb start (length text) then none else some []
  windows text size step (suc fuel) start index =
      let end = min (start + size) (length text) in
      let rest = windows text size step fuel (start + step) (index + 1) in
      if ltb start (length text)
      then (if end == length text
          then some (chunk_at text index start end ∷ [])
          else prepend (chunk_at text index start end) rest)
      else some []

  -- the part of `chunk_text` behind the guards
  unfoldable pub chunk_checked : List A → ℕ → ℕ → Option (List Chunk)
  unfolding windows
  chunk_checked [] size overlap = some []
  chunk_checked (c ∷ cs) size overlap = windows (c ∷ cs) size (size - overlap) (length (c ∷ cs)) 0 0

  unfoldable pub chunk_text : List A → ℤ → ℤ → Result SizeProblem (Option (List Chunk))
  unfolding chunk_checked
  chunk_text text chunk_size chunk_overlap = do
    raise_if (leb_ℤ chunk_size (pos 0)) size_not_positive
    raise_if (ltb_ℤ chunk_overlap (pos 0)) overlap_negative
    raise_if (leb_ℤ chunk_size chunk_overlap) overlap_not_smaller
    ok (chunk_checked text (pos_part chunk_size) (pos_part chunk_overlap))
