-- ===== src/Tests/Chunks.antt =====
-- The chunking of a text of five characters.
use pack_verse.Base.{ℕ, String, List, [], ◌∷◌, ◌≡◌, ok, some, arith}
use pack_verse.Base.Int.{pos}
use pack_verse.Rag.Chunking.{Chunk, chunk_text}
use pack_verse.Rag.Chunking.Rejoin.{AreChunks, chunk_text-AreChunks}

abbrev digest : List ℕ → String
digest text = "hash"

abbrev sample_text : List ℕ
sample_text = 10 ∷ 11 ∷ 12 ∷ 13 ∷ 14 ∷ []

chunk_text-AreChunks_example :
    (cs : List (Chunk digest)) × (chunk_text digest sample_text (pos 3) (pos 1) ≡ ok (some cs))
    × AreChunks digest 3 1 sample_text cs
chunk_text-AreChunks_example = chunk_text-AreChunks digest 3 1 sample_text (omega arith)
