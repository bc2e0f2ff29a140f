-- ===== src/Services/Retrieval.antt =====
-- backend/app/services/retrieval_service.py and rag/retrieval.py. Distances are whole numbers of which
-- `unit` make 1.0; `distance` is pgvector's cosine distance. A row with no embedding has no distance: it
-- comes last, and `float(None)` raises. Rows of equal distance come in the table's order.
pub mod Outcome
use pack_verse.Base.{
  ℕ, zero, suc, ◌+◌, ◌-◌, String, Bool, true, false, not, ◌&&◌, Option, none, some, List, [], ◌∷◌,
  Result, ok, err, if◌then◌else◌, ◌==◌, ℕ_eq, string_eq, elem, keep, take, map, min, max, is_none,
  ◌++◌, leb,
}
use Prim.Native.Char.{Char}
use pack_verse.Base.Table
use pack_verse.Base.Int.{ℤ, pos, negsuc, pos_part}
use pack_verse.Base.Sorting.{sort_by}
use pack_verse.Json.{Fields, end}
use pack_verse.Enums.{AssetStatus, asset_status_eq}
use pack_verse.Errors.{Exn, domain, other, empty_query}
use pack_verse.Effects.{Act, pure, raise, lift, gets, or_raise, raise_when, ◌>>=◌, ◌>>◌}
use pack_verse.Llm.Models.{EmbeddingResponse}
use pack_verse.Llm.Gateway.{Libraries, Gateway, embed}
use pack_verse.Services.Row.{Asset, DocumentChunk}
use pack_verse.Services.Store.{Store, reach, fresh_id}
use pack_verse.Services.Filename.{chars}
use pack_verse.Services.Ingestion.{is_blank}

abbrev pub max_top_k : ℕ
max_top_k = 50

-- `min(max(top_k, 1), MAX_TOP_K)`
abbrev pub clamped : ℤ → ℕ
clamped top_k = min (max (pos_part top_k) 1) max_top_k

pub record ScoredChunk : Type 0 where
  pub chunk_id : ℕ
  pub asset_id : ℕ
  pub chunk_index : ℕ
  pub content : String
  pub char_start : ℕ
  pub char_end : ℕ
  pub distance : ℕ
  pub score : ℤ

-- `1.0 - distance`
abbrev pub cosine_distance_to_score : ℕ → ℕ → ℤ
cosine_distance_to_score unit distance =
    if leb distance unit then pos (unit - distance) else negsuc (distance - unit - 1)

abbrev pub head_of : {A : Type 0} → List A → Option A
head_of [] = none
head_of (a ∷ rest) = some a

-- a row with its distance, None if it has no embedding
abbrev pub Hit : Type 0 → Type 0
Hit Vector = DocumentChunk Vector × Option ℕ

abbrev pub prepend : ScoredChunk → Result Exn (List ScoredChunk) → Result Exn (List ScoredChunk)
prepend s (ok rest) = ok (s ∷ rest)
prepend s (err e) = err e

-- the asset of a row may be searched
abbrev pub is_searchable : Option Asset → Bool
is_searchable none = false
is_searchable (some asset) = asset.status == AssetStatus.available && is_none asset.deleted_at

abbrev pub among : Option (List ℕ) → ℕ → Bool
among none asset_id = true
among (some ids) asset_id = elem asset_id ids

abbrev pub has_model : Option String → String → Bool
has_model none model = false
has_model (some m) model = m == model

module _ {Vector : Type 0} where
  abbrev pub measure :
      (Vector → Vector → ℕ)
      → Vector
      → DocumentChunk Vector
      → Option Vector
      → List (DocumentChunk Vector × ℕ)
      → List (DocumentChunk Vector × ℕ)
  measure distance query chunk none rest = rest
  measure distance query chunk (some v) rest = (chunk, distance query v) ∷ rest

  abbrev pub score : ℕ → DocumentChunk Vector → ℕ → ScoredChunk
  score unit chunk distance = record {
    chunk_id = chunk.id;
    asset_id = chunk.asset_id;
    chunk_index = chunk.chunk_index;
    content = chunk.content;
    char_start = chunk.char_start;
    char_end = chunk.char_end;
    distance = distance;
    score = cosine_distance_to_score unit distance;
  }

  -- the results of the rows
  abbrev pub scored : ℕ → List (Hit Vector) → Result Exn (List ScoredChunk)
  scored unit [] = ok []
  scored unit ((chunk, none) ∷ hits) = err (other "TypeError")
  scored unit ((chunk, some distance) ∷ hits) =
      prepend (score unit chunk distance) (scored unit hits)

  -- the rows with an embedding, and their distance from the query
  abbrev pub measured :
      (Vector → Vector → ℕ) → Vector → List (DocumentChunk Vector) → List (DocumentChunk Vector × ℕ)
  measured distance query [] = []
  measured distance query (chunk ∷ chunks) =
      measure distance query chunk chunk.embedding (measured distance query chunks)

  abbrev pub distance_of : DocumentChunk Vector × ℕ → ℕ
  distance_of hit = hit.1

  -- `ORDER BY distance`, NULLs last
  abbrev pub hits_of :
      (Vector → Vector → ℕ) → Vector → List (DocumentChunk Vector) → List (Hit Vector)
  hits_of distance query chunks =
      map (λ hit. (hit.0, some hit.1)) (sort_by distance_of (measured distance query chunks))
      ++ map (λ chunk. (chunk, none)) (keep (λ chunk. is_none chunk.embedding) chunks)

  -- the join and the WHERE clause
  abbrev pub is_candidate : List Asset → String → Option (List ℕ) → DocumentChunk Vector → Bool
  is_candidate assets model asset_ids chunk =
      has_model chunk.embedding_model model
      && is_searchable (Table.find (λ a. a.id) chunk.asset_id assets)
      && among asset_ids chunk.asset_id

module _ {O Vector : Type 0} (libraries : Libraries O) (gateway : Gateway O Vector)
    (is_space : Char → Bool) (unit : ℕ) (distance : Vector → Vector → ℕ) (new_id : ℕ → ℕ) where
  -- the query over the tables
  unfoldable pub nearest :
      String → ℕ → Option (List ℕ) → Option Vector → Act (Store O Vector) (List ScoredChunk)
  nearest model top_k asset_ids none s = (err (other "IndexError"), s)
  nearest model top_k asset_ids (some query_vector) s =
      let rows = keep (is_candidate s.assets model asset_ids) s.document_chunks in
      (scored unit (take top_k (hits_of distance query_vector rows)), s)

  unfoldable pub search :
      String
      → String
      → Option String
      → ℤ
      → Option (List ℕ)
      → Act (Store O Vector) (List ScoredChunk)
  unfolding embed nearest
  search query embedding_model embedding_provider top_k asset_ids = do
    raise_when (is_blank is_space (chars query)) (domain empty_query)
    request_id ← fresh_id new_id
    response ← reach (
        embed libraries gateway (record {
          request_id = request_id;
          model = embedding_model;
          input = query ∷ [];
          provider = embedding_provider;
          timeout_seconds = none;
          metadata = end;
        }))
    nearest response.model (clamped top_k) asset_ids (head_of response.embeddings)
