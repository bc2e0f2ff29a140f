-- ===== src/Services/Ingestion.antt =====
-- backend/app/services/ingestion_service.py. The text libraries, `str.isspace`, the digest and the rows
-- that other sessions commit during the calls are parameters. The chunks' fuel does not run out; that
-- it did would be an exception here.
pub mod Outcome
use pack_verse.Base.{
  ℕ, suc, ◌+◌, String, Bool, true, false, not, ◌&&◌, ◌||◌, Option, none, some, List, [], ◌∷◌, ◌++◌,
  Result, ok, err, if◌then◌else◌, ◌==◌, ℕ_eq, string_eq, elem, length, map,
}
use Prim.Native.Char.{Char}
use pack_verse.Base.Int.{ℤ}
use pack_verse.Json.{Fields, end}
use pack_verse.Errors.{
  Exn, domain, other, asset_not_ingestable, asset_already_ingested, extraction_failed,
  empty_extracted_text, embedding_mismatch,
}
use pack_verse.Effects.{Act, pure, raise, lift, gets, raise_when, as_exn, ◌>>=◌, ◌>>◌}
use pack_verse.Rag.Chunking.{Chunk, SizeProblem, chunk_text}
use pack_verse.Rag.Extraction.{TextLibraries, extract_text, supported_content_types}
use pack_verse.Llm.Models.{EmbeddingResponse}
use pack_verse.Llm.Gateway.{Libraries, Gateway, embed}
use pack_verse.Services.Row.{Asset, DocumentChunk}
use pack_verse.Services.Store.{Store, reach, fresh_id}
use pack_verse.Services.Storage.{Storage}
use pack_verse.Services.Filename.{chars, text_of}
use pack_verse.Services.AssetService.{get_asset, through_storage}

pub record Documents : Type 1 where
  pub texts : TextLibraries
  pub is_space : Char → Bool
  pub sha256 : List Char → String

pub record IngestionResult : Type 0 where
  pub asset_id : ℕ
  pub chunk_count : ℕ
  pub provider : String
  pub model : String
  pub total_input_tokens : ℕ

-- `asset.content_type or asset.mime_type`
abbrev pub declared_type : Option String → String → String
declared_type none mime_type = mime_type
declared_type (some content_type) mime_type = if content_type == "" then mime_type else content_type

abbrev pub content_type_of : Asset → String
content_type_of asset = declared_type asset.content_type asset.mime_type

-- `not text.strip()`
abbrev pub is_blank : (Char → Bool) → List Char → Bool
is_blank is_space [] = true
is_blank is_space (c ∷ cs) = is_space c && is_blank is_space cs

abbrev pub chunks_of : {A : Type 0} → Result SizeProblem (Option (List A)) → Result Exn (List A)
chunks_of (err problem) = err (other "ValueError")
chunks_of (ok none) = err (other "fuel")
chunks_of (ok (some chunks)) = ok chunks

module _ {Vector : Type 0} where
  abbrev pub any_of : ℕ → List (DocumentChunk Vector) → Bool
  any_of asset_id [] = false
  any_of asset_id (row ∷ rows) = row.asset_id == asset_id || any_of asset_id rows

  -- `uq_document_chunks_asset_id_chunk_index`
  abbrev pub taken : DocumentChunk Vector → List (DocumentChunk Vector) → Bool
  taken new [] = false
  taken new (row ∷ rows) =
      (row.asset_id == new.asset_id && row.chunk_index == new.chunk_index) || taken new rows

  abbrev pub any_taken : List (DocumentChunk Vector) → List (DocumentChunk Vector) → Bool
  any_taken [] rows = false
  any_taken (n ∷ new) rows = taken n rows || any_taken new rows

module _ {O Vector : Type 0} (documents : Documents) (storage : Storage O) (libraries : Libraries O)
    (gateway : Gateway O Vector) (new_id : ℕ → ℕ) where
  open documents use {texts, is_space, sha256}

  unfoldable pub check_ingestable : ℕ → Act (Store O Vector) Asset
  unfolding get_asset
  check_ingestable asset_id = do
    asset ← get_asset storage asset_id
    raise_when (not (elem (content_type_of asset) supported_content_types))
        (domain (asset_not_ingestable asset_id))
    already_ingested ← gets (λ s. any_of asset_id s.document_chunks)
    raise_when already_ingested (domain (asset_already_ingested asset_id))
    pure asset

  -- `zip(chunks, response.embeddings)` as rows; the ids are made from the given one on
  abbrev pub chunk_rows :
      ℕ
      → ℕ
      → EmbeddingResponse Vector
      → List (Chunk sha256)
      → List Vector
      → List (DocumentChunk Vector)
  chunk_rows asset_id made response [] vectors = []
  chunk_rows asset_id made response (c ∷ cs) [] = []
  chunk_rows asset_id made response (c ∷ cs) (v ∷ vs) =
      record {
        id = new_id made;
        asset_id = asset_id;
        chunk_index = c.index;
        content = text_of c.content;
        content_hash = c.content_hash;
        char_start = c.char_start;
        char_end = c.char_end;
        embedding = some v;
        embedding_model = some response.model;
        embedding_provider = some response.provider;
      }
      ∷ chunk_rows asset_id (suc made) response cs vs

  abbrev pub ingestion_result :
      ℕ → EmbeddingResponse Vector → List (DocumentChunk Vector) → IngestionResult
  ingestion_result asset_id response rows = record {
    asset_id = asset_id;
    chunk_count = length rows;
    provider = response.provider;
    model = response.model;
    total_input_tokens = response.usage.input_tokens;
  }

  -- `db.add_all(chunk_rows)` and the commit
  unfoldable pub commit_rows :
      (List (DocumentChunk Vector) → List (DocumentChunk Vector))
      → ℕ
      → EmbeddingResponse Vector
      → List (Chunk sha256)
      → Act (Store O Vector) IngestionResult
  commit_rows others asset_id response chunks s =
      let rows = chunk_rows asset_id s.ids_made response chunks response.embeddings in
      let there = others s.document_chunks in
      if any_taken rows there
      then (err (domain (asset_already_ingested asset_id)), record s { document_chunks = there })
      else (
        ok (ingestion_result asset_id response rows),
        record s { document_chunks = there ++ rows; ids_made = s.ids_made + length rows },
      )

  -- the chunks of a text, their embeddings and their rows
  unfoldable pub embed_chunks :
      (List (DocumentChunk Vector) → List (DocumentChunk Vector))
      → ℕ
      → String
      → Option String
      → List (Chunk sha256)
      → Act (Store O Vector) IngestionResult
  unfolding embed commit_rows
  embed_chunks others asset_id model provider chunks = do
    request_id ← fresh_id new_id
    response ← reach (
        embed libraries gateway (record {
          request_id = request_id;
          model = model;
          input = map (λ c. text_of c.content) chunks;
          provider = provider;
          timeout_seconds = none;
          metadata = end;
        }))
    raise_when (not (length response.embeddings == length chunks))
        (domain (embedding_mismatch asset_id (length chunks) (length response.embeddings)))
    commit_rows others asset_id response chunks

  module _ (others : List (DocumentChunk Vector) → List (DocumentChunk Vector)) (asset_id : ℕ)
      (model : String) (provider : Option String) (chunk_size chunk_overlap : ℤ) where
    abbrev pub ingest_text : String → Act (Store O Vector) IngestionResult
    ingest_text text = do
      raise_when (is_blank is_space (chars text)) (domain (empty_extracted_text asset_id))
      chunks ← lift (chunks_of (chunk_text sha256 (chars text) chunk_size chunk_overlap))
      embed_chunks others asset_id model provider chunks

    abbrev pub ingest_content : Asset → List ℕ → Act (Store O Vector) IngestionResult
    ingest_content asset content = do
      text ← lift (
          as_exn (λ e. domain (extraction_failed asset_id))
            (extract_text texts content (content_type_of asset)))
      ingest_text text

    unfoldable pub ingest_asset : Act (Store O Vector) IngestionResult
    unfolding check_ingestable extract_text chunk_text embed_chunks
    ingest_asset = do
      asset ← check_ingestable asset_id
      content ← through_storage storage "read" (storage.open_object asset.storage_key)
      ingest_content asset content
