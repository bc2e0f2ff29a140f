-- ===== src/Services/Ingestion/Outcome.antt =====
-- What an ingestion leaves in `document_chunks`, by how it ends.
use pack_verse.Base.{
  ℕ, suc, ◌≡◌, refl, ap, sym, elem, string_eq, String, not, Option, none, some, List, [], ◌∷◌, ◌++◌,
  Result, ok, err, length, arith, inl, inr, ◌⊎◌, Bool-cases, map, ◌==◌, ℕ_eq,
}
use pack_verse.Base.Int.{ℤ}
use pack_verse.Json.{end}
use pack_verse.Errors.{
  Exn, domain, ExtractionError, StorageError, asset_not_ingestable, extraction_failed,
  asset_already_ingested, embedding_mismatch,
}
use pack_verse.Base.Table.{find}
use pack_verse.Rag.Extraction.{extract_text, supported_content_types}
use pack_verse.Services.AssetService.{storage_result, through_storage, get_asset}
use pack_verse.Services.AssetService.Outcome.{Got, get_asset-Got}
use mathlib.Core.Path.{subst}
use pack_verse.Effects.{continue, gets, pure, as_exn, raise_when, ◌>>=◌, ◌>>◌}
use pack_verse.Rag.Chunking.{Chunk, SizeProblem, chunk_text}
use pack_verse.Llm.Models.{EmbeddingResponse}
use pack_verse.Llm.Gateway.{Libraries, Gateway, embed}
use pack_verse.Services.Row.{Asset, DocumentChunk}
use pack_verse.Services.Store.{Store}
use pack_verse.Services.Storage.{Storage}
use pack_verse.Services.Filename.{chars, text_of}
use pack_verse.Services.Ingestion.{
  Documents, IngestionResult, content_type_of, is_blank, any_of, chunks_of, any_taken, chunk_rows,
  commit_rows, embed_chunks, check_ingestable, ingest_asset, ingest_text, ingest_content,
}

module _ {O Vector : Type 0} (documents : Documents) (storage : Storage O) (libraries : Libraries O)
    (gateway : Gateway O Vector) (new_id : ℕ → ℕ)
    (others : List (DocumentChunk Vector) → List (DocumentChunk Vector)) (asset_id : ℕ) where
  open documents use {texts, is_space, sha256}

  -- One row per chunk and vector, in order.
  abbrev pub RowsOf :
      EmbeddingResponse Vector
      → List (Chunk sha256)
      → List Vector
      → List (DocumentChunk Vector)
      → Type 0
  RowsOf response [] [] [] = Unit
  RowsOf response [] [] (r ∷ rs) = ⊥
  RowsOf response [] (v ∷ vs) rs = ⊥
  RowsOf response (c ∷ cs) [] rs = ⊥
  RowsOf response (c ∷ cs) (v ∷ vs) [] = ⊥
  RowsOf response (c ∷ cs) (v ∷ vs) (r ∷ rs) =
      (r.asset_id ≡ asset_id)
      × (r.chunk_index ≡ c.index)
      × (r.content ≡ text_of c.content)
      × (r.content_hash ≡ c.content_hash)
      × (r.char_start ≡ c.char_start)
      × (r.char_end ≡ c.char_end)
      × (r.embedding ≡ some v)
      × (r.embedding_model ≡ some response.model)
      × (r.embedding_provider ≡ some response.provider)
      × RowsOf response cs vs rs

  -- The answer of the gateway to the texts of the chunks, as they are sent.
  abbrev pub Embeds :
      String → Option String → List (Chunk sha256) → EmbeddingResponse Vector → Type 0
  Embeds model provider chunks response =
      (request_id : ℕ) × (before : O) × (after : O) × (embed libraries gateway
          (record {
            request_id = request_id;
            model = model;
            input = map (λ c. text_of c.content) chunks;
            provider = provider;
            timeout_seconds = none;
            metadata = end;
          })
          before
        ≡ (ok response, after))

  -- The table after the rows of some chunks, or as it was, or with the rows of others alone.
  abbrev pub Embedded :
      String
      → Option String
      → List (Chunk sha256)
      → Store O Vector
      → Result Exn IngestionResult × Store O Vector
      → Type 0
  Embedded model provider chunks s (ok result, t) =
      (response : EmbeddingResponse Vector) × Embeds model provider chunks response
      × (rows : List (DocumentChunk Vector)) × RowsOf response chunks response.embeddings rows
      × (t.document_chunks ≡ others s.document_chunks ++ rows)
      × (result.chunk_count ≡ length chunks)
  Embedded model provider chunks s (err e, t) =
      (t.document_chunks ≡ s.document_chunks)
      ⊎ ((t.document_chunks ≡ others s.document_chunks)
          × (e ≡ domain (asset_already_ingested asset_id)))

  rows-RowsOf :
      (made : ℕ) (response : EmbeddingResponse Vector) (chunks : List (Chunk sha256))
      (vectors : List Vector)
      → length vectors ≡ length chunks
      → let rows =
          chunk_rows documents storage libraries gateway new_id asset_id made response chunks
            vectors in
        RowsOf response chunks vectors rows × (length rows ≡ length chunks)
  rows-RowsOf made response [] [] h = (tt, refl)
  rows-RowsOf made response [] (v ∷ vs) h = absurd (ground arith)
  rows-RowsOf made response (c ∷ cs) [] h = absurd (ground arith)
  rows-RowsOf made response (c ∷ cs) (v ∷ vs) h =
      let (rest, same) = rows-RowsOf (suc made) response cs vs (ground arith) in
      ((refl, refl, refl, refl, refl, refl, refl, refl, refl, rest), ap suc same)

  commit_rows-Embedded :
      (model : String) (provider : Option String) (chunks : List (Chunk sha256))
      (response : EmbeddingResponse Vector) (s t : Store O Vector)
      → Embeds model provider chunks response
      → length response.embeddings ≡ length chunks
      → t.document_chunks ≡ s.document_chunks
      → Embedded model provider chunks s
          (commit_rows documents storage libraries gateway new_id others asset_id response chunks t)
  unfolding commit_rows
  commit_rows-Embedded model provider chunks response s t embeds h same =
      let rows =
        chunk_rows documents storage libraries gateway new_id asset_id t.ids_made response chunks
          response.embeddings in
      let (are, many) = rows-RowsOf t.ids_made response chunks response.embeddings h in
      elim (Bool-cases (any_taken rows (others t.document_chunks))) [
        | inl c ↦ rw c (inr (ap others same, refl))
        | inr c ↦ rw c (response, embeds, rows, are, ap (λ d. others d ++ rows) same, many)
      ]

  responded :
      (model : String) (provider : Option String) (chunks : List (Chunk sha256))
      (s t : Store O Vector) (r : Result Exn (EmbeddingResponse Vector))
      → ((response : EmbeddingResponse Vector)
          → r ≡ ok response
          → Embeds model provider chunks response)
      → t.document_chunks ≡ s.document_chunks
      → Embedded model provider chunks s (
          continue r
            (λ response.
              raise_when
                (not (length response.embeddings == length chunks))
                (domain (embedding_mismatch asset_id (length chunks) (length response.embeddings)))
              >> commit_rows documents storage libraries gateway new_id others asset_id response
                  chunks)
            t)
  responded model provider chunks s t (err e) embeds same = inl same
  responded model provider chunks s t (ok response) embeds same =
      elim (Bool-cases (length response.embeddings == length chunks)) [
        | inl c ↦ rw c (
            commit_rows-Embedded model provider chunks response s t (embeds response refl)
              (ground arith) same)
        | inr c ↦ rw c (inl same)
      ]

  embed_chunks-Embedded :
      (chunks : List (Chunk sha256)) (model : String) (provider : Option String)
      (s t : Store O Vector)
      → t.document_chunks ≡ s.document_chunks
      → Embedded model provider chunks s (
          embed_chunks documents storage libraries gateway new_id others asset_id model provider
            chunks t)
  unfolding embed_chunks
  embed_chunks-Embedded chunks model provider s t same =
      let reply =
        embed libraries gateway
          (record {
            request_id = new_id t.ids_made;
            model = model;
            input = map (λ c. text_of c.content) chunks;
            provider = provider;
            timeout_seconds = none;
            metadata = end;
          })
          t.outside in
      responded model provider chunks s _ reply.0
        (λ response e. (new_id t.ids_made, t.outside, reply.1, ap (λ r. (r, reply.1)) e)) same

  -- The text of the asset, as it is stored and extracted.
  abbrev pub TextOf : Store O Vector → String → Type 0
  TextOf s text =
      (asset : Asset) × (content : List ℕ) × (o : O) × (find (λ a. a.id) asset_id s.assets
        ≡ some asset)
      × (storage.open_object asset.storage_key s.outside ≡ (ok content, o))
      × (extract_text texts content (content_type_of asset) ≡ ok text)

  -- What an ingestion leaves: one row for each chunk of the asset's text, in order and each with its
  -- embedding, behind the rows of others; or, if it raises, no row of its own at all.
  abbrev pub Ingested :
      String
      → Option String
      → ℤ
      → ℤ
      → Store O Vector
      → Result Exn IngestionResult × Store O Vector
      → Type 0
  Ingested model provider size overlap s (ok result, t) =
      (text : String) × (chunks : List (Chunk sha256)) × TextOf s text
      × (chunk_text sha256 (chars text) size overlap ≡ ok (some chunks))
      × (response : EmbeddingResponse Vector) × Embeds model provider chunks response
      × (rows : List (DocumentChunk Vector)) × RowsOf response chunks response.embeddings rows
      × (t.document_chunks ≡ others s.document_chunks ++ rows)
      × (result.chunk_count ≡ length chunks)
  Ingested model provider size overlap s (err e, t) =
      (t.document_chunks ≡ s.document_chunks)
      ⊎ ((t.document_chunks ≡ others s.document_chunks)
          × (e ≡ domain (asset_already_ingested asset_id)))

  chunked :
      (model : String) (provider : Option String) (text : String) (chunks : List (Chunk sha256))
      (size overlap : ℤ) (s : Store O Vector) (r : Result Exn IngestionResult) (t : Store O Vector)
      → TextOf s text
      → chunk_text sha256 (chars text) size overlap ≡ ok (some chunks)
      → Embedded model provider chunks s (r, t)
      → Ingested model provider size overlap s (r, t)
  chunked model provider text chunks size overlap s (err e) t of_asset h left = left
  chunked model provider text chunks size overlap s (ok result) t of_asset h left =
      let (response, embeds, rows, are, written, many) = left in
      (text, chunks, of_asset, h, response, embeds, rows, are, written, many)

  -- the part of an ingestion behind the text
  split :
      (text : String) (model : String) (provider : Option String) (size overlap : ℤ)
      (s t : Store O Vector) (r : Result SizeProblem (Option (List (Chunk sha256))))
      → TextOf s text
      → chunk_text sha256 (chars text) size overlap ≡ r
      → t.document_chunks ≡ s.document_chunks
      → Ingested model provider size overlap s (
          continue
            (chunks_of r)
            (embed_chunks documents storage libraries gateway new_id others asset_id model provider)
            t)
  split text model provider size overlap s t (err problem) of_asset h same = inl same
  split text model provider size overlap s t (ok none) of_asset h same = inl same
  split text model provider size overlap s t (ok (some chunks)) of_asset h same =
      chunked model provider text chunks size overlap s _ _ of_asset h
        (embed_chunks-Embedded chunks model provider s t same)

  module _ (model : String) (provider : Option String) (size overlap : ℤ) (s : Store O Vector) where
    extracted :
        (asset : Asset) (content : List ℕ) (o : O) (t : Store O Vector)
        (r : Result ExtractionError String)
        → find (λ a. a.id) asset_id s.assets ≡ some asset
        → storage.open_object asset.storage_key s.outside ≡ (ok content, o)
        → extract_text texts content (content_type_of asset) ≡ r
        → t.document_chunks ≡ s.document_chunks
        → Ingested model provider size overlap s (
            continue
              (as_exn (λ e. domain (extraction_failed asset_id)) r)
              (ingest_text documents storage libraries gateway new_id others asset_id model provider
                size overlap)
              t)
    extracted asset content o t (err x) found opened e same = inl same
    extracted asset content o t (ok text) found opened e same =
        elim (Bool-cases (is_blank is_space (chars text))) [
          | inl b ↦ rw b (inl same)
          | inr b ↦ rw b (
              split text model provider size overlap s t
                (chunk_text sha256 (chars text) size overlap) (asset, content, o, found, opened, e)
                refl same)
        ]

    read :
        (asset : Asset) (o : O) (r : Result StorageError (List ℕ))
        → find (λ a. a.id) asset_id s.assets ≡ some asset
        → storage.open_object asset.storage_key s.outside ≡ (r, o)
        → Ingested model provider size overlap s (
            continue
              (storage_result "read" r)
              (ingest_content documents storage libraries gateway new_id others asset_id model
                provider size overlap asset)
              (record s { outside = o }))
    read asset o (err x) found opened = inl refl
    read asset o (ok content) found opened =
        extracted asset content o (record s { outside = o })
          (extract_text texts content (content_type_of asset)) found opened refl refl

  abbrev pub Checked : Store O Vector → Result Exn Asset × Store O Vector → Type 0
  Checked s (ok asset, t) = (find (λ a. a.id) asset_id s.assets ≡ some asset) × (t ≡ s)
  Checked s (err e, t) = t ≡ s

  ingestable-Checked :
      (s : Store O Vector) (r : Result Exn Asset) (t : Store O Vector)
      → Got storage asset_id s (r, t)
      → Checked s (
          continue r
            (λ asset.
              raise_when
                (not (elem (content_type_of asset) supported_content_types))
                (domain (asset_not_ingestable asset_id))
              >> (gets (λ w. any_of asset_id w.document_chunks) >>= λ already.
                  raise_when already (domain (asset_already_ingested asset_id)) >> pure asset))
            t)
  ingestable-Checked s (err e) t same = same
  ingestable-Checked s (ok asset) t (found, alive, same) =
      elim (Bool-cases (elem (content_type_of asset) supported_content_types)) [
        | inr c ↦ rw c same
        | inl c ↦ elim (Bool-cases (any_of asset_id t.document_chunks)) [
          | inl d ↦ rw (c, d) same
          | inr d ↦ rw (c, d) (found, same)
        ]
      ]

  check_ingestable-Checked :
      (s : Store O Vector)
      → Checked s (check_ingestable documents storage libraries gateway new_id asset_id s)
  unfolding check_ingestable
  check_ingestable-Checked s =
      ingestable-Checked s (get_asset storage asset_id s).0 (get_asset storage asset_id s).1
        (get_asset-Got storage asset_id s)

  -- An ingestion that returns has added one row for each chunk of the asset's extracted text, in
  -- order, with the vector that the gateway gives of its text and the gateway's model and provider,
  -- behind the rows of other sessions. One that raises has added none.
  pub ingest_asset-Ingested :
      (model : String) (provider : Option String) (size overlap : ℤ) (s : Store O Vector)
      → Ingested model provider size overlap s (
          ingest_asset documents storage libraries gateway new_id others asset_id model provider
            size overlap s)
  unfolding ingest_asset
  ingest_asset-Ingested model provider size overlap s =
      ingested (check_ingestable documents storage libraries gateway new_id asset_id s).0
        (check_ingestable documents storage libraries gateway new_id asset_id s).1
        (check_ingestable-Checked s)
    where
      ingested :
          (r : Result Exn Asset) (t : Store O Vector)
          → Checked s (r, t)
          → Ingested model provider size overlap s (
              continue r
                (λ asset.
                  through_storage storage "read" (storage.open_object asset.storage_key)
                  >>= ingest_content documents storage libraries gateway new_id others asset_id
                      model provider size overlap asset)
                t)
      ingested (err e) t same = inl (ap (λ w. w.document_chunks) same)
      ingested (ok asset) t (found, same) =
          subst
            (λ w. Ingested model provider size overlap s (
              continue (storage_result "read" (storage.open_object asset.storage_key w.outside).0)
                (ingest_content documents storage libraries gateway new_id others asset_id model
                  provider size overlap asset)
                (record w { outside = (storage.open_object asset.storage_key w.outside).1 })))
            (sym same)
            (read model provider size overlap s asset
              (storage.open_object asset.storage_key s.outside).1
              (storage.open_object asset.storage_key s.outside).0 found refl)
