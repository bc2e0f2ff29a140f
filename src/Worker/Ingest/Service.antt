-- ===== src/Worker/Ingest/Service.antt =====
-- services/ingestion_service.py as the ingestion that the worker's dispatch calls: the world outside
-- the queue is the store of the services.
use pack_verse.Base.{ℕ, List, Result, ok, err}
use pack_verse.Errors.{Exn}
use pack_verse.Llm.Gateway.{Libraries, Gateway}
use pack_verse.Services.Row.{DocumentChunk}
use pack_verse.Services.Store.{Store}
use pack_verse.Services.Storage.{Storage}
use pack_verse.Services.Ingestion.{Documents, any_of, ingest_asset}
use pack_verse.Worker.Ingest.{Ingestion}

-- `await ingest_asset(…)`, whose result the worker drops
abbrev pub dropped : {A : Type 0} → Result Exn A → Result Exn Unit
dropped (ok a) = ok tt
dropped (err e) = err e

unfoldable pub ingestion_service :
    {O Vector : Type 0}
    → Documents
    → Storage O
    → Libraries O
    → Gateway O Vector
    → (ℕ → ℕ)
    → (List (DocumentChunk Vector) → List (DocumentChunk Vector))
    → Ingestion (Store O Vector)
unfolding ingest_asset
ingestion_service documents storage libraries gateway new_id others = record {
  has_chunks = λ asset_id s. any_of asset_id s.document_chunks;
  ingest = λ asset_id model provider size overlap s.
      let (r, t) =
        ingest_asset documents storage libraries gateway new_id others asset_id model provider size
          overlap s in
      (dropped r, t);
}
