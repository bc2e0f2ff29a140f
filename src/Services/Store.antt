-- ===== src/Services/Store.antt =====
-- What the coroutines of backend/app/services share: their tables, the world outside, and how far
-- the clock and the generator of ids have been read.
use pack_verse.Base.{ℕ, ◌+◌, List, [], ◌∷◌, ◌++◌, ok}
use pack_verse.Base.Table
use pack_verse.Effects.{Act}
use pack_verse.Services.Row.{Asset, DocumentChunk, Product, Account, LlmRequestRecord}

pub record Store (O Vector : Type 0) : Type 0 where
  pub outside : O
  pub clock_reads : ℕ
  pub ids_made : ℕ
  pub users : List Account
  pub products : List Product
  pub assets : List Asset
  pub document_chunks : List (DocumentChunk Vector)
  pub llm_requests : List LlmRequestRecord

module _ {O V : Type 0} where
  -- a call to the world outside
  abbrev pub reach : {A : Type 0} → Act O A → Act (Store O V) A
  reach m s = let (r, o) = m s.outside in (r, record s { outside = o })

  -- `datetime.now(timezone.utc)` and `time.monotonic()`
  abbrev pub now : (ℕ → ℕ) → Act (Store O V) ℕ
  now time s = (ok (time s.clock_reads), record s { clock_reads = s.clock_reads + 1 })

  -- `uuid.uuid4()`
  abbrev pub fresh_id : (ℕ → ℕ) → Act (Store O V) ℕ
  fresh_id new_id s = (ok (new_id s.ids_made), record s { ids_made = s.ids_made + 1 })

  abbrev pub insert_request : LlmRequestRecord → Act (Store O V) Unit
  insert_request r s = (ok tt, record s { llm_requests = s.llm_requests ++ (r ∷ []) })

  abbrev pub save_request : LlmRequestRecord → Act (Store O V) Unit
  save_request r s = (ok tt, record s { llm_requests = Table.save (λ x. x.id) r s.llm_requests })

  abbrev pub insert_asset : Asset → Act (Store O V) Unit
  insert_asset a s = (ok tt, record s { assets = s.assets ++ (a ∷ []) })

  abbrev pub save_asset : Asset → Act (Store O V) Unit
  save_asset a s = (ok tt, record s { assets = Table.save (λ x. x.id) a s.assets })
