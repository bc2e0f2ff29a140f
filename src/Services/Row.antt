-- ===== src/Services/Row.antt =====
-- backend/app/models/asset.py, document_chunk.py, product.py, user.py and llm_request.py: the rows.
-- Times are whole numbers of microseconds, and `Vector` is the type of an embedding. `created_at` is
-- the order of the rows in their table.
use pack_verse.Base.{ℕ, String, Bool, Option}
use pack_verse.Base.Int.{ℤ}
use pack_verse.Enums.{
  UserRole, UserStatus, AssetStatus, StorageProvider, LlmRequestStatus, ProductStatus, ProductType,
}
use pack_verse.Json.{Fields}

pub record Asset : Type 0 where
  pub id : ℕ
  pub product_id : ℕ
  pub asset_type : String
  pub filename : String
  pub storage_key : String
  pub mime_type : String
  pub size_bytes : ℕ
  pub checksum : String
  pub original_filename : Option String
  pub content_type : Option String
  pub etag : Option String
  pub storage_backend : StorageProvider
  pub status : AssetStatus
  pub uploaded_by_user_id : Option ℕ
  pub deleted_at : Option ℕ

pub record DocumentChunk (Vector : Type 0) : Type 0 where
  pub id : ℕ
  pub asset_id : ℕ
  pub chunk_index : ℕ
  pub content : String
  pub content_hash : String
  pub char_start : ℕ
  pub char_end : ℕ
  pub embedding : Option Vector
  pub embedding_model : Option String
  pub embedding_provider : Option String

pub record Product : Type 0 where
  pub id : ℕ
  pub slug : String
  pub title : String
  pub description : Option String
  pub product_type : ProductType
  pub status : ProductStatus
  pub version : String
  pub price_cents : ℤ
  pub currency : String
  pub metadata_json : Fields

pub record Account : Type 0 where
  pub id : ℕ
  pub email : String
  pub hashed_password : String
  pub full_name : String
  pub role : UserRole
  pub status : UserStatus
  pub is_verified : Bool
  pub last_login_at : Option ℕ

pub record LlmRequestRecord : Type 0 where
  pub id : ℕ
  pub user_id : Option ℕ
  pub provider : String
  pub model : String
  pub status : LlmRequestStatus
  pub request_metadata_json : Fields
  pub response_metadata_json : Fields
  pub input_tokens : Option ℕ
  pub output_tokens : Option ℕ
  pub total_tokens : Option ℕ
  pub estimated_cost_usd : Option ℕ
  pub latency_ms : Option ℕ
  pub error_code : Option String
  pub completed_at : Option ℕ
