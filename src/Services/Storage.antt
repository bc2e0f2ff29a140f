-- ===== src/Services/Storage.antt =====
-- backend/app/storage/base.py, the interface of a storage backend over the world outside. An
-- operation ends in a StorageError or in its value. Content is the list of its bytes.
use pack_verse.Base.{ℕ, String, Option, List, Result}
use pack_verse.Errors.{StorageError}

pub record StorageMetadata : Type 0 where
  pub key : String
  pub size_bytes : ℕ
  pub content_type : Option String
  pub etag : Option String

pub record Storage (O : Type 0) : Type 0 where
  pub store : String → List ℕ → String → O → Result StorageError StorageMetadata × O
  pub open_object : String → O → Result StorageError (List ℕ) × O
  pub delete : String → O → Result StorageError Unit × O
  pub get_download_url : String → O → Result StorageError (Option String) × O
