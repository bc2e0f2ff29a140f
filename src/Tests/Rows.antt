-- ===== src/Tests/Rows.antt =====
-- A sample store: a product with one asset, and one user.
use pack_verse.Base.{ℕ, false, none, [], ◌∷◌, ◌==◌, string_eq}
use pack_verse.Base.Int.{pos}
use pack_verse.Json.{end}
use pack_verse.Enums.{StorageProvider, UserRole, UserStatus, ProductStatus, ProductType}
use pack_verse.Services.Row.{Product, Account}
use pack_verse.Services.Store.{Store}
use pack_verse.Services.Upload.{AssetSettings, Upload}
use pack_verse.Services.Accounts.{Passwords}
use pack_verse.Tests.Stores.{sample_asset}

abbrev pub sample_product : Product
sample_product = record {
  id = 40;
  slug = "pack";
  title = "Pack";
  description = none;
  product_type = ProductType.svg_pack;
  status = ProductStatus.draft;
  version = "v1.0";
  price_cents = pos 0;
  currency = "USD";
  metadata_json = end;
}

abbrev pub sample_account : Account
sample_account = record {
  id = 1;
  email = "a@b.c";
  hashed_password = "secret";
  full_name = "A";
  role = UserRole.viewer;
  status = UserStatus.active;
  is_verified = false;
  last_login_at = none;
}

abbrev pub sample_store : Store ℕ ℕ
sample_store = record {
  outside = 0;
  clock_reads = 0;
  ids_made = 0;
  users = sample_account ∷ [];
  products = sample_product ∷ [];
  assets = sample_asset ∷ [];
  document_chunks = [];
  llm_requests = [];
}

abbrev pub sample_upload : Upload
sample_upload = record {
  product_id = 40;
  asset_type = "doc";
  original_filename = "b.txt";
  content_type = "text/plain";
  content = 104 ∷ [];
  uploaded_by_user_id = 1;
}

abbrev pub sample_asset_settings : AssetSettings
sample_asset_settings = record {
  max_upload_size_bytes = 1000;
  allowed_mime_types_list = "text/plain" ∷ [];
  storage_backend = StorageProvider.local;
  normalize = λ name. name;
  sha256 = λ bytes. "sum";
  str_id = λ id. "id";
}

abbrev pub sample_passwords : Passwords
sample_passwords = record {
  normalize_email = λ email. email;
  hash_password = λ password. password;
  verify_password = λ password hash. password == hash;
}

abbrev pub alone : {A : Type 0} → A → A
alone rows = rows
