-- ===== src/Services/AssetService.antt =====
-- backend/app/services/asset_service.py. `storage` is the storage backend; the settings, the digest,
-- the text of an id and the rows that other sessions commit while an upload is stored are parameters.
pub mod Outcome
use pack_verse.Base.{
  ℕ, zero, suc, String, Bool, true, false, not, ◌&&◌, ◌||◌, Option, none, some, List, [], ◌∷◌, ◌++◌,
  Result, ok, err, if◌then◌else◌, ltb, ◌==◌, ℕ_eq, string_eq, elem, keep, take, drop, length, min,
  max,
}
use mathlib.Core.List.{reverse}
use pack_verse.Base.Table
use pack_verse.Base.Int.{ℤ, pos_part}
use pack_verse.Enums.{AssetStatus, asset_status_eq}
use pack_verse.Errors.{
  Exn, domain, other, StorageError, product_not_found, asset_not_found, asset_deleted,
  asset_storage_failed,
}
use pack_verse.Effects.{Act, pure, lift, as_exn, gets, or_raise, raise_when, ◌>>=◌, ◌>>◌}
use pack_verse.Services.Row.{Asset, Product}
use pack_verse.Services.Store.{Store, now, fresh_id, save_asset}
use pack_verse.Services.Storage.{Storage, StorageMetadata}
use pack_verse.Services.Upload.{
  AssetSettings, Upload, DownloadPayload, build_storage_key, validate_upload,
}
use pack_verse.Services.Filename.{chars, text_of, sanitize_filename, max_filename_length}

abbrev pub max_page_size : ℕ
max_page_size = 100

abbrev pub storage_result : {A : Type 0} → String → Result StorageError A → Result Exn A
storage_result operation (ok a) = ok a
storage_result operation (err e) = err (domain (asset_storage_failed operation))

-- the unique columns of `assets`
abbrev pub collides : Asset → List Asset → Bool
collides asset [] = false
collides asset (a ∷ rows) =
    a.id == asset.id || a.storage_key == asset.storage_key || collides asset rows

abbrev pub new_asset : AssetSettings → Upload → ℕ → String → String → StorageMetadata → Asset
new_asset settings upload asset_id safe_filename storage_key metadata = record {
  id = asset_id;
  product_id = upload.product_id;
  asset_type = upload.asset_type;
  filename = safe_filename;
  storage_key = storage_key;
  mime_type = upload.content_type;
  size_bytes = length upload.content;
  checksum = settings.sha256 upload.content;
  original_filename = some (text_of (take max_filename_length (chars upload.original_filename)));
  content_type = some upload.content_type;
  etag = metadata.etag;
  storage_backend = settings.storage_backend;
  status = AssetStatus.available;
  uploaded_by_user_id = some upload.uploaded_by_user_id;
  deleted_at = none;
}

module _ {O Vector : Type 0} (storage : Storage O) where
  -- `try: … except StorageError: raise AssetStorageOperationFailedError(operation)`
  abbrev pub through_storage :
      {A : Type 0} → String → (O → Result StorageError A × O) → Act (Store O Vector) A
  through_storage operation call s =
      let (r, o) = call s.outside in (storage_result operation r, record s { outside = o })

  unfoldable pub get_active_product : ℕ → Act (Store O Vector) Product
  get_active_product product_id = do
    found ← gets (λ s. Table.find (λ p. p.id) product_id s.products)
    or_raise found (domain (product_not_found product_id))

  -- the INSERT; when it fails, the object that was stored is deleted
  unfoldable pub commit_upload : (List Asset → List Asset) → Asset → Act (Store O Vector) Asset
  commit_upload others asset s =
      let rows = others s.assets in
      if collides asset rows
      then (
        err (other "IntegrityError"),
        record s { assets = rows; outside = (storage.delete asset.storage_key s.outside).1 },
      )
      else (ok asset, record s { assets = rows ++ (asset ∷ []) })

  -- the part of an upload behind the checks
  unfoldable pub store_upload :
      AssetSettings → (ℕ → ℕ) → (List Asset → List Asset) → Upload → Act (Store O Vector) Asset
  unfolding sanitize_filename commit_upload
  store_upload settings new_id others upload = do
    let safe_filename =
        text_of (sanitize_filename settings.normalize (chars upload.original_filename))
    asset_id ← fresh_id new_id
    let key = build_storage_key settings upload.product_id asset_id safe_filename
    metadata ← through_storage "write" (storage.store key upload.content upload.content_type)
    commit_upload others (new_asset settings upload asset_id safe_filename key metadata)

  unfoldable pub upload_asset :
      AssetSettings → (ℕ → ℕ) → (List Asset → List Asset) → Upload → Act (Store O Vector) Asset
  unfolding get_active_product validate_upload store_upload
  upload_asset settings new_id others upload = do
    get_active_product upload.product_id
    lift (as_exn domain (validate_upload settings upload))
    store_upload settings new_id others upload

  unfoldable pub get_asset : ℕ → Act (Store O Vector) Asset
  get_asset asset_id = do
    found ← gets (λ s. Table.find (λ a. a.id) asset_id s.assets)
    asset ← or_raise found (domain (asset_not_found asset_id))
    raise_when (asset.status == AssetStatus.deleted) (domain (asset_deleted asset_id))
    pure asset

  unfoldable pub list_assets_for_product : ℕ → ℤ → ℤ → Store O Vector → List Asset × ℕ
  list_assets_for_product product_id limit offset s =
      let rows =
        keep (λ a. a.product_id == product_id && not (a.status == AssetStatus.deleted)) s.assets in
      (
        take (min (max (pos_part limit) 1) max_page_size) (drop (pos_part offset) (reverse rows)),
        length rows,
      )

  -- the storage object first, the row second
  unfoldable pub delete_row : (ℕ → ℕ) → Asset → Act (Store O Vector) Unit
  delete_row time asset = do
    through_storage "delete" (storage.delete asset.storage_key)
    deleted_at ← now time
    save_asset (record asset { status = AssetStatus.deleted; deleted_at = some deleted_at })

  unfoldable pub delete_asset : (ℕ → ℕ) → ℕ → Act (Store O Vector) Unit
  unfolding delete_row
  delete_asset time asset_id = do
    found ← gets (λ s. Table.find (λ a. a.id) asset_id s.assets)
    asset ← or_raise found (domain (asset_not_found asset_id))
    if asset.status == AssetStatus.deleted then pure tt else delete_row time asset

  -- a link to the object if the backend has one, else its content
  abbrev pub url_or_content : Asset → Option String → Act (Store O Vector) DownloadPayload
  url_or_content asset (some url) = pure (record { asset = asset; url = some url; content = none })
  url_or_content asset none = do
    content ← through_storage "read" (storage.open_object asset.storage_key)
    pure (record { asset = asset; url = none; content = some content })

  unfoldable pub get_download_payload : ℕ → Act (Store O Vector) DownloadPayload
  unfolding get_asset
  get_download_payload asset_id = do
    asset ← get_asset asset_id
    url ← through_storage "read" (storage.get_download_url asset.storage_key)
    url_or_content asset url
