-- ===== src/Services/AssetService/Outcome.antt =====
-- What the asset service leaves behind in the table and in the storage, by how it ends.
use pack_verse.Base.{
  ℕ, ◌≡◌, ◌≢◌, refl, ap, sym, ◌+◌, String, Bool, true, false, Option, none, some, List, [], ◌∷◌,
  ◌++◌, Result, ok, err, arith, inl, inr, ◌⊎◌, Bool-cases, Result-cases, ◌==◌, if◌then◌else◌,
}
use pack_verse.Base.Table.{find, find-replace}
use pack_verse.Enums.{AssetStatus, asset_status_eq}
use pack_verse.Errors.{
  Exn, domain, DomainError, product_not_found, StorageError, asset_not_found, asset_deleted,
}
use pack_verse.Effects.{continue, pure, lift, as_exn, or_raise, raise_when, ◌>>=◌, ◌>>◌}
use pack_verse.Services.Row.{Asset, Product}
use pack_verse.Services.Store.{Store}
use pack_verse.Services.Storage.{Storage, StorageMetadata}
use pack_verse.Services.Upload.{
  AssetSettings, Upload, DownloadPayload, build_storage_key, validate_upload,
}
use pack_verse.Services.Filename.{chars, text_of, sanitize_filename}
use pack_verse.Services.AssetService.{
  storage_result, collides, new_asset, store_upload, commit_upload, upload_asset,
  get_active_product, get_asset, delete_row, delete_asset, url_or_content, through_storage,
  get_download_payload,
}

true_ne : {b : Bool} → b ≡ false → b ≡ true → ⊥
true_ne h k = ground arith

module _ {O V : Type 0} (storage : Storage O) where
  -- What an upload leaves behind. `others` are the rows that other sessions commit meanwhile. An
  -- upload that returns has stored the object and added its AVAILABLE row; one that raises adds none,
  -- and after a failed commit it has deleted the object again.
  abbrev pub Uploaded :
      (List Asset → List Asset) → Upload → Store O V → Result Exn Asset × Store O V → Type 0
  Uploaded others upload s (ok asset, t) =
      (t.assets ≡ others s.assets ++ (asset ∷ []))
      × (asset.status ≡ AssetStatus.available)
      × (m : StorageMetadata) × (storage.store asset.storage_key upload.content upload.content_type
            s.outside
          ≡ (ok m, t.outside))
  Uploaded others upload s (err e, t) =
      ((t.assets ≡ s.assets) × (t.outside ≡ s.outside))
      ⊎ ((t.assets ≡ s.assets)
          × (key : String) × (x : StorageError) × (storage.store key upload.content
                upload.content_type s.outside
              ≡ (err x, t.outside)))
      ⊎ ((t.assets ≡ others s.assets)
          × (key : String) × (m : StorageMetadata) × (o : O) × (storage.store key upload.content
                upload.content_type s.outside
              ≡ (ok m, o))
          × (t.outside ≡ (storage.delete key o).1))

  commit_upload-Uploaded :
      (others : List Asset → List Asset) (upload : Upload) (s t : Store O V) (asset : Asset)
      (m : StorageMetadata)
      → asset.status ≡ AssetStatus.available
      → t.assets ≡ s.assets
      → storage.store asset.storage_key upload.content upload.content_type s.outside
        ≡ (ok m, t.outside)
      → Uploaded others upload s (commit_upload storage others asset t)
  unfolding commit_upload
  commit_upload-Uploaded others upload s t asset m status same stored =
      elim (Bool-cases (collides asset (others t.assets))) [
        | inl h ↦ rw h (inr (inr (ap others same, asset.storage_key, m, t.outside, stored, refl)))
        | inr h ↦ rw h (ap (λ rows. others rows ++ (asset ∷ [])) same, status, m, stored)
      ]

  module _ (settings : AssetSettings) (new_id : ℕ → ℕ) (others : List Asset → List Asset)
      (upload : Upload) where
    stored-Uploaded :
        (s t : Store O V) (id : ℕ) (name key : String) (r : Result StorageError StorageMetadata)
        → t.assets ≡ s.assets
        → storage.store key upload.content upload.content_type s.outside ≡ (r, t.outside)
        → Uploaded others upload s (
            continue
              (storage_result "write" r)
              (λ m. commit_upload storage others (new_asset settings upload id name key m))
              t)
    stored-Uploaded s t id name key (err x) same e = inr (inl (same, key, x, e))
    stored-Uploaded s t id name key (ok m) same e =
        commit_upload-Uploaded others upload s t (new_asset settings upload id name key m) m refl
          same e

    store_upload-Uploaded :
        (s : Store O V)
        → Uploaded others upload s (store_upload storage settings new_id others upload s)
    unfolding store_upload
    store_upload-Uploaded s =
        let id = new_id s.ids_made in
        let name =
          text_of (sanitize_filename settings.normalize (chars upload.original_filename)) in
        let key = build_storage_key settings upload.product_id id name in
        let sent = storage.store key upload.content upload.content_type s.outside in
        stored-Uploaded s (record s { ids_made = s.ids_made + 1; outside = sent.1 }) id name key
          sent.0 refl refl

    checked-Uploaded :
        (s : Store O V) (found : Option Product) (r : Result DomainError Unit)
        → Uploaded others upload s (
            (or_raise found (domain (product_not_found upload.product_id))
                >> (lift (as_exn domain r) >> store_upload storage settings new_id others upload))
              s)
    checked-Uploaded s none r = inl (refl, refl)
    checked-Uploaded s (some product) (err x) = inl (refl, refl)
    checked-Uploaded s (some product) (ok u) = store_upload-Uploaded s

    -- An upload that returns has stored the object under the key of its AVAILABLE row, which it adds;
    -- one that raises adds no row: it has stored nothing, or the storage refused the object, or the
    -- commit failed and the object is deleted again.
    pub upload_asset-Uploaded :
        (s : Store O V)
        → Uploaded others upload s (upload_asset storage settings new_id others upload s)
    unfolding upload_asset get_active_product
    upload_asset-Uploaded s =
        checked-Uploaded s (find (λ p. p.id) upload.product_id s.products)
          (validate_upload settings upload)

  -- What a deletion leaves behind: the row is DELETED and no other is touched, or the call raised and
  -- the table is as it was.
  abbrev pub Removed : ℕ → Store O V → Result Exn Unit × Store O V → Type 0
  Removed id s (ok u, t) =
      ((row : Asset) × (find (λ a. a.id) id t.assets ≡ some row)
        × (row.status ≡ AssetStatus.deleted))
      × ((k : ℕ) → k ≢ id → find (λ a. a.id) k t.assets ≡ find (λ a. a.id) k s.assets)
  Removed id s (err e, t) = t.assets ≡ s.assets

  deleted-Removed :
      (time : ℕ → ℕ) (id : ℕ) (s : Store O V) (asset : Asset)
      → find (λ a. a.id) id s.assets ≡ some asset
      → Removed id s (delete_row storage time asset s)
  unfolding delete_row
  deleted-Removed time id s asset found =
      let removed = storage.delete asset.storage_key s.outside in
      elim (Result-cases removed.0) [
        | inl (u, h) ↦
            let gone = record asset {
              status = AssetStatus.deleted;
              deleted_at = some (time s.clock_reads);
            } in
            let (there, others) = find-replace (λ a. a.id) id asset gone s.assets found refl in
            rw h ((gone, there, refl), others)
        | inr (e, h) ↦ rw h refl
      ]

  found-Removed :
      (time : ℕ → ℕ) (id : ℕ) (s : Store O V) (o : Option Asset)
      → find (λ a. a.id) id s.assets ≡ o
      → Removed id s (
          (or_raise o (domain (asset_not_found id)) >>= λ asset.
          if asset.status == AssetStatus.deleted then pure tt else delete_row storage time asset)
            s)
  found-Removed time id s none e = refl
  found-Removed time id s (some asset) e = elim (Bool-cases (asset.status == AssetStatus.deleted)) [
    | inl h ↦ rw h ((asset, e, (asset_status_eq.same_iff _ _).0 h), λ k differs. refl)
    | inr h ↦ rw h (deleted-Removed time id s asset e)
  ]

  -- A deletion that returns leaves the row of the asset DELETED and the other rows as they were; one
  -- that raises leaves the table as it was.
  pub delete_asset-Removed :
      (time : ℕ → ℕ) (id : ℕ) (s : Store O V) → Removed id s (delete_asset storage time id s)
  unfolding delete_asset
  delete_asset-Removed time id s = found-Removed time id s (find (λ a. a.id) id s.assets) refl

  -- What the storage gives of the object of the payload's asset: its link and no content, or the
  -- content of the object and no link.
  abbrev pub Served : DownloadPayload → Store O V → Type 0
  Served payload s =
      ((url : String) × (o : O) × (storage.get_download_url payload.asset.storage_key s.outside
          ≡ (ok (some url), o))
        × (payload.url ≡ some url)
        × (payload.content ≡ none))
      ⊎ ((bytes : List ℕ) × (o : O) × (o' : O) × (storage.get_download_url payload.asset.storage_key
              s.outside
            ≡ (ok none, o))
          × (storage.open_object payload.asset.storage_key o ≡ (ok bytes, o'))
          × (payload.url ≡ none)
          × (payload.content ≡ some bytes))

  -- What a download offers: the asset's row, which is not DELETED, with a link to the object or its
  -- content, and not both.
  abbrev pub Offered : ℕ → Store O V → Result Exn DownloadPayload × Store O V → Type 0
  Offered id s (ok payload, t) =
      (find (λ a. a.id) id s.assets ≡ some payload.asset)
      × (payload.asset.status ≢ AssetStatus.deleted)
      × Served payload s
      × (t.assets ≡ s.assets)
  Offered id s (err e, t) = t.assets ≡ s.assets

  content-Offered :
      (id : ℕ) (s t : Store O V) (asset : Asset) (r : Result StorageError (Option String))
      → find (λ a. a.id) id s.assets ≡ some asset
      → asset.status ≢ AssetStatus.deleted
      → t.assets ≡ s.assets
      → storage.get_download_url asset.storage_key s.outside ≡ (r, t.outside)
      → Offered id s
          (continue (storage_result "read" r) (λ url. url_or_content storage asset url) t)
  content-Offered id s t asset (err x) e alive same got = same
  content-Offered id s t asset (ok (some url)) e alive same got =
      (e, alive, inl (url, t.outside, got, refl, refl), same)
  content-Offered id s t asset (ok none) e alive same got =
      elim (Result-cases (storage.open_object asset.storage_key t.outside).0) [
        | inl (bytes, h) ↦ rw h (
          e,
          alive,
          inr (
            bytes,
            t.outside,
            (storage.open_object asset.storage_key t.outside).1,
            got,
            ap (λ r. (r, (storage.open_object asset.storage_key t.outside).1)) h,
            refl,
            refl,
          ),
          same,
        )
        | inr (x, h) ↦ rw h same
      ]

  -- An asset that is read is in the table and not DELETED.
  abbrev pub Got : ℕ → Store O V → Result Exn Asset × Store O V → Type 0
  Got id s (ok asset, t) =
      (find (λ a. a.id) id s.assets ≡ some asset) × (asset.status ≢ AssetStatus.deleted) × (t ≡ s)
  Got id s (err e, t) = t ≡ s

  pub get_asset-Got : (id : ℕ) (s : Store O V) → Got id s (get_asset storage id s)
  unfolding get_asset
  get_asset-Got id s = got (find (λ a. a.id) id s.assets) refl
    where
      got :
          (o : Option Asset)
          → find (λ a. a.id) id s.assets ≡ o
          → Got id s (
              (or_raise o (domain (asset_not_found id)) >>= λ asset.
              raise_when (asset.status == AssetStatus.deleted) (domain (asset_deleted id))
              >> pure asset)
                s)
      got none e = refl
      got (some asset) e = elim (Bool-cases (asset.status == AssetStatus.deleted)) [
        | inl h ↦ rw h refl
        | inr h ↦
            rw h (e, (λ gone. absurd (true_ne h ((asset_status_eq.same_iff _ _).1 gone))), refl)
      ]

  opened :
      (id : ℕ) (s : Store O V) (r : Result Exn Asset) (t : Store O V)
      → Got id s (r, t)
      → Offered id s (
          continue r
            (λ asset.
              through_storage storage "read" (storage.get_download_url asset.storage_key)
              >>= url_or_content storage asset)
            t)
  opened id s (err e) t same = ap (λ w. w.assets) same
  opened id s (ok asset) t (found, alive, same) =
      let asked = storage.get_download_url asset.storage_key t.outside in
      content-Offered id s (record t { outside = asked.1 }) asset asked.0 found alive
        (ap (λ w. w.assets) same)
        (ap (λ (w : Store O V). storage.get_download_url asset.storage_key w.outside) (sym same))

  -- A download offers the asset if it is not DELETED, by the link that the storage gives of its object
  -- or else by the content of the object, and never both; it changes no row, and neither does one
  -- that raises.
  pub get_download_payload-Offered :
      (id : ℕ) (s : Store O V) → Offered id s (get_download_payload storage id s)
  unfolding get_download_payload
  get_download_payload-Offered id s =
      let r = get_asset storage id s in opened id s r.0 r.1 (get_asset-Got id s)
