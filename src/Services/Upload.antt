-- ===== src/Services/Upload.antt =====
-- backend/app/services/asset_service.py: what an upload is, its checks and the key that it is stored
-- under. The settings, the digest and the text of an id are parameters.
use pack_verse.Base.{
  ℕ, String, Bool, true, false, not, ◌&&◌, ◌||◌, Option, none, some, List, [], ◌∷◌, Result, ltb,
  ◌==◌, ℕ_eq, string_eq, elem, length, raise_if, ◌>>◌,
}
use Prim.Native.String.{◌++◌}
use Prim.Native.Char.{Char, code}
use pack_verse.Base.Dict.{lookup}
use pack_verse.Enums.{StorageProvider}
use pack_verse.Errors.{
  DomainError, invalid_filename, empty_file, file_too_large, unsupported_file_type,
}
use pack_verse.Services.Row.{Asset}
use pack_verse.Services.Filename.{chars, max_filename_length}

-- the first bytes of the content types that have a signature
abbrev pub magic_bytes : List (String × List (List ℕ))
magic_bytes =
    ("image/png", (137 ∷ 80 ∷ 78 ∷ 71 ∷ 13 ∷ 10 ∷ 26 ∷ 10 ∷ []) ∷ [])
    ∷ ("image/jpeg", (255 ∷ 216 ∷ 255 ∷ []) ∷ [])
    ∷ ("application/pdf", (37 ∷ 80 ∷ 68 ∷ 70 ∷ 45 ∷ []) ∷ [])
    ∷ (
      "application/zip",
      (80 ∷ 75 ∷ 3 ∷ 4 ∷ []) ∷ (80 ∷ 75 ∷ 5 ∷ 6 ∷ []) ∷ (80 ∷ 75 ∷ 7 ∷ 8 ∷ []) ∷ [],
    )
    ∷ []

abbrev pub starts_with : List ℕ → List ℕ → Bool
starts_with [] content = true
starts_with (b ∷ bs) [] = false
starts_with (b ∷ bs) (c ∷ cs) = b == c && starts_with bs cs

abbrev pub any_prefix : List (List ℕ) → List ℕ → Bool
any_prefix [] content = false
any_prefix (s ∷ signatures) content = starts_with s content || any_prefix signatures content

abbrev pub content_matches_declared_type : List ℕ → String → Bool
content_matches_declared_type content declared = elim (lookup declared magic_bytes) [
  | none ↦ true
  | some signatures ↦ any_prefix signatures content
]

abbrev pub has_nul : List Char → Bool
has_nul [] = false
has_nul (c ∷ cs) = code c == 0 || has_nul cs

pub record AssetSettings : Type 0 where
  pub max_upload_size_bytes : ℕ
  pub allowed_mime_types_list : List String
  pub storage_backend : StorageProvider
  pub normalize : List Char → List Char
  pub sha256 : List ℕ → String
  pub str_id : ℕ → String

pub record Upload : Type 0 where
  pub product_id : ℕ
  pub asset_type : String
  pub original_filename : String
  pub content_type : String
  pub content : List ℕ
  pub uploaded_by_user_id : ℕ

pub record DownloadPayload : Type 0 where
  pub asset : Asset
  pub url : Option String
  pub content : Option (List ℕ)

abbrev pub build_storage_key : AssetSettings → ℕ → ℕ → String → String
build_storage_key settings product_id asset_id safe_filename =
    let names = settings.str_id asset_id ++ ("/" ++ safe_filename) in
    "products/" ++ (settings.str_id product_id ++ ("/" ++ names))

unfoldable pub validate_upload : AssetSettings → Upload → Result DomainError Unit
validate_upload settings upload = do
  let filename = chars upload.original_filename
  raise_if (length filename == 0 || ltb max_filename_length (length filename) || has_nul filename)
      invalid_filename
  raise_if (length upload.content == 0) empty_file
  raise_if (ltb settings.max_upload_size_bytes (length upload.content))
      (file_too_large (length upload.content) settings.max_upload_size_bytes)
  raise_if (not (elem upload.content_type settings.allowed_mime_types_list))
      (unsupported_file_type upload.content_type)
  raise_if (not (content_matches_declared_type upload.content upload.content_type))
      (unsupported_file_type upload.content_type)
