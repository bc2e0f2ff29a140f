-- ===== src/Storage/Local.antt =====
-- backend/app/storage/local.py over a file system of its own. A path is the list of its components
-- below the root of the file system. `Path.resolve`, which follows links, is the parameter `follow`, and
-- the faults of the operating system are `Faults`. A content type is always given, as `upload_asset`
-- gives it; directories are not kept, and `stat` raises nothing but FileNotFoundError.
pub mod Contained
pub mod RoundTrip
use pack_verse.Base.{
  ℕ, String, Bool, true, false, not, ◌&&◌, ◌||◌, Option, none, some, List, [], ◌∷◌, ◌++◌, Result,
  ok, err, if◌then◌else◌, ◌==◌, ℕ_eq, keep, length, HasEq,
}
use Prim.Native.Char.{Char, code}
use pack_verse.Errors.{
  StorageError, storage_not_found, storage_unavailable, storage_write_failed, storage_delete_failed,
}
use pack_verse.Services.Filename.{chars, is_char, components, is_dropped}
use pack_verse.Services.Storage.{StorageMetadata}

abbrev pub Name : Type 0
Name = List Char

abbrev pub FilePath : Type 0
FilePath = List Name

abbrev pub same_name : Name → Name → Bool
same_name [] [] = true
same_name [] (d ∷ ds) = false
same_name (c ∷ cs) [] = false
same_name (c ∷ cs) (d ∷ ds) = code c == code d && same_name cs ds

abbrev pub same_path : FilePath → FilePath → Bool
same_path [] [] = true
same_path [] (q ∷ qs) = false
same_path (p ∷ ps) [] = false
same_path (p ∷ ps) (q ∷ qs) = same_name p q && same_path ps qs

-- `PurePosixPath(key).is_absolute()`
abbrev pub is_absolute : Name → Bool
is_absolute [] = false
is_absolute (c ∷ cs) = is_char c "/"

-- `PurePosixPath(key).parts` of a key that is not absolute
abbrev pub parts : Name → FilePath
parts key = keep (λ part. not (is_dropped part)) (components [] key)

-- `".." in parts`
abbrev pub has_parent : FilePath → Bool
has_parent [] = false
has_parent (p ∷ ps) = same_name p (chars "..") || has_parent ps

-- `candidate == root or root in candidate.parents`
abbrev pub is_within : FilePath → FilePath → Bool
is_within [] path = true
is_within (r ∷ root) [] = false
is_within (r ∷ root) (p ∷ path) = same_name r p && is_within root path

pub record FileSystem : Type 0 where
  pub files : List (FilePath × List ℕ)

abbrev pub read_file : FilePath → List (FilePath × List ℕ) → Option (List ℕ)
read_file path [] = none
read_file path ((p, content) ∷ files) =
    if same_path p path then some content else read_file path files

abbrev pub remove_file : FilePath → List (FilePath × List ℕ) → List (FilePath × List ℕ)
remove_file path [] = []
remove_file path ((p, content) ∷ files) =
    if same_path p path then remove_file path files else (p, content) ∷ remove_file path files

-- Where a call of the operating system raises an OSError other than FileNotFoundError, in the state
-- that it finds: `mkdir` of the directory of a path, the write of a temporary file, the renaming to a
-- path, a read and an `unlink`. `mkstemp` gives the path of a new file beside a path, or raises.
pub record Faults : Type 0 where
  pub mkdir_fails : FilePath → FileSystem → Bool
  pub mkstemp : FilePath → FileSystem → Option FilePath
  pub write_fails : FilePath → FileSystem → Bool
  pub replace_fails : FilePath → FileSystem → Bool
  pub read_fails : FilePath → FileSystem → Bool
  pub unlink_fails : FilePath → FileSystem → Bool

-- what a store raises: an error of the storage, or an OSError that no `except` catches
pub data StoreError : Type 0 where
  storage_error : StorageError → StoreError
  os_error : StoreError

abbrev pub put_file : FilePath → List ℕ → FileSystem → FileSystem
put_file path content fs = record { files = (path, content) ∷ remove_file path fs.files }

abbrev pub unlink : FilePath → FileSystem → FileSystem
unlink path fs = record { files = remove_file path fs.files }

module _ (root : FilePath) (follow : FilePath → FilePath) (faults : Faults)
    (sha256 : List ℕ → String) where
  open faults use {mkdir_fails, mkstemp, write_fails, replace_fails, read_fails, unlink_fails}

  -- the last check, of the path with its links followed
  abbrev pub check_within : String → FilePath → Result StorageError FilePath
  check_within key candidate =
      if is_within root candidate then ok candidate else err (storage_write_failed key)

  unfoldable pub resolve : String → Result StorageError FilePath
  resolve key =
      if is_absolute (chars key) || has_parent (parts (chars key))
      then err (storage_write_failed key)
      else check_within key (follow (root ++ parts (chars key)))

  abbrev pub stored : String → List ℕ → String → StorageMetadata
  stored key content content_type = record {
    key = key;
    size_bytes = length content;
    content_type = some content_type;
    etag = some (sha256 content);
  }

  -- the `except` clause: the temporary file is unlinked
  abbrev pub give_up :
      String → FilePath → FileSystem → Result StoreError StorageMetadata × FileSystem
  give_up key tmp fs =
      if unlink_fails tmp fs
      then (err os_error, fs)
      else (err (storage_error (storage_write_failed key)), unlink tmp fs)

  -- `os.replace`, of the temporary file that is written
  abbrev pub rename_at :
      String
      → List ℕ
      → String
      → FilePath
      → FilePath
      → FileSystem
      → Result StoreError StorageMetadata × FileSystem
  rename_at key content content_type path tmp fs =
      if replace_fails path fs
      then give_up key tmp fs
      else (ok (stored key content content_type), put_file path content (unlink tmp fs))

  -- `mkstemp` has made an empty file, and a write that fails leaves it so
  abbrev pub fill_at :
      String
      → List ℕ
      → String
      → FilePath
      → Option FilePath
      → FileSystem
      → Result StoreError StorageMetadata × FileSystem
  fill_at key content content_type path none fs = (err os_error, fs)
  fill_at key content content_type path (some tmp) fs =
      let made = put_file tmp [] fs in
      if write_fails tmp made
      then give_up key tmp made
      else rename_at key content content_type path tmp (put_file tmp content made)

  abbrev pub write_at :
      String
      → List ℕ
      → String
      → Result StorageError FilePath
      → FileSystem
      → Result StoreError StorageMetadata × FileSystem
  write_at key content content_type (err e) fs = (err (storage_error e), fs)
  write_at key content content_type (ok path) fs =
      if mkdir_fails path fs
      then (err os_error, fs)
      else fill_at key content content_type path (mkstemp path fs) fs

  unfoldable pub store_sync :
      String → List ℕ → String → FileSystem → Result StoreError StorageMetadata × FileSystem
  unfolding resolve
  store_sync key content content_type fs = write_at key content content_type (resolve key) fs

  abbrev pub content_or_missing : String → Option (List ℕ) → Result StorageError (List ℕ)
  content_or_missing key none = err (storage_not_found key)
  content_or_missing key (some content) = ok content

  abbrev pub read_at :
      String → Result StorageError FilePath → FileSystem → Result StorageError (List ℕ) × FileSystem
  read_at key (err e) fs = (err e, fs)
  read_at key (ok path) fs =
      if read_fails path fs
      then (err storage_unavailable, fs)
      else (content_or_missing key (read_file path fs.files), fs)

  unfoldable pub open_sync : String → FileSystem → Result StorageError (List ℕ) × FileSystem
  unfolding resolve
  open_sync key fs = read_at key (resolve key) fs

  abbrev pub delete_at :
      String → Result StorageError FilePath → FileSystem → Result StorageError Unit × FileSystem
  delete_at key (err e) fs = (err e, fs)
  delete_at key (ok path) fs =
      if unlink_fails path fs
      then (err (storage_delete_failed key), fs)
      else (ok tt, unlink path fs)

  -- deleting a missing file is no error
  unfoldable pub delete_sync : String → FileSystem → Result StorageError Unit × FileSystem
  unfolding resolve
  delete_sync key fs = delete_at key (resolve key) fs

  abbrev pub exists_at : Result StorageError FilePath → FileSystem → Result StorageError Bool
  exists_at (err e) fs = err e
  exists_at (ok path) fs = elim (read_file path fs.files) [
    | none ↦ ok false
    | some content ↦ ok true
  ]

  unfoldable pub exists_sync : String → FileSystem → Result StorageError Bool
  unfolding resolve
  exists_sync key fs = exists_at (resolve key) fs

  abbrev pub metadata_at :
      String → Result StorageError FilePath → FileSystem → Result StorageError StorageMetadata
  metadata_at key (err e) fs = err e
  metadata_at key (ok path) fs = elim (read_file path fs.files) [
    | none ↦ err (storage_not_found key)
    | some content ↦
        ok (record { key = key; size_bytes = length content; content_type = none; etag = none })
  ]

  unfoldable pub get_metadata_sync : String → FileSystem → Result StorageError StorageMetadata
  unfolding resolve
  get_metadata_sync key fs = metadata_at key (resolve key) fs

  abbrev pub url_of : String → Result StorageError Bool → Result StorageError (Option String)
  url_of key (err e) = err e
  url_of key (ok false) = err (storage_not_found key)
  url_of key (ok true) = ok none

  -- there is no link to a local file
  unfoldable pub get_download_url :
      String → FileSystem → Result StorageError (Option String) × FileSystem
  unfolding exists_sync
  get_download_url key fs = (url_of key (exists_sync key fs), fs)
