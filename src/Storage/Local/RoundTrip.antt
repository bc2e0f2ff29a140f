-- ===== src/Storage/Local/RoundTrip.antt =====
-- What a store leaves in the file system, by how it ends.
use pack_verse.Base.{
  ◌≡◌, String, true, false, ◌⊎◌, none, some, List, Result, ok, err, ℕ, ℕ_eq, length, if◌then◌else◌,
}
use pack_verse.Errors.{storage_unavailable}
use pack_verse.Services.Storage.{StorageMetadata}
use pack_verse.Storage.Local.{
  FilePath, FileSystem, Faults, StoreError, os_error, same_path, read_file, resolve, open_sync,
  delete_sync,
}

-- A file that is made, filled any number of times and unlinked again leaves what was there.
abbrev AwayFrom : FilePath → FileSystem → FileSystem → Type 0
AwayFrom tmp fs fs' =
    (p : FilePath) → same_path tmp p ≡ false → read_file p fs'.files ≡ read_file p fs.files

module _ (root : FilePath) (follow : FilePath → FilePath) (faults : Faults)
    (sha256 : List ℕ → String) where
  open faults use {mkstemp, read_fails, unlink_fails}

  -- Every file reads as before, but for a temporary file that could not be unlinked.
  abbrev pub Untouched : FilePath → StoreError → FileSystem → FileSystem → Type 0
  Untouched p e fs fs' =
      (read_file p fs'.files ≡ read_file p fs.files)
      ⊎ ((e ≡ os_error)
          × (path : FilePath) × (tmp : FilePath) × (mkstemp path fs ≡ some tmp)
          × (same_path tmp p ≡ true)
          × (read_file p fs.files ≡ none))

  -- After a store that returns, the path of the key has the content, unless it cannot be read, and
  -- every other path reads as before; it can be deleted, unless `unlink` fails, and then only that
  -- path reads otherwise.
  abbrev pub ReadsBack :
      FilePath
      → String
      → List ℕ
      → FileSystem
      → Result StoreError StorageMetadata × FileSystem
      → Type 0
  ReadsBack p key content fs (ok m, fs') =
      (path : FilePath) × (resolve root follow faults sha256 key ≡ ok path)
      × (m.size_bytes ≡ length content)
      × (m.etag ≡ some (sha256 content))
      × (read_file p fs'.files ≡ (if same_path path p then some content else read_file p fs.files))
      × (open_sync root follow faults sha256 key fs'
          ≡ ((if read_fails path fs' then err storage_unavailable else ok content), fs'))
      × ((unlink_fails path fs' ≡ true)
          ⊎ (((delete_sync root follow faults sha256 key fs').0 ≡ ok tt)
              × (read_file p (delete_sync root follow faults sha256 key fs').1.files
                  ≡ (if same_path path p then none else read_file p fs'.files))))
  ReadsBack p key content fs (err e, fs') = Untouched p e fs fs'
