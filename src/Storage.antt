-- ===== src/Storage.antt =====
-- Stored files on the local disk: src/modules/storage (StorageService, which passes every call on,
-- and LocalStorageProvider). The state holds the bytes of each file under its full path.
pub mod Paths
pub mod Laws
use securevault_backend.Prelude.{
  Bool, Option, none, some, List, ◌≡◌, length, ℕ, Bytes, Text, same_text, lookup, insert, remove,
  is_some, false,
}
use securevault_backend.World.{
  World, Action, failure, pure, or_raise, raise_if, gets, modify, ◌>>=◌, ◌>>◌,
}
use securevault_backend.Storage.Paths.{full_path}

-- The directory of the uploads, resolved, and what the disk does in the world given: whether it
-- refuses to write, or to remove, the file with a path.
pub record Disk : Type 0 where
  pub base_path : Text
  pub refuses_write : Text → World → Bool
  pub refuses_unlink : Text → World → Bool

pub record StorageResult : Type 0 where
  pub path : Text
  pub size : ℕ
  pub checksum : ℕ

module _ (disk : Disk) where
  unfoldable pub get_full_path : Text → Action Text
  get_full_path file_path =
      or_raise (full_path disk.base_path file_path) (failure "Path traversal detected")

  -- `fs.writeFile`
  abbrev pub write_file : Text → Bytes → Action (Unit {0})
  write_file path bytes w =
      (raise_if (disk.refuses_write path w) (failure "EIO")
          >> modify (λ v. record v { storage = insert same_text path bytes v.storage }))
        w

  unfoldable pub upload : (Bytes → ℕ) → Text → Bytes → Action StorageResult
  upload sha256 file_path bytes = do
    path ← get_full_path file_path
    write_file path bytes
    pure (record { path = file_path; size = length bytes; checksum = sha256 bytes })

  unfoldable pub download : Text → Action Bytes
  download file_path = do
    path ← get_full_path file_path
    found ← gets (λ w. lookup same_text path w.storage)
    or_raise found (failure "ENOENT")

  -- A file that is not there is no error.
  abbrev pub unlink : Text → Action (Unit {0})
  unlink path w =
      (raise_if (disk.refuses_unlink path w) (failure "EIO")
          >> modify (λ v. record v { storage = remove same_text path v.storage }))
        w

  unfoldable pub delete : Text → Action (Unit {0})
  delete file_path = do path ← get_full_path file_path; unlink path

  unfoldable pub exists : Text → World → Bool
  exists file_path w = elim (full_path disk.base_path file_path) [
    | none ↦ false
    | some path ↦ is_some (lookup same_text path w.storage)
  ]
