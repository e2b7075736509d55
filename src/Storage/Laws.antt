-- ===== src/Storage/Laws.antt =====
-- Writing and reading stored files.
use securevault_backend.Prelude.{
  ℕ, false, some, ◌≡◌, refl, ◌∙◌, Bytes, Text, length, same_text, lookup, insert,
}
use securevault_backend.World.{World, ok, failure, pure, gets, or_raise, modify, ◌>>=◌, ◌>>◌}
use securevault_backend.World.Laws.{bind-ok, raise_if-passes, or_raise-some}
use securevault_backend.Storage.{Disk, StorageResult, get_full_path, write_file, upload, download}
use securevault_backend.Storage.Paths.{full_path}

write_file-ok :
    (disk : Disk) (path : Text) (bytes : Bytes) (w : World)
    → disk.refuses_write path w ≡ false
    → write_file disk path bytes w
      ≡ (ok tt, record w { storage = insert same_text path bytes w.storage })
write_file-ok disk path bytes w writable =
    raise_if-passes (disk.refuses_write path w) (failure "EIO")
      (modify λ v. record v { storage = insert same_text path bytes v.storage }) w writable

module _ (disk : Disk) (file_path path : Text) (bytes : Bytes) (w : World) where
  module _ (placed : full_path disk.base_path file_path ≡ some path) where
    pub upload-ok :
        (sha256 : Bytes → ℕ)
        → disk.refuses_write path w ≡ false
        → upload disk sha256 file_path bytes w ≡ (
          ok (record { path = file_path; size = length bytes; checksum = sha256 bytes }),
          record w { storage = insert same_text path bytes w.storage },
        )
    unfolding upload get_full_path
    upload-ok sha256 writable =
        let result : StorageResult = record {
          path = file_path;
          size = length bytes;
          checksum = sha256 bytes;
        } in
        or_raise-some (full_path disk.base_path file_path) path (failure "Path traversal detected")
          (λ p. write_file disk p bytes >> pure result) w placed
        ∙ bind-ok (write_file disk path bytes) (λ _. pure result) w _ tt
            (write_file-ok disk path bytes w writable)

    pub download-ok :
        lookup same_text path w.storage ≡ some bytes → download disk file_path w ≡ (ok bytes, w)
    unfolding download get_full_path
    download-ok stored =
        or_raise-some (full_path disk.base_path file_path) path (failure "Path traversal detected")
          (λ p.
            gets (λ v. lookup same_text p v.storage) >>= λ found. or_raise found (failure "ENOENT"))
          w placed
        ∙ rw stored refl
