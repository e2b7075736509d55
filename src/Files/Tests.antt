-- ===== src/Files/Tests.antt =====
-- A concrete file, and the theorems on who may read and delete it.
use securevault_backend.Prelude.{false, none, some, [], ◌∷◌, ◌≡◌, ◌↔◌}
use securevault_backend.Schema.{File, AccessLevel, Role, AuthenticatedUser}
use securevault_backend.World.{World, empty_world, ok}
use securevault_backend.Files.{find_file, find_file_with_access_check, delete_file}
use securevault_backend.Files.Visibility.{
  MayRead, MayDelete, marked_deleted, find_file_with_access_check-MayRead_iff,
  delete_file-MayDelete,
}

abbrev pub plan : File
plan = record {
  id = 4;
  uuid = 104;
  original_name = 1;
  storage_path = [];
  mime_type = 3;
  size = 10;
  checksum = 5;
  encryption_key_id = 6;
  encrypted_dek = [];
  encryption_iv = [];
  encryption_auth_tag = [];
  uploaded_by = 1;
  access_level = AccessLevel.department;
  department = none;
  description = none;
  is_deleted = false;
  deleted_at = none;
  deleted_by = none;
}

abbrev pub cabinet : World
cabinet = record empty_world { files = plan ∷ []; now = 30 }

abbrev pub reader : AuthenticatedUser
reader = record { user_id = 2; uuid = 12; email = 22; role = Role.manager }

find_file_with_access_check-MayRead_iff_example :
    (find_file_with_access_check 104 reader false cabinet ≡ (ok plan, cabinet))
    ↔ ((find_file 104 cabinet ≡ some plan) × MayRead plan reader)
find_file_with_access_check-MayRead_iff_example =
    find_file_with_access_check-MayRead_iff 104 reader cabinet plan

delete_file-MayDelete_example :
    (((delete_file 4 reader 9 cabinet).0 ≡ ok tt)
      ↔ ((file : File) × (find_file 4 cabinet ≡ some file) × MayDelete file reader))
    × ((file : File)
        → find_file 4 cabinet ≡ some file
        → MayDelete file reader
        → (delete_file 4 reader 9 cabinet).1.files ≡ marked_deleted file reader cabinet)
delete_file-MayDelete_example = delete_file-MayDelete 4 reader 9 cabinet
