-- ===== src/Files.antt =====
-- The access check on stored files, and their soft deletion
-- (src/modules/files/files.service.ts, `findFileWithAccessCheck` and `deleteFile`).
pub mod Visibility
pub mod Names
pub mod Paths
pub mod Transfer
pub mod Tests
use securevault_backend.Prelude.{
  ℕ, Bool, true, false, ◌&&◌, ◌||◌, not, Option, none, some, String, List, [], ◌∷◌, ◌==◌,
  if◌then◌else◌, is_some, find_one, update_one,
}
use securevault_backend.Schema.{
  File, AccessLevel, Role, same_role, AuthenticatedUser, AuditAction, Value, AuditEvent, Outcome,
}
use securevault_backend.World.{
  World, Action, Result, ok, throw, not_found, forbidden, pure, raise, or_raise, gets, modify, log,
  ◌>>=◌, ◌>>◌,
}

-- `{ uuid: fileId, isDeleted: false }`, and then `{ _id: fileId, isDeleted: false }`
abbrev pub by_uuid : ℕ → File → Bool
by_uuid file_id f = (f.uuid == file_id) && not f.is_deleted

abbrev pub by_id : ℕ → File → Bool
by_id file_id f = (f.id == file_id) && not f.is_deleted

abbrev pub first_of {ℓ} : {A : Type ℓ} → Option A → Option A → Option A
first_of none other = other
first_of (some a) other = some a

abbrev pub find_file : ℕ → World → Option File
find_file file_id w =
    first_of (find_one (by_uuid file_id) w.files) (find_one (by_id file_id) w.files)

abbrev pub is_owner : File → AuthenticatedUser → Bool
is_owner file user = file.uploaded_by == user.user_id

abbrev pub is_admin : AuthenticatedUser → Bool
is_admin user = same_role Role.super_admin user.role || same_role Role.admin user.role

abbrev pub is_manager : AuthenticatedUser → Bool
is_manager user = same_role user.role Role.manager

abbrev is_private : AccessLevel → Bool
is_private AccessLevel.personal = true
is_private _ = false

abbrev is_departmental : AccessLevel → Bool
is_departmental AccessLevel.department = true
is_departmental _ = false

-- The checks on a file that exists.
unfoldable pub check_file : File → AuthenticatedUser → Bool → Action File
check_file file user true =
    if not (is_owner file user) && not (is_admin user)
    then raise (forbidden "You do not have permission to perform this action")
    else pure file
check_file file user false =
    if is_private file.access_level && (not (is_owner file user) && not (is_admin user))
    then raise (forbidden "You do not have access to this file")
    else if is_departmental file.access_level
        && (not (is_owner file user) && (not (is_admin user) && not (is_manager user)))
    then raise (forbidden "You do not have access to this file")
    else pure file

unfoldable pub find_file_with_access_check : ℕ → AuthenticatedUser → Bool → Action File
find_file_with_access_check file_id user owner_or_admin_only = do
  found ← gets (find_file file_id)
  file ← or_raise found (not_found "File not found")
  check_file file user owner_or_admin_only

abbrev pub soft_delete : ℕ → ℕ → File → File
soft_delete now by f = record f { is_deleted = true; deleted_at = some now; deleted_by = some by }

-- The rest of `deleteFile`: the save and the audit event.
unfoldable pub remove_file : AuthenticatedUser → ℕ → File → Action (Unit {0})
remove_file user ip file = do
  modify λ w. record w {
    files = update_one (λ f. f.id == file.id) (soft_delete w.now user.user_id) w.files;
  }
  log (record {
    action = AuditAction.file_delete;
    resource = "file";
    resource_id = some file.uuid;
    user_id = some user.user_id;
    user_email = some user.email;
    user_role = some user.role;
    ip_address = some ip;
    user_agent = none;
    metadata = ("fileName", Value.num file.original_name) ∷ [];
    status = some Outcome.success;
  })

unfoldable pub delete_file : ℕ → AuthenticatedUser → ℕ → Action (Unit {0})
delete_file file_id user ip = do
  file ← find_file_with_access_check file_id user true
  remove_file user ip file
