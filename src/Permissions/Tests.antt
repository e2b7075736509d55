-- ===== src/Permissions/Tests.antt =====
-- The permission checks on concrete roles, and the theorems at them.
use securevault_backend.Prelude.{true, false, [], ◌∷◌, ◌≡◌, refl}
use securevault_backend.Schema.{Role, Permission}
use securevault_backend.Permissions.{has_any_permission, has_all_permissions}

any_and_all :
    (has_any_permission Role.viewer (Permission.file_delete ∷ Permission.file_read ∷ []) ≡ true)
    × (has_all_permissions Role.viewer (Permission.file_delete ∷ Permission.file_read ∷ []) ≡ false)
unfolding has_any_permission has_all_permissions
any_and_all = (refl, refl)
