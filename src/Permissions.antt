-- ===== src/Permissions.antt =====
-- Roles and permissions (src/modules/permissions) and the guard of the routes by roles
-- (src/modules/auth/guards/roles.guard.ts).
pub mod Laws
mod Tests
use securevault_backend.Prelude.{
  ℕ, Bool, true, false, ◌&&◌, ◌||◌, not, Option, none, some, List, [], ◌∷◌, if◌then◌else◌, leb,
  ◌==◌, is_some, find_one,
}
use securevault_backend.Schema.{Role, same_role, Permission, PermissionOverride}
use securevault_backend.World.{
  World, Action, Result, ok, throw, Exception, forbidden, pure, gets, ◌>>=◌,
}

-- `ROLE_HIERARCHY`
unfoldable pub role_hierarchy : Role → ℕ
role_hierarchy Role.super_admin = 100
role_hierarchy Role.admin = 80
role_hierarchy Role.manager = 60
role_hierarchy Role.employee = 40
role_hierarchy Role.viewer = 20

unfoldable pub has_higher_or_equal_role : Role → Role → Bool
unfolding role_hierarchy
has_higher_or_equal_role a b = leb (role_hierarchy b) (role_hierarchy a)

-- The place of a permission in its enumeration: `===` compares these.
unfoldable pub permission_index : Permission → ℕ
permission_index Permission.user_create = 0
permission_index Permission.user_read = 1
permission_index Permission.user_update = 2
permission_index Permission.user_delete = 3
permission_index Permission.user_activate = 4
permission_index Permission.user_deactivate = 5
permission_index Permission.user_reset_password = 6
permission_index Permission.user_assign_role = 7
permission_index Permission.file_upload = 8
permission_index Permission.file_download = 9
permission_index Permission.file_read = 10
permission_index Permission.file_delete = 11
permission_index Permission.file_manage = 12
permission_index Permission.file_share = 13
permission_index Permission.admin_access = 14
permission_index Permission.admin_audit_read = 15
permission_index Permission.admin_system_manage = 16
permission_index Permission.audit_read = 17
permission_index Permission.audit_export = 18

abbrev pub same_permission : Permission → Permission → Bool
same_permission p q = permission_index p == permission_index q

-- `permissions.includes(p)`
unfoldable pub includes : List Permission → Permission → Bool
includes [] p = false
includes (q ∷ qs) p = same_permission q p || includes qs p

-- `Object.values(Permission)`
abbrev pub all_permissions : List Permission
all_permissions =
    Permission.user_create ∷ Permission.user_read ∷ Permission.user_update ∷ Permission.user_delete
    ∷ Permission.user_activate ∷ Permission.user_deactivate ∷ Permission.user_reset_password
    ∷ Permission.user_assign_role ∷ Permission.file_upload ∷ Permission.file_download
    ∷ Permission.file_read ∷ Permission.file_delete ∷ Permission.file_manage ∷ Permission.file_share
    ∷ Permission.admin_access ∷ Permission.admin_audit_read ∷ Permission.admin_system_manage
    ∷ Permission.audit_read ∷ Permission.audit_export ∷ []

-- `ROLE_PERMISSIONS`
unfoldable pub role_permissions : Role → List Permission
role_permissions Role.super_admin = all_permissions
role_permissions Role.admin =
    Permission.user_create ∷ Permission.user_read ∷ Permission.user_update
    ∷ Permission.user_activate ∷ Permission.user_deactivate ∷ Permission.user_reset_password
    ∷ Permission.user_assign_role ∷ Permission.file_upload ∷ Permission.file_download
    ∷ Permission.file_read ∷ Permission.file_delete ∷ Permission.file_manage ∷ Permission.file_share
    ∷ Permission.admin_access ∷ Permission.admin_audit_read ∷ Permission.audit_read ∷ []
role_permissions Role.manager =
    Permission.user_read ∷ Permission.file_upload ∷ Permission.file_download ∷ Permission.file_read
    ∷ Permission.file_delete ∷ Permission.file_share ∷ Permission.admin_access
    ∷ Permission.audit_read ∷ []
role_permissions Role.employee =
    Permission.file_upload ∷ Permission.file_download ∷ Permission.file_read
    ∷ Permission.file_delete ∷ Permission.file_share ∷ []
role_permissions Role.viewer = Permission.file_download ∷ Permission.file_read ∷ []

-- `{ role, permission, allowed: true }`
abbrev pub override_for : Role → Permission → PermissionOverride → Bool
override_for role permission o =
    same_role o.role role && (same_permission o.permission permission && o.allowed)

-- `hasPermission`
unfoldable pub has_permission : Role → Permission → Action Bool
unfolding includes role_permissions permission_index
has_permission role permission w =
    if includes (role_permissions role) permission
    then (ok true, w)
    else (ok (is_some (find_one (override_for role permission) w.permissions)), w)

-- `permissions.some(p => rolePerms.includes(p))`
unfoldable pub has_any_permission : Role → List Permission → Bool
unfolding includes role_permissions permission_index
has_any_permission role [] = false
has_any_permission role (p ∷ ps) = includes (role_permissions role) p || has_any_permission role ps

-- `permissions.every(p => rolePerms.includes(p))`
unfoldable pub has_all_permissions : Role → List Permission → Bool
unfolding includes role_permissions permission_index
has_all_permissions role [] = true
has_all_permissions role (p ∷ ps) =
    includes (role_permissions role) p && has_all_permissions role ps

abbrev includes_role : List Role → Role → Bool
includes_role [] r = false
includes_role (q ∷ qs) r = same_role q r || includes_role qs r

-- `RolesGuard.canActivate`: the roles that the route requires, and the role of the request's user,
-- `none` where there is no user or no role.
unfoldable pub can_activate : List Role → Option Role → Result Bool
can_activate [] user = ok true
can_activate (r ∷ rs) none = throw (forbidden "Access denied: No role assigned")
can_activate (r ∷ rs) (some role) =
    if includes_role (r ∷ rs) role
    then ok true
    else throw (forbidden "Access denied: Required role(s)")
