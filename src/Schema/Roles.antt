-- ===== src/Schema/Roles.antt =====
-- The roles of accounts and the identity that a request carries
-- (src/modules/permissions/constants/roles.enum.ts, src/modules/auth/interfaces).
use securevault_backend.Prelude.{ℕ, Bool, true, false}

pub data Role : Type 0 where
  super_admin admin manager employee viewer : Role

-- `===` on roles
abbrev pub same_role : Role → Role → Bool
same_role Role.super_admin Role.super_admin = true
same_role Role.admin Role.admin = true
same_role Role.manager Role.manager = true
same_role Role.employee Role.employee = true
same_role Role.viewer Role.viewer = true
same_role _ _ = false

pub record AuthenticatedUser : Type 0 where
  pub user_id : ℕ
  pub uuid : ℕ
  pub email : ℕ
  pub role : Role

pub data Permission : Type 0 where
  user_create user_read user_update user_delete user_activate user_deactivate : Permission
  user_reset_password user_assign_role : Permission
  file_upload file_download file_read file_delete file_manage file_share : Permission
  admin_access admin_audit_read admin_system_manage : Permission
  audit_read audit_export : Permission

-- An entry of the permission collection, which overrides the matrix.
pub record PermissionOverride : Type 0 where
  pub role : Role
  pub resource : ℕ
  pub action : ℕ
  pub permission : Permission
  pub allowed : Bool
