-- ===== src/Admin.antt =====
-- `AdminService` (src/modules/admin/admin.service.ts), its management of accounts.
pub mod Escalation
pub mod Desk
mod Tests
use securevault_backend.Prelude.{
  ℕ, Bool, true, false, not, Option, none, some, String, List, [], ◌∷◌, ◌++◌, ◌==◌, if◌then◌else◌,
  leb, get_or, is_some,
}
use securevault_backend.Schema.{
  Role, same_role, User, AuthenticatedUser, AuditAction, Value, AuditEvent, Outcome,
}
use securevault_backend.World.{World, Action, pure, raise_if, log, forbidden, ◌>>=◌, ◌>>◌}
use securevault_backend.Env.{Env}
use securevault_backend.Permissions.{role_hierarchy}
use securevault_backend.Users
use securevault_backend.Users.{CreateUserDto, UpdateUserDto}

-- `validateRoleChange`
unfoldable pub validate_role_change : AuthenticatedUser → Role → Action (Unit {0})
unfolding role_hierarchy
validate_role_change admin target_role =
    raise_if (leb (role_hierarchy admin.role) (role_hierarchy target_role))
      (forbidden "You cannot assign a role equal to or higher than your own")

-- The event of an operation of an administrator on an account.
abbrev pub user_event : AuditAction → ℕ → AuthenticatedUser → ℕ → List (String × Value) → AuditEvent
user_event action resource_id admin ip metadata = record {
  action = action;
  resource = "user";
  resource_id = some resource_id;
  user_id = some admin.user_id;
  user_email = some admin.email;
  user_role = some admin.role;
  ip_address = some ip;
  user_agent = none;
  metadata = metadata;
  status = some Outcome.success;
}

pub record CreatedUser : Type 0 where
  pub id : ℕ
  pub uuid : ℕ
  pub email : ℕ
  pub first_name : ℕ
  pub last_name : ℕ
  pub role : Role
  pub is_active : Bool
  pub temporary_password : ℕ

abbrev pub created_user : User → ℕ → CreatedUser
created_user user temporary_password = record {
  id = user.id;
  uuid = user.uuid;
  email = user.email;
  first_name = user.first_name;
  last_name = user.last_name;
  role = user.role;
  is_active = user.is_active;
  temporary_password = temporary_password;
}

unfoldable pub create_user :
    Env → CreateUserDto → AuthenticatedUser → ℕ → ℕ → ℕ → Action CreatedUser
unfolding validate_role_change
create_user env dto admin ip generated salt = do
  let target_role = get_or dto.role Role.employee
  validate_role_change admin target_role
  created ← Users.create_user env dto admin.user_id generated salt
  let (user, temporary_password) = created
  log (
      user_event AuditAction.user_create user.uuid admin ip
        (("createdUserEmail", Value.num dto.email) ∷ ("assignedRole", Value.role target_role) ∷ []))
  pure (created_user user temporary_password)

abbrev given {ℓ} : {A : Type ℓ} → Option A → String → List String
given none name = []
given (some _) name = name ∷ []

-- `Object.keys(dto)`: the fields that are given, in the order of the class
abbrev pub updated_fields : UpdateUserDto → List String
updated_fields dto =
    given dto.first_name "firstName"
    ++ given dto.last_name "lastName"
    ++ given dto.role "role"
    ++ given dto.department "department"
    ++ given dto.job_title "jobTitle"
    ++ given dto.is_active "isActive"

-- The end of `updateUser`: the audit event, and the account.
abbrev pub updated : UpdateUserDto → AuthenticatedUser → ℕ → User → Action User
updated dto admin ip user = do
  log (
      user_event AuditAction.user_update user.uuid admin ip
        (("updatedFields", Value.strings (updated_fields dto)) ∷ []))
  pure user

unfoldable pub update_user : ℕ → UpdateUserDto → AuthenticatedUser → ℕ → Action User
update_user id dto admin ip = do user ← Users.update_user id dto; updated dto admin ip user

unfoldable pub activate_user : ℕ → AuthenticatedUser → ℕ → Action User
activate_user id admin ip = do
  user ← Users.activate_user id
  log (user_event AuditAction.user_activate user.uuid admin ip [])
  pure user

unfoldable pub deactivate_user : ℕ → AuthenticatedUser → ℕ → Action User
deactivate_user id admin ip = do
  raise_if (id == admin.user_id) (forbidden "You cannot deactivate your own account")
  user ← Users.deactivate_user id
  log (user_event AuditAction.user_deactivate user.uuid admin ip [])
  pure user

unfoldable pub reset_user_password : Env → ℕ → AuthenticatedUser → ℕ → ℕ → ℕ → Action ℕ
reset_user_password env id admin ip generated salt = do
  result ← Users.reset_password env id generated salt
  log (user_event AuditAction.password_reset id admin ip [])
  pure result

unfoldable pub change_user_role : ℕ → Role → AuthenticatedUser → ℕ → Action User
unfolding validate_role_change
change_user_role id role admin ip = do
  raise_if (not (same_role admin.role Role.super_admin))
      (forbidden "Only SUPER_ADMIN can change user roles")
  raise_if (id == admin.user_id) (forbidden "You cannot change your own role")
  validate_role_change admin role
  user ← Users.change_role id role
  log (
      user_event AuditAction.user_role_change user.uuid admin ip
        (("newRole", Value.role role) ∷ []))
  pure user
