-- ===== src/Users.antt =====
-- `UsersService` (src/modules/users/users.service.ts). Random bytes (the salt and the temporary
-- password that is generated) are arguments.
pub mod Attempts
pub mod Lockout
pub mod Revocation
pub mod Examples
mod Tests
use securevault_backend.Prelude.{
  ℕ, ◌+◌, ◌*◌, Bool, true, false, ◌&&◌, not, Option, none, some, List, [], ◌∷◌, ◌++◌, if◌then◌else◌,
  ltb, leb, ◌==◌, get_or, or_null, is_some, truthy, find_one, update_one, update_many,
}
use securevault_backend.Schema.{Role, User, RefreshToken}
use securevault_backend.World.{
  World, Action, ok, throw, Exception, conflict, not_found, duplicate_key, pure, raise, raise_if,
  gets, modify, clock, new_id, or_raise, ◌>>=◌, ◌>>◌,
}
use securevault_backend.Env.{Env}

pub record CreateUserDto : Type 0 where
  pub email : ℕ
  pub first_name : ℕ
  pub last_name : ℕ
  pub role : Option Role
  pub department : Option ℕ
  pub job_title : Option ℕ
  pub temporary_password : Option ℕ

pub record UpdateUserDto : Type 0 where
  pub first_name : Option ℕ
  pub last_name : Option ℕ
  pub role : Option Role
  pub department : Option ℕ
  pub job_title : Option ℕ
  pub is_active : Option Bool

-- `{ _id: id }`
abbrev pub user_by_id : ℕ → User → Bool
user_by_id id u = u.id == id

abbrev pub user_by_email : ℕ → User → Bool
user_by_email email u = u.email == email

abbrev pub not_deleted : User → Bool
not_deleted u = not (is_some u.deleted_at)

-- `findById(id).where({ deletedAt: null })`
unfoldable pub find_by_id : ℕ → Action (Option User)
find_by_id id = gets (λ w. find_one (λ u. user_by_id id u && not_deleted u) w.users)

unfoldable pub find_by_email : Env → ℕ → Action (Option User)
find_by_email env email =
    gets (λ w. find_one (λ u. user_by_email (env.to_lower_case email) u && not_deleted u) w.users)

unfoldable pub find_by_uuid : ℕ → Action (Option User)
find_by_uuid uuid = gets (λ w. find_one (λ u. (u.uuid == uuid) && not_deleted u) w.users)

-- `findByIdAndUpdate(id, change, { returnDocument: 'after' })`
unfoldable pub find_by_id_and_update : ℕ → (User → User) → Action (Option User)
find_by_id_and_update id change w =
    let users = update_one (user_by_id id) change w.users in
    (ok (find_one (user_by_id id) users), record w { users = users })

-- `userModel.create`: the unique index on the email refuses a second account.
unfoldable pub create_user_document : User → Action User
create_user_document user w =
    if is_some (find_one (user_by_email user.email) w.users)
    then (throw duplicate_key, w)
    else (ok user, record w { users = w.users ++ user ∷ [] })

-- `refreshTokenModel.updateMany({ userId }, { isRevoked: true })`
unfoldable pub revoke_all_tokens : ℕ → Action (Unit {0})
revoke_all_tokens user_id = modify λ w. record w {
  refresh_tokens =
      update_many (λ t. t.user_id == user_id) (λ t. record t { is_revoked = true })
        w.refresh_tokens;
}

-- `a || b` on texts
abbrev pub or_text : Option ℕ → ℕ → ℕ
or_text o d = if truthy o then get_or o d else d

abbrev pub new_user : CreateUserDto → ℕ → ℕ → ℕ → ℕ → ℕ → User
new_user dto email password_hash created_by id uuid = record {
  id = id;
  uuid = uuid;
  email = email;
  password_hash = password_hash;
  first_name = dto.first_name;
  last_name = dto.last_name;
  role = get_or dto.role Role.employee;
  is_active = true;
  is_first_login = true;
  must_change_password = true;
  temporary_password = none;
  password_changed_at = none;
  failed_login_attempts = 0;
  lockout_until = none;
  last_login_at = none;
  last_login_ip = none;
  department = or_null dto.department;
  job_title = or_null dto.job_title;
  created_by = some created_by;
  deleted_at = none;
  deleted_by = none;
}

-- `createUser`
unfoldable pub create_user : Env → CreateUserDto → ℕ → ℕ → ℕ → Action (User × ℕ)
unfolding create_user_document
create_user env dto created_by generated salt = do
  existing ← gets (λ w. find_one (user_by_email (env.to_lower_case dto.email)) w.users)
  raise_if (is_some existing) (conflict "A user with this email already exists")
  let temporary_password = or_text dto.temporary_password generated
  id ← new_id
  uuid ← new_id
  user ← create_user_document (
      new_user dto (env.to_lower_case dto.email) (env.bcrypt_hash temporary_password salt)
        created_by id uuid)
  pure (user, temporary_password)

-- `{ $set: dto }`: the fields that are given
abbrev pub set_dto : UpdateUserDto → User → User
set_dto dto u = record u {
  first_name = get_or dto.first_name u.first_name;
  last_name = get_or dto.last_name u.last_name;
  role = get_or dto.role u.role;
  is_active = get_or dto.is_active u.is_active;
  department = elim dto.department [ none ↦ u.department | some d ↦ some d ];
  job_title = elim dto.job_title [ none ↦ u.job_title | some t ↦ some t ];
}

unfoldable pub update_user : ℕ → UpdateUserDto → Action User
unfolding find_by_id_and_update
update_user id dto = do
  user ← find_by_id_and_update id (set_dto dto)
  or_raise user (not_found "User not found")

unfoldable pub activate_user : ℕ → Action User
unfolding find_by_id_and_update
activate_user id = do
  user ←
      find_by_id_and_update id
        (λ u. record u { is_active = true; failed_login_attempts = 0; lockout_until = none })
  or_raise user (not_found "User not found")

unfoldable pub deactivate_user : ℕ → Action User
unfolding find_by_id_and_update revoke_all_tokens
deactivate_user id = do
  found ← find_by_id_and_update id (λ u. record u { is_active = false })
  user ← or_raise found (not_found "User not found")
  revoke_all_tokens user.id
  pure user

-- What `resetPassword` saves.
abbrev pub reset_fields : Env → ℕ → ℕ → User → User
reset_fields env generated salt u = record u {
  password_hash = env.bcrypt_hash generated salt;
  is_first_login = true;
  must_change_password = true;
  failed_login_attempts = 0;
  lockout_until = none;
}

unfoldable pub reset_password : Env → ℕ → ℕ → ℕ → Action ℕ
unfolding revoke_all_tokens
reset_password env id generated salt = do
  found ← gets (λ w. find_one (user_by_id id) w.users)
  user ← or_raise found (not_found "User not found")
  modify
      λ w. record w { users = update_one (user_by_id id) (reset_fields env generated salt) w.users }
  revoke_all_tokens user.id
  pure generated

unfoldable pub change_role : ℕ → Role → Action User
unfolding find_by_id_and_update
change_role id role = do
  user ← find_by_id_and_update id (λ u. record u { role = role })
  or_raise user (not_found "User not found")

unfoldable pub update_password : ℕ → ℕ → Action (Unit {0})
unfolding find_by_id_and_update
update_password id new_password_hash = do
  now ← clock
  find_by_id_and_update id (λ u. record u {
    password_hash = new_password_hash;
    is_first_login = false;
    must_change_password = false;
    temporary_password = none;
    password_changed_at = some now;
  })
  pure tt

-- `seedSuperAdmin`
unfoldable pub seed_super_admin : Env → ℕ → ℕ → ℕ → ℕ → ℕ → ℕ → Action (Unit {0})
unfolding create_user_document
seed_super_admin env email password first_name last_name salt system w =
    if is_some (find_one (user_by_email (env.to_lower_case email)) w.users)
    then (ok tt, w)
    else (do
      id ← new_id
      uuid ← new_id
      create_user_document (record {
        id = id;
        uuid = uuid;
        email = env.to_lower_case email;
        password_hash = env.bcrypt_hash password salt;
        first_name = first_name;
        last_name = last_name;
        role = Role.super_admin;
        is_active = true;
        is_first_login = false;
        must_change_password = false;
        temporary_password = none;
        password_changed_at = none;
        failed_login_attempts = 0;
        lockout_until = none;
        last_login_at = none;
        last_login_ip = none;
        department = none;
        job_title = none;
        created_by = some system;
        deleted_at = none;
        deleted_by = none;
      })
      pure tt)
        w
