-- ===== src/Auth/Passwords.antt =====
-- The changes of passwords (src/modules/auth/auth.service.ts).
use securevault_backend.Prelude.{ℕ, not}
use securevault_backend.World.{
  Action, raise_if, or_raise, unauthorized, forbidden, type_error, ◌>>=◌, ◌>>◌,
}
use securevault_backend.Env.{Env}
use securevault_backend.Users.{find_by_id, update_password, revoke_all_tokens}
use securevault_backend.Auth.{Tokens, generate_tokens}

unfoldable pub change_password : Env → ℕ → ℕ → ℕ → ℕ → Action (Unit {0})
change_password env user_id current_password new_password salt = do
  found ← find_by_id user_id
  user ← or_raise found (unauthorized "User not found")
  raise_if (not (env.bcrypt_compare current_password user.password_hash))
      (unauthorized "Current password is incorrect")
  update_password user_id (env.bcrypt_hash new_password salt)
  revoke_all_tokens user.id

-- The account is read again at the end; the code takes it to be there.
unfoldable pub force_change_password : Env → ℕ → ℕ → ℕ → ℕ → Action Tokens
force_change_password env user_id temporary_password new_password salt = do
  found ← find_by_id user_id
  user ← or_raise found (unauthorized "User not found")
  raise_if (not user.must_change_password) (forbidden "Password change is not required")
  raise_if (not (env.bcrypt_compare temporary_password user.password_hash))
      (unauthorized "Temporary password is incorrect")
  update_password user_id (env.bcrypt_hash new_password salt)
  revoke_all_tokens user.id
  updated ← find_by_id user_id
  updated_user ← or_raise updated type_error
  generate_tokens env updated_user
