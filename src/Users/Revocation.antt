-- ===== src/Users/Revocation.antt =====
-- Refresh tokens after deactivations and password resets (src/modules/users/users.service.ts).
use securevault_backend.Prelude.{
  ℕ, Bool, true, false, ◌&&◌, not, none, some, ◌≡◌, refl, arith, ◌==◌, find_one, count_documents,
  find_one-holds, count_documents-update_all, update_one, find_one-update_one,
}
use securevault_backend.Schema.{User, RefreshToken}
use securevault_backend.World.{World, ok}
use securevault_backend.Env.{Env}
use securevault_backend.Users.{
  user_by_id, find_by_id_and_update, revoke_all_tokens, deactivate_user, reset_password,
  reset_fields,
}

-- The refresh tokens of an account that can still be used.
abbrev pub live_token_of : ℕ → RefreshToken → Bool
live_token_of id t = (t.user_id == id) && not t.is_revoked

pub revoke_all_tokens_none :
    (id key : ℕ) (w : World)
    → key ≡ id
    → count_documents (live_token_of id) (revoke_all_tokens key w).1.refresh_tokens ≡ 0
unfolding revoke_all_tokens
revoke_all_tokens_none id key w same =
    count_documents-update_all (live_token_of id) (λ t. t.user_id == key)
      (λ t. record t { is_revoked = true }) w.refresh_tokens (λ t h. ground arith)
      (λ t h. ground arith)

-- Deactivating an account that exists succeeds, and leaves it inactive, without a refresh token
-- that can be used.
pub deactivate_user_revokes :
    (id : ℕ) (w : World) (u : User)
    → find_one (user_by_id id) w.users ≡ some u
    → ((deactivate_user id w).0 ≡ ok (record u { is_active = false }))
      × (find_one (user_by_id id) (deactivate_user id w).1.users
          ≡ some (record u { is_active = false }))
      × (count_documents (live_token_of id) (deactivate_user id w).1.refresh_tokens ≡ 0)
unfolding deactivate_user find_by_id_and_update
deactivate_user_revokes id w u found =
    let hit = find_one-holds (user_by_id id) w.users u found in
    let same : u.id ≡ id = ground arith in
    let changed =
      find_one-update_one (user_by_id id) (λ v. record v { is_active = false }) w.users u found
        (ground arith) in
    let none_left =
      revoke_all_tokens_none id u.id
        (record w {
          users = update_one (user_by_id id) (λ v. record v { is_active = false }) w.users;
        })
        same in
    rw changed (unfold revoke_all_tokens in (refl, changed, none_left))

-- Resetting the password of an account that exists returns the new password. The stored hash is
-- of that password, which must be changed at the next login, no lockout is left, and no refresh
-- token of the account can be used.
pub reset_password_revokes :
    (env : Env) (id generated salt : ℕ) (w : World) (u : User)
    → find_one (user_by_id id) w.users ≡ some u
    → (let (r, w') = reset_password env id generated salt w in
        (r ≡ ok generated)
        × ((v : User) × (find_one (user_by_id id) w'.users ≡ some v)
            × (v.password_hash ≡ env.bcrypt_hash generated salt)
            × (v.must_change_password ≡ true)
            × (v.lockout_until ≡ none)
            × (v.failed_login_attempts ≡ 0))
        × (count_documents (live_token_of id) w'.refresh_tokens ≡ 0))
unfolding reset_password revoke_all_tokens
reset_password_revokes env id generated salt w u found =
    let hit = find_one-holds (user_by_id id) w.users u found in
    let same : u.id ≡ id = ground arith in
    let changed =
      find_one-update_one (user_by_id id) (reset_fields env generated salt) w.users u found
        (ground arith) in
    rw found (
      refl,
      (reset_fields env generated salt u, changed, refl, refl, refl, refl),
      revoke_all_tokens_none id u.id w same,
    )
