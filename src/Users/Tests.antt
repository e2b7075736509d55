-- ===== src/Users/Tests.antt =====
-- Concrete accounts, and the theorems on lockouts and revocations at them.
use securevault_backend.Users.Attempts.{record_login_attempt, is_account_locked}
use securevault_backend.Prelude.{
  true, false, none, some, [], ◌∷◌, ◌≡◌, refl, arith, find_one, count_documents,
}
use securevault_backend.Schema.{User}
use securevault_backend.World.{ok}
use securevault_backend.Users.{user_by_id, deactivate_user, reset_password}
use securevault_backend.Users.Examples.{plain_env, alice, office}
use securevault_backend.Users.Lockout.{at_time, failures, failures_lock}
use securevault_backend.Users.Revocation.{
  live_token_of, deactivate_user_revokes, reset_password_revokes,
}

failures_lock_example :
    (let w' =
        at_time 1800040
          (record_login_attempt 1 false 9
            (at_time 50 (failures (10 ∷ 20 ∷ 30 ∷ 40 ∷ []) 1 9 office))).1 in
      (v : User) × (find_one (user_by_id 1) w'.users ≡ some v)
      × (is_account_locked v w' ≡ (ok true, w')))
failures_lock_example =
    failures_lock (10 ∷ 20 ∷ 30 ∷ 40 ∷ []) 50 1800040 1 9 office alice refl (omega arith)
      (omega arith)

deactivate_user_revokes_example :
    ((deactivate_user 1 office).0 ≡ ok (record alice { is_active = false }))
    × (find_one (user_by_id 1) (deactivate_user 1 office).1.users
        ≡ some (record alice { is_active = false }))
    × (count_documents (live_token_of 1) (deactivate_user 1 office).1.refresh_tokens ≡ 0)
deactivate_user_revokes_example = deactivate_user_revokes 1 office alice refl

reset_password_revokes_example :
    (let (r, w') = reset_password plain_env 1 77 5 office in
      (r ≡ ok 77)
      × ((v : User) × (find_one (user_by_id 1) w'.users ≡ some v)
          × (v.password_hash ≡ 1077)
          × (v.must_change_password ≡ true)
          × (v.lockout_until ≡ none)
          × (v.failed_login_attempts ≡ 0))
      × (count_documents (live_token_of 1) w'.refresh_tokens ≡ 0))
reset_password_revokes_example = reset_password_revokes plain_env 1 77 5 office alice refl
