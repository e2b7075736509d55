-- ===== src/Users/Attempts.antt =====
-- The counting of failed logins and the lockout of accounts: `recordLoginAttempt` and
-- `isAccountLocked` (src/modules/users/users.service.ts).
use securevault_backend.Prelude.{
  ℕ, ◌+◌, ◌*◌, Bool, true, false, Option, none, some, if◌then◌else◌, ltb, leb, find_one,
}
use securevault_backend.Schema.{User}
use securevault_backend.World.{Action, pure, gets, clock, ◌>>=◌, ◌>>◌}
use securevault_backend.Users.{user_by_id, find_by_id_and_update}

-- `MAX_FAILED_LOGIN_ATTEMPTS` and `LOCKOUT_DURATION_MINUTES`
abbrev pub max_failed_login_attempts : ℕ
max_failed_login_attempts = 5

abbrev pub lockout_duration_minutes : ℕ
lockout_duration_minutes = 30

-- `Date.now() + LOCKOUT_DURATION_MINUTES * 60 * 1000`
abbrev pub lockout_end : ℕ → ℕ
lockout_end now = now + lockout_duration_minutes * 60 * 1000

-- The update of a failed attempt: the counter that was read, plus one, and the lock.
abbrev pub failed_attempt : ℕ → ℕ → User → User
failed_attempt attempts now u =
    let counted = record u { failed_login_attempts = attempts } in
    if leb max_failed_login_attempts attempts
    then record counted { lockout_until = some (lockout_end now) }
    else counted

unfoldable pub record_failure : Option User → ℕ → Action (Unit {0})
unfolding find_by_id_and_update
record_failure none id = pure tt
record_failure (some user) id = do
  now ← clock
  find_by_id_and_update id (failed_attempt (user.failed_login_attempts + 1) now)
  pure tt

unfoldable pub record_login_attempt : ℕ → Bool → ℕ → Action (Unit {0})
unfolding find_by_id_and_update record_failure
record_login_attempt id true ip = do
  now ← clock
  find_by_id_and_update id (λ u. record u {
    failed_login_attempts = 0;
    lockout_until = none;
    last_login_at = some now;
    last_login_ip = some ip;
  })
  pure tt
record_login_attempt id false ip = do
  user ← gets (λ w. find_one (user_by_id id) w.users)
  record_failure user id

unfoldable pub unlock : ℕ → Action Bool
unfolding find_by_id_and_update
unlock id = do
  find_by_id_and_update id (λ u. record u { failed_login_attempts = 0; lockout_until = none })
  pure false

unfoldable pub locked_until : Option ℕ → ℕ → Action Bool
unfolding unlock
locked_until none id = pure false
locked_until (some until) id = do now ← clock; if ltb until now then unlock id else pure true

unfoldable pub is_account_locked : User → Action Bool
unfolding locked_until
is_account_locked user = locked_until user.lockout_until user.id
