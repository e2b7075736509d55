-- ===== src/Users/Lockout.antt =====
-- The lockout of accounts: `recordLoginAttempt` and `isAccountLocked`
-- (src/modules/users/users.service.ts).
use securevault_backend.Users.Attempts.{
  lockout_end, failed_attempt, record_failure, record_login_attempt, is_account_locked,
  locked_until, unlock, max_failed_login_attempts,
}
use securevault_backend.Prelude.{
  ℕ, suc, ◌+◌, ◌≤◌, ◌<◌, true, false, none, some, List, [], ◌∷◌, ◌≡◌, refl, ◌↔◌, inl, inr, arith,
  Bool-cases, Option-cases, ltb, find_one, find_one-update_one, find_one-holds, length,
}
use securevault_backend.Schema.{User}
use securevault_backend.World.{World, ok}
use securevault_backend.Users.{user_by_id, find_by_id_and_update}

-- The world at another time.
abbrev pub at_time : ℕ → World → World
at_time t w = record w { now = t }

-- The world after failed attempts on an account at the given times, with no success between them.
unfoldable pub failures : List ℕ → ℕ → ℕ → World → World
unfolding record_login_attempt
failures [] id ip w = w
failures (t ∷ ts) id ip w = failures ts id ip (record_login_attempt id false ip (at_time t w)).1

record_login_attempt-found :
    (id ip : ℕ) (w : World) (u : User)
    → find_one (user_by_id id) w.users ≡ some u
    → find_one (user_by_id id) ((record_login_attempt id false ip w).1).users
      ≡ some (failed_attempt (u.failed_login_attempts + 1) w.now u)
unfolding record_login_attempt record_failure find_by_id_and_update
record_login_attempt-found id ip w u found = rw found (
    find_one-update_one (user_by_id id) _ w.users u found
      (let hit = find_one-holds (user_by_id id) w.users u found in ground arith))

-- The account after failed attempts counts them.
pub failures-found :
    (ts : List ℕ) (id ip : ℕ) (w : World) (u : User)
    → find_one (user_by_id id) w.users ≡ some u
    → (v : User) × (find_one (user_by_id id) (failures ts id ip w).users ≡ some v)
      × (v.failed_login_attempts ≡ u.failed_login_attempts + length ts)
unfolding failures
failures-found [] id ip w u found = (u, found, omega arith)
failures-found (t ∷ ts) id ip w u found =
    let now_found = record_login_attempt-found id ip (at_time t w) u found in
    let (v, later, count) =
      failures-found ts id ip (record_login_attempt id false ip (at_time t w)).1
        (failed_attempt (u.failed_login_attempts + 1) t u) now_found in
    (v, later, ground arith)

-- After failed attempts on an account that exists, at any times, where the last makes five or more
-- counted ones, the account is locked for thirty minutes from the last: `isAccountLocked` answers
-- true and changes nothing at every time up to the end of the lockout.
pub failures_lock :
    (ts : List ℕ) (t later id ip : ℕ) (w : World) (u : User)
    → find_one (user_by_id id) w.users ≡ some u
    → max_failed_login_attempts ≤ u.failed_login_attempts + suc (length ts)
    → later ≤ lockout_end t
    → (let w' =
          at_time later (record_login_attempt id false ip (at_time t (failures ts id ip w))).1 in
        (v : User) × (find_one (user_by_id id) w'.users ≡ some v)
        × (is_account_locked v w' ≡ (ok true, w')))
unfolding is_account_locked locked_until
failures_lock ts t later id ip w u found enough early =
    let (v, before, count) = failures-found ts id ip w u found in
    let last = record_login_attempt-found id ip (at_time t (failures ts id ip w)) v before in
    (failed_attempt (v.failed_login_attempts + 1) t v, last, ground arith)

-- `isAccountLocked` answers true, and changes nothing, exactly where the account has a lockout
-- that has not ended.
pub is_account_locked_iff :
    (u : User) (w : World)
    → (is_account_locked u w ≡ (ok true, w)) ↔ ((t : ℕ) × (u.lockout_until ≡ some t) × (w.now ≤ t))
unfolding is_account_locked locked_until unlock find_by_id_and_update
is_account_locked_iff u w = elim (Option-cases u.lockout_until) [
  | inl free ↦ rw free (λ h. absurd cc, λ h. absurd (let (t, e, _) = h in cc))
  | inr (t, locked) ↦ rw locked (
    λ h. (
      t,
      refl,
      elim (Bool-cases (ltb t w.now)) [
        | inl over ↦ absurd (let wrong = rw over at h in ground arith)
        | inr not_over ↦ ground arith
      ],
    ),
    λ h.
        let (s, same, early) = h in
        let not_over : ltb t w.now ≡ false = ground arith in rw not_over refl,
  )
]

-- Where the lockout of an account that exists has ended, `isAccountLocked` answers false, and afterwards the
-- account has no lockout and no failed attempts and is otherwise as it was.
pub is_account_locked_ends :
    (u : User) (t : ℕ) (w : World)
    → find_one (user_by_id u.id) w.users ≡ some u
    → u.lockout_until ≡ some t
    → t < w.now
    → ((is_account_locked u w).0 ≡ ok false)
      × (find_one (user_by_id u.id) (is_account_locked u w).1.users
          ≡ some (record u { failed_login_attempts = 0; lockout_until = none }))
unfolding is_account_locked locked_until unlock find_by_id_and_update
is_account_locked_ends u t w found locked late =
    let over : ltb t w.now ≡ true = ground arith in
    rw (locked, over)
      (
        refl,
        find_one-update_one (user_by_id u.id)
            (λ v. record v { failed_login_attempts = 0; lockout_until = none }) w.users u found
            (ground arith),
      )
