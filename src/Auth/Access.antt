-- ===== src/Auth/Access.antt =====
-- Who gets in by a password: `login` (src/modules/auth/auth.service.ts).
use securevault_backend.Users.Attempts.{
  is_account_locked, locked_until, unlock, record_failure, record_login_attempt,
}
use securevault_backend.Prelude.{
  ℕ, ◌/◌, ◌≤◌, ◌<◌, Bool, true, false, ◌&&◌, not, Option, none, some, ◌≡◌, refl, ◌∙◌, sym, ap, ◌⊎◌,
  inl, inr, arith, ◌==◌, ltb, is_some, find_one, Bool-cases, Option-cases,
}
use securevault_backend.Schema.{User}
use securevault_backend.World.{World, ok, throw, unauthorized, forbidden, raise, pure, ◌>>=◌, ◌>>◌}
use securevault_backend.World.Laws.{bind-ok, bind-throw, raise_if-passes, raise_if-stops}
use securevault_backend.Env.{Env, HashLaws, TokenType}
use securevault_backend.Users.{
  user_by_id, user_by_email, not_deleted, find_by_email, find_by_id_and_update,
}
use securevault_backend.Users.Lockout.{is_account_locked_iff}
use securevault_backend.Auth.Rotation.{has_hash, tokens_of, issue-fresh}
use securevault_backend.Auth.{
  payload_of, LoginDto, LoginResponse, check_password, login, login_to, login_unless, respond,
  login_response, issue, generate_tokens, store_refresh_token, create_refresh_token,
}

-- The account that a login names.
abbrev pub account_of : Env → ℕ → World → Option User
account_of env email w =
    find_one (λ u. user_by_email (env.to_lower_case email) u && not_deleted u) w.users

login_to-active :
    (env : Env) (dto : LoginDto) (ip agent : ℕ) (w : World) (u : User)
    → account_of env dto.email w ≡ some u
    → u.is_active ≡ true
    → login env dto ip agent w ≡ (is_account_locked u >>= login_unless env u dto ip agent) w
unfolding login find_by_email
login_to-active env dto ip agent w u found active =
    let passes =
      raise_if-passes (not u.is_active)
        (forbidden "Account is deactivated. Contact your administrator.")
        (is_account_locked u >>= login_unless env u dto ip agent) w (ground arith) in
    rw found passes

-- Until the lockout of an active account has ended, a login is refused whatever the password is,
-- and changes nothing: the attempts are not counted further.
pub login_locked :
    (env : Env) (dto : LoginDto) (ip agent t : ℕ) (w : World) (u : User)
    → account_of env dto.email w ≡ some u
    → u.is_active ≡ true
    → u.lockout_until ≡ some t
    → w.now ≤ t
    → login env dto ip agent w ≡ (
      throw (
          forbidden
            "Account is temporarily locked due to multiple failed login attempts. Try again later."),
      w,
    )
login_locked env dto ip agent t w u found active locked early =
    let held = (is_account_locked_iff u w).1 (t, locked, early) in
    login_to-active env dto ip agent w u found active
    ∙ bind-ok (is_account_locked u) (login_unless env u dto ip agent) w w true held

record_login_attempt-ok :
    (id ip : ℕ) (success : Bool) (w : World)
    → record_login_attempt id success ip w ≡ (ok tt, (record_login_attempt id success ip w).1)
unfolding record_login_attempt record_failure find_by_id_and_update
record_login_attempt-ok id ip true w = refl
record_login_attempt-ok id ip false w = elim (Option-cases (find_one (user_by_id id) w.users)) [
  | inl missing ↦ rw missing refl
  | inr (u, found) ↦ rw found refl
]

check_password-wrong :
    (env : Env) (dto : LoginDto) (ip : ℕ) (w : World) (u : User)
    → env.bcrypt_compare dto.password u.password_hash ≡ false
    → check_password env u dto ip w
      ≡ (throw (unauthorized "Invalid credentials"), (record_login_attempt u.id false ip w).1)
unfolding check_password
check_password-wrong env dto ip w u wrong = rw wrong (
    bind-ok (record_login_attempt u.id false ip) (λ _. raise (unauthorized "Invalid credentials")) w
      _ tt (record_login_attempt-ok u.id ip false w))

check_password-right :
    (env : Env) (dto : LoginDto) (ip : ℕ) (w : World) (u : User)
    → env.bcrypt_compare dto.password u.password_hash ≡ true
    → check_password env u dto ip w ≡ (ok tt, (record_login_attempt u.id true ip w).1)
unfolding check_password
check_password-right env dto ip w u right = rw right (record_login_attempt-ok u.id ip true w)

is_account_locked-free :
    (u : User) (w : World) → u.lockout_until ≡ none → is_account_locked u w ≡ (ok false, w)
unfolding is_account_locked locked_until
is_account_locked-free u w free = rw free refl

is_account_locked-cases :
    (u : User) (w : World)
    → (is_account_locked u w ≡ (ok true, w))
      ⊎ ((w' : World) × (is_account_locked u w ≡ (ok false, w'))
          × ((t : ℕ) → u.lockout_until ≡ some t → t < w.now))
unfolding is_account_locked locked_until unlock find_by_id_and_update
is_account_locked-cases u w = elim (Option-cases u.lockout_until) [
  | inl free ↦ rw free (inr (w, refl, λ t h. absurd cc))
  | inr (t, locked) ↦ rw locked (elim (Bool-cases (ltb t w.now)) [
    | inl over ↦ rw over (inr (_, refl, λ s h. ground arith))
    | inr held ↦ rw held (inl refl)
  ])
]

respond-answers :
    (env : Env) (u : User) (ip agent : ℕ) (w : World) (r : LoginResponse)
    → (respond env u ip agent w).0 ≡ ok r
    → (r.id ≡ u.id) × (r.role ≡ u.role)
unfolding issue generate_tokens store_refresh_token create_refresh_token
respond-answers env u ip agent w r h =
    let token = env.sha256 (env.sign (payload_of TokenType.refresh u) (w.now / 1000)) in
    elim (Bool-cases (is_some (find_one (λ t. t.token == token) w.refresh_tokens))) [
      | inl clash ↦ absurd (let wrong = rw clash at h in cc)
      | inr fresh ↦ let answer = rw fresh at h in (cc, cc)
    ]

-- A login to an active account without a lockout, with a wrong password, is refused, and the
-- attempt is counted as a failed one; nothing else changes.
pub login_wrong_password :
    (env : Env) (dto : LoginDto) (ip agent : ℕ) (w : World) (u : User)
    → account_of env dto.email w ≡ some u
    → u.is_active ≡ true
    → u.lockout_until ≡ none
    → env.bcrypt_compare dto.password u.password_hash ≡ false
    → login env dto ip agent w
      ≡ (throw (unauthorized "Invalid credentials"), (record_login_attempt u.id false ip w).1)
login_wrong_password env dto ip agent w u found active free wrong =
    let open_account = is_account_locked-free u w free in
    let refused =
      bind-throw (check_password env u dto ip) (λ _. respond env u ip agent) w _ _
        (check_password-wrong env dto ip w u wrong) in
    login_to-active env dto ip agent w u found active
    ∙ bind-ok (is_account_locked u) (login_unless env u dto ip agent) w w false open_account
    ∙ refused

unlocked-Authentic :
    (env : Env) (u : User) (dto : LoginDto) (ip agent : ℕ) (w : World) (r : LoginResponse)
    → ((is_account_locked u >>= login_unless env u dto ip agent) w).0 ≡ ok r
    → ((t : ℕ) → u.lockout_until ≡ some t → t < w.now)
      × (env.bcrypt_compare dto.password u.password_hash ≡ true)
      × (r.id ≡ u.id)
      × (r.role ≡ u.role)
unlocked-Authentic env u dto ip agent w r returned = elim (is_account_locked-cases u w) [
  | inl held ↦
      let step = bind-ok (is_account_locked u) (login_unless env u dto ip agent) w w true held in
      absurd (let wrong = sym (ap (λ p. p.0) step) ∙ returned in cc)
  | inr (w', free, past) ↦
      let step = bind-ok (is_account_locked u) (login_unless env u dto ip agent) w w' false free in
      let next : ((check_password env u dto ip >> respond env u ip agent) w').0 ≡ ok r =
        sym (ap (λ p. p.0) step) ∙ returned in
      elim (Bool-cases (env.bcrypt_compare dto.password u.password_hash)) [
        | inr wrong ↦
            let refused =
              bind-throw (check_password env u dto ip) (λ _. respond env u ip agent) w' _ _
                (check_password-wrong env dto ip w' u wrong) in
            absurd (let bad = sym (ap (λ p. p.0) refused) ∙ next in cc)
        | inl right ↦
            let passed =
              bind-ok (check_password env u dto ip) (λ _. respond env u ip agent) w' _ tt
                (check_password-right env dto ip w' u right) in
            let (id, role) =
              respond-answers env u ip agent _ r (sym (ap (λ p. p.0) passed) ∙ next) in
            (past, right, id, role)
      ]
]

-- A login that returns tokens found an active account that was not locked, and the password is
-- the one of the stored hash.
pub login-Authentic :
    (env : Env) (dto : LoginDto) (ip agent : ℕ) (w : World) (r : LoginResponse)
    → (login env dto ip agent w).0 ≡ ok r
    → (u : User) × (account_of env dto.email w ≡ some u)
      × (u.is_active ≡ true)
      × ((t : ℕ) → u.lockout_until ≡ some t → t < w.now)
      × (env.bcrypt_compare dto.password u.password_hash ≡ true)
      × (r.id ≡ u.id)
      × (r.role ≡ u.role)
unfolding login find_by_email
login-Authentic env dto ip agent w r returned = elim (Option-cases (account_of env dto.email w)) [
  | inl missing ↦ absurd (let wrong = rw missing at returned in cc)
  | inr (u, found) ↦ elim (Bool-cases u.is_active) [
    | inr idle ↦
        let stops =
          raise_if-stops (not u.is_active)
            (forbidden "Account is deactivated. Contact your administrator.")
            (is_account_locked u >>= login_unless env u dto ip agent) w (ground arith) in
        absurd (
          let here : (login_to env dto ip agent u w).0 ≡ ok r = rw found at returned in
          let wrong = sym (ap (λ p. p.0) stops) ∙ here in cc)
    | inl active ↦
        let step = login_to-active env dto ip agent w u found active in
        let (past, right, id, role) =
          unlocked-Authentic env u dto ip agent w r (sym (ap (λ p. p.0) step) ∙ returned) in
        (u, found, active, past, right, id, role)
  ]
]

-- Where bcrypt accepts a password against its own hash, a login to an active account without a
-- lockout, with the password whose hash is stored, returns the account's tokens, if no refresh
-- token with the new one's hash is stored.
pub login_accepts :
    (env : Env) (laws : HashLaws env) (dto : LoginDto) (ip agent salt : ℕ) (w : World) (u : User)
    → account_of env dto.email w ≡ some u
    → u.is_active ≡ true
    → u.lockout_until ≡ none
    → u.password_hash ≡ env.bcrypt_hash dto.password salt
    → find_one (has_hash (env.sha256 (tokens_of env u w).refresh_token)) w.refresh_tokens ≡ none
    → (login env dto ip agent w).0 ≡ ok (login_response u (tokens_of env u w))
unfolding record_login_attempt find_by_id_and_update
login_accepts env laws dto ip agent salt w u found active free stored fresh =
    let right : env.bcrypt_compare dto.password u.password_hash ≡ true =
      ap (env.bcrypt_compare dto.password) stored ∙ laws.compare-hash dto.password salt in
    let w' = (record_login_attempt u.id true ip w).1 in
    let issued : issue env u ip agent w' ≡ (ok (tokens_of env u w), _) =
      issue-fresh env u ip agent w' fresh in
    ap (λ p. p.0)
      (login_to-active env dto ip agent w u found active
        ∙ bind-ok (is_account_locked u) (login_unless env u dto ip agent) w w false
            (is_account_locked-free u w free)
        ∙ bind-ok (check_password env u dto ip) (λ _. respond env u ip agent) w w' tt
            (check_password-right env dto ip w u right)
        ∙ bind-ok (issue env u ip agent) (λ tokens. pure (login_response u tokens)) w' _
            (tokens_of env u w) issued)
