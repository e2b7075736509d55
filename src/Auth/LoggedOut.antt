-- ===== src/Auth/LoggedOut.antt =====
-- What is refused after a logout (src/modules/auth/auth.service.ts).
use securevault_backend.Auth.Logout.{
  logout, header_token, blacklisted, revoke_given, holds_at, is_token_blacklisted,
  validate_access_payload,
}
use securevault_backend.Prelude.{
  ℕ, ◌+◌, ◌-◌, ◌*◌, ◌/◌, ◌<◌, true, Option, some, ◌≡◌, ◌≢◌, refl, ◌⊎◌, inl, inr, arith, ◌==◌, ltb,
  find_one, count_documents, Text, codes, ◌++◌, false,
}
use securevault_backend.Schema.{AuthenticatedUser}
use securevault_backend.World.{World, ok}
use securevault_backend.Env.{Env, JwtPayload, TokenType}
use securevault_backend.Users.Lockout.{at_time}
use securevault_backend.Sessions.{active_of, end_all_user_sessions, active_of}
use securevault_backend.Sessions.Ended.{ending_leaves_none}

TokenType-cases : (t : TokenType) → (t ≡ TokenType.access) ⊎ (t ≡ TokenType.refresh)
TokenType-cases TokenType.access = inl refl
TokenType-cases TokenType.refresh = inr refl

validate-listed :
    (env : Env) (header : Text) (payload : JwtPayload) (w : World) (identity : AuthenticatedUser)
    → let token = header_token env (some header) in
      token ≢ 0
      → holds_at w.now (find_one (λ e. e.0 == token) w.blacklist) ≡ true
      → (validate_access_payload env (some header) payload w).0 ≢ ok identity
unfolding validate_access_payload is_token_blacklisted
validate-listed env header payload w identity given listed answer =
    let named : (header_token env (some header) == 0) ≡ false = ground arith in
    elim (TokenType-cases payload.type) [
      | inl access ↦ let wrong = rw (access, listed, named) at answer in cc
      | inr refresh ↦ let wrong = rw refresh at answer in cc
    ]

blacklisted-holds :
    (env : Env) (token exp later : ℕ) (w : World)
    → token ≢ 0
    → env.exp token ≡ some exp
    → w.now / 1000 < exp
    → later < w.now + (exp - w.now / 1000) * 1000
    → holds_at later (find_one (λ e. e.0 == token) (blacklisted env token w).blacklist) ≡ true
blacklisted-holds env token exp later w given decoded live early =
    let named : (token == 0) ≡ false = ground arith in
    let not_expired : ltb (w.now / 1000) exp ≡ true = ground arith in
    let same : (token == token) ≡ true = ground arith in
    let in_time : ltb later (w.now + (exp - w.now / 1000) * 1000) ≡ true = ground arith in
    rw (named, decoded, not_expired, same) in_time

-- A header of the scheme `Bearer`, in this spelling
abbrev pub bearer_header : Text → Text
bearer_header token = codes "Bearer " ++ token

-- After a logout whose header has the scheme `Bearer`, in this spelling, and a nonempty access token
-- that has not expired, no session of the user is active, and a request with the same token under
-- the same spelling of the scheme is refused at every time before the token expires.
pub logout_refuses :
    (env : Env) (user_id exp later : ℕ) (token : Text) (refresh : Option ℕ) (payload : JwtPayload)
    (w : World)
    → env.number token ≢ 0
    → env.exp (env.number token) ≡ some exp
    → w.now / 1000 < exp
    → later < w.now + (exp - w.now / 1000) * 1000
    → (let w' = (logout env user_id (header_token env (some (bearer_header token))) refresh w).1 in
        (count_documents (active_of user_id) w'.sessions ≡ 0)
        × ((identity : AuthenticatedUser)
            → (validate_access_payload env
                (some (bearer_header token))
                payload
                (at_time later w')).0
              ≢ ok identity))
unfolding logout end_all_user_sessions
logout_refuses env user_id exp later text refresh payload w given decoded live early =
    let token = env.number text in
    (
      (unfold end_all_user_sessions in
          (ending_leaves_none user_id (record (blacklisted env token w) {
            refresh_tokens = revoke_given env refresh (blacklisted env token w).refresh_tokens;
          })).0),
      λ identity.
          validate-listed env (bearer_header text) payload
            (at_time later (logout env user_id token refresh w).1) identity given
            (blacklisted-holds env token exp later w given decoded live early),
    )
