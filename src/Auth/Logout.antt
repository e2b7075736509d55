-- ===== src/Auth/Logout.antt =====
-- `logout` and the blacklist of access tokens (src/modules/auth/auth.service.ts), the token that
-- its controller passes on (src/modules/auth/auth.controller.ts), and the validation of a request's token (src/modules/auth/strategies/jwt.strategy.ts).
use securevault_backend.Prelude.{
  ℕ, ◌+◌, ◌-◌, ◌*◌, ◌/◌, Bool, true, false, ◌&&◌, Option, none, some, List, ◌∷◌, ◌==◌,
  if◌then◌else◌, ltb, get_or, truthy, find_one, update_one, not, [], Text, starts_with, codes, drop,
}
use securevault_backend.Schema.{RefreshToken, AuthenticatedUser}
use securevault_backend.World.{
  World, Action, pure, raise_if, gets, modify, unauthorized, ◌>>=◌, ◌>>◌,
}
use securevault_backend.Env.{Env, TokenType, JwtPayload}
use securevault_backend.Sessions.{end_all_user_sessions}

-- `redis.setex` of an access token that has not expired: the key holds for the token's remaining
-- seconds, and a later one takes its place. `exp` is in seconds.
abbrev pub blacklisted : Env → ℕ → World → World
blacklisted env access_token w =
    let exp = if access_token == 0 then 0 else get_or (env.exp access_token) 0 in
    let ttl = exp - w.now / 1000 in
    if ltb (w.now / 1000) exp
    then record w { blacklist = (access_token, w.now + ttl * 1000) ∷ w.blacklist }
    else w

abbrev pub revoke_given : Env → Option ℕ → List RefreshToken → List RefreshToken
revoke_given env refresh_token tokens =
    if truthy refresh_token
    then update_one (λ t. t.token == env.sha256 (get_or refresh_token 0))
        (λ t. record t { is_revoked = true }) tokens
    else tokens

unfoldable pub logout : Env → ℕ → ℕ → Option ℕ → Action (Unit {0})
logout env user_id access_token refresh_token = do
  modify (blacklisted env access_token)
  modify λ w. record w { refresh_tokens = revoke_given env refresh_token w.refresh_tokens }
  end_all_user_sessions user_id

-- A key is there until its time.
abbrev pub holds_at : ℕ → Option (ℕ × ℕ) → Bool
holds_at now none = false
holds_at now (some (token, until)) = ltb now until

unfoldable pub is_token_blacklisted : ℕ → Action Bool
is_token_blacklisted token = gets (λ w. holds_at w.now (find_one (λ e. e.0 == token) w.blacklist))

-- `replace('Bearer ', '')`, of the first occurrence
abbrev pub without_bearer : Text → Text
without_bearer [] = []
without_bearer (c ∷ cs) =
    let rest = without_bearer cs in
    if starts_with (codes "Bearer ") (c ∷ cs) then drop 7 (c ∷ cs) else c ∷ rest

-- What the strategy and the controller of `logout` take for the token of the request's header
abbrev pub header_token : Env → Option Text → ℕ
header_token env none = 0
header_token env (some header) = env.number (without_bearer header)

-- `JwtStrategy.validate`, of the request's header and the payload that its token was checked to
-- carry
unfoldable pub validate_access_payload : Env → Option Text → JwtPayload → Action AuthenticatedUser
unfolding is_token_blacklisted
validate_access_payload env authorization payload = do
  raise_if (is_refresh payload.type) (unauthorized "Invalid token type")
  let token = header_token env authorization
  listed ← is_token_blacklisted token
  raise_if (not (token == 0) && listed) (unauthorized "Token has been revoked")
  pure (identity payload)
  where
    is_refresh : TokenType → Bool
    is_refresh TokenType.access = false
    is_refresh TokenType.refresh = true

    identity : JwtPayload → AuthenticatedUser
    identity p = record { user_id = p.sub; uuid = p.uuid; email = p.email; role = p.role }
