-- ===== src/Auth.antt =====
-- `AuthService` (src/modules/auth/auth.service.ts): logins by password, and the tokens that they
-- issue and renew.
pub mod Expiration
pub mod Passwords
pub mod Logout
pub mod LoggedOut
pub mod Rotation
pub mod Access
pub mod Forced
pub mod CertificateLogin
mod Tests
use securevault_backend.Users.Attempts.{is_account_locked, record_login_attempt}
use securevault_backend.Prelude.{
  ℕ, ◌+◌, ◌-◌, ◌*◌, ◌/◌, Bool, true, false, ◌&&◌, not, Option, none, some, List, [], ◌∷◌, ◌++◌,
  ◌==◌, if◌then◌else◌, ltb, get_or, is_some, truthy, find_one, update_one,
}
use securevault_backend.Schema.{Role, User, RefreshToken, AuthenticatedUser}
use securevault_backend.World.{
  World, Action, Result, ok, throw, pure, raise, raise_if, or_raise, gets, modify, clock, new_id,
  unauthorized, forbidden, duplicate_key, type_error, ◌>>=◌, ◌>>◌,
}
use securevault_backend.Env.{Env, TokenType, JwtPayload}
use securevault_backend.Users
use securevault_backend.Users.{find_by_id, find_by_email, update_password, revoke_all_tokens}
use securevault_backend.Sessions.{end_all_user_sessions}
use securevault_backend.Auth.Expiration.{parse_expiration}

pub record Tokens : Type 0 where
  pub access_token : ℕ
  pub refresh_token : ℕ

pub record LoginDto : Type 0 where
  pub email : ℕ
  pub password : ℕ

pub record LoginResponse : Type 0 where
  pub access_token : ℕ
  pub refresh_token : ℕ
  pub id : ℕ
  pub uuid : ℕ
  pub email : ℕ
  pub first_name : ℕ
  pub last_name : ℕ
  pub role : Role
  pub must_change_password : Bool
  pub is_first_login : Bool

abbrev pub payload_of : TokenType → User → JwtPayload
payload_of type user = record {
  sub = user.id;
  uuid = user.uuid;
  email = user.email;
  role = user.role;
  type = type;
}

-- `generateTokens`; the signing stamps the second in which it runs.
unfoldable pub generate_tokens : Env → User → Action Tokens
generate_tokens env user = do
  now ← clock
  pure (record {
    access_token = env.sign (payload_of TokenType.access user) (now / 1000);
    refresh_token = env.sign (payload_of TokenType.refresh user) (now / 1000);
  })

-- `refreshTokenModel.create`: the unique index on the token refuses a second document.
unfoldable pub create_refresh_token : RefreshToken → Action (Unit {0})
create_refresh_token token w =
    if is_some (find_one (λ t. t.token == token.token) w.refresh_tokens)
    then (throw duplicate_key, w)
    else (ok tt, record w { refresh_tokens = w.refresh_tokens ++ token ∷ [] })

abbrev pub new_refresh_token : Env → ℕ → ℕ → ℕ → ℕ → ℕ → ℕ → RefreshToken
new_refresh_token env token user_id device_info ip_address id now = record {
  id = id;
  token = env.sha256 token;
  user_id = user_id;
  device_info = some device_info;
  ip_address = some ip_address;
  is_revoked = false;
  expires_at = env.double (now + parse_expiration env.double env.refresh_expiration);
}

unfoldable pub store_refresh_token : Env → ℕ → ℕ → ℕ → ℕ → Action (Unit {0})
store_refresh_token env token user_id device_info ip_address = do
  id ← new_id
  now ← clock
  create_refresh_token (new_refresh_token env token user_id device_info ip_address id now)

-- What `login` does with an account that is active and not locked.
unfoldable pub check_password : Env → User → LoginDto → ℕ → Action (Unit {0})
unfolding record_login_attempt
check_password env user dto ip =
    if env.bcrypt_compare dto.password user.password_hash
    then record_login_attempt user.id true ip
    else (record_login_attempt user.id false ip >> raise (unauthorized "Invalid credentials"))

abbrev pub login_response : User → Tokens → LoginResponse
login_response user tokens = record {
  access_token = tokens.access_token;
  refresh_token = tokens.refresh_token;
  id = user.id;
  uuid = user.uuid;
  email = user.email;
  first_name = user.first_name;
  last_name = user.last_name;
  role = user.role;
  must_change_password = user.must_change_password;
  is_first_login = user.is_first_login;
}

-- The end of `login`: tokens are generated, and the refresh token is stored.
unfoldable pub issue : Env → User → ℕ → ℕ → Action Tokens
unfolding generate_tokens
issue env user ip user_agent = do
  tokens ← generate_tokens env user
  store_refresh_token env tokens.refresh_token user.id user_agent ip
  pure tokens

abbrev pub respond : Env → User → ℕ → ℕ → Action LoginResponse
respond env user ip user_agent = do
  tokens ← issue env user ip user_agent
  pure (login_response user tokens)

-- `login` from the answer of `isAccountLocked`
abbrev pub login_unless : Env → User → LoginDto → ℕ → ℕ → Bool → Action LoginResponse
login_unless env user dto ip user_agent locked = do
  raise_if locked (
      forbidden
        "Account is temporarily locked due to multiple failed login attempts. Try again later.")
  check_password env user dto ip
  respond env user ip user_agent

-- `login` from the account that was found
abbrev pub login_to : Env → LoginDto → ℕ → ℕ → User → Action LoginResponse
login_to env dto ip user_agent user = do
  raise_if (not user.is_active) (forbidden "Account is deactivated. Contact your administrator.")
  locked ← is_account_locked user
  login_unless env user dto ip user_agent locked

unfoldable pub login : Env → LoginDto → ℕ → ℕ → Action LoginResponse
login env dto ip user_agent = do
  found ← find_by_email env dto.email
  user ← or_raise found (unauthorized "Invalid credentials")
  login_to env dto ip user_agent user

-- `{ token: tokenHash, isRevoked: false }`
abbrev pub live_token : ℕ → RefreshToken → Bool
live_token hash t = (t.token == hash) && not t.is_revoked

-- `storedToken.isRevoked = true; await storedToken.save()`
abbrev pub revoke_stored : ℕ → Action (Unit {0})
revoke_stored id = modify λ w. record w {
  refresh_tokens =
      update_one (λ t. t.id == id) (λ t. record t { is_revoked = true }) w.refresh_tokens;
}

abbrev pub inactive : Option User → Bool
inactive none = true
inactive (some user) = not user.is_active

-- `refreshTokens` from the stored token that was found: its revocation, and new tokens for its
-- owner.
abbrev pub renew_for : Env → ℕ → ℕ → Option User → Action Tokens
renew_for env ip user_agent owner = do
  raise_if (inactive owner) (unauthorized "User not found or inactive")
  user ← or_raise owner (unauthorized "User not found or inactive")
  issue env user ip user_agent

abbrev pub rotate : Env → ℕ → ℕ → RefreshToken → Action Tokens
rotate env ip user_agent stored = do
  now ← clock
  raise_if (ltb stored.expires_at now) (unauthorized "Refresh token expired")
  revoke_stored stored.id
  owner ← find_by_id stored.user_id
  renew_for env ip user_agent owner

unfoldable pub refresh_tokens : Env → ℕ → ℕ → ℕ → Action Tokens
refresh_tokens env refresh_token ip user_agent = do
  found ← gets (λ w. find_one (live_token (env.sha256 refresh_token)) w.refresh_tokens)
  stored ← or_raise found (unauthorized "Invalid or revoked refresh token")
  rotate env ip user_agent stored
