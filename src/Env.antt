-- ===== src/Env.antt =====
-- What the services take from outside the repository: password hashing (bcrypt), hashing
-- (SHA-256), the signing and decoding of JWTs, the numbers of JavaScript, and the configuration. Texts are numbered, so the
-- lower-case form of a text is a function on those numbers here.
use securevault_backend.Prelude.{ℕ, Bool, true, Option, List, Text, ◌≡◌, ◌≤◌}
use securevault_backend.Schema.{Role}

pub data TokenType : Type 0 where
  access refresh : TokenType

-- What a JWT of the application states (src/modules/auth/interfaces/jwt-payload.interface.ts), but
-- for the times that the signing adds.
pub record JwtPayload : Type 0 where
  pub sub : ℕ
  pub uuid : ℕ
  pub email : ℕ
  pub role : Role
  pub type : TokenType

-- `sign payload issued_at` is the token that the library makes of a payload with the secret and
-- lifetime for its type, in the second `issued_at`; `exp` is the expiry that it decodes from a
-- token. `refresh_expiration` is the configured text, by its code points, `number` the number of a
-- text, and `double` the double nearest to a natural number, which arithmetic in JavaScript gives.
pub record Env : Type 0 where
  pub to_lower_case : ℕ → ℕ
  pub bcrypt_hash : ℕ → ℕ → ℕ
  pub bcrypt_compare : ℕ → ℕ → Bool
  pub sha256 : ℕ → ℕ
  pub sign : JwtPayload → ℕ → ℕ
  pub exp : ℕ → Option ℕ
  pub refresh_expiration : List ℕ
  pub number : Text → ℕ
  pub double : ℕ → ℕ

-- Doubles are exact on the natural numbers up to 2 ^ 53.
abbrev pub ExactDoubles : (ℕ → ℕ) → Type 0
ExactDoubles double = (n : ℕ) → n ≤ 9007199254740992 → double n ≡ n

-- bcrypt accepts a password against its own hash, whatever the salt.
pub record HashLaws (env : Env) : Type 0 where
  pub compare-hash :
      (password salt : ℕ) → env.bcrypt_compare password (env.bcrypt_hash password salt) ≡ true
