-- ===== src/Auth/Tests.antt =====
-- Logins, rotations and logouts of concrete accounts, and the theorems at them.
use securevault_backend.Auth.LoggedOut.{bearer_header, logout_refuses}
use securevault_backend.Auth.Logout.{
  logout, header_token, is_token_blacklisted, validate_access_payload,
}
use securevault_backend.Prelude.{
  ℕ, ◌*◌, ◌<◌, true, none, some, [], ◌∷◌, ◌≡◌, ◌≢◌, refl, arith, count_documents, codes,
}
use securevault_backend.Schema.{Role, User, AuthenticatedUser}
use securevault_backend.World.{ok, throw, unauthorized, forbidden}
use securevault_backend.Env.{HashLaws, TokenType}
use securevault_backend.Users.{find_by_id}
use securevault_backend.Users.Examples.{
  plain_env, alice, alice_token, office, locked_alice, locked_office,
}
use securevault_backend.Users.Lockout.{at_time}
use securevault_backend.Sessions.{active_of, end_all_user_sessions}
use securevault_backend.Auth.{
  LoginDto, login, login_response, refresh_tokens, issue, generate_tokens, store_refresh_token,
  create_refresh_token, payload_of,
}
use securevault_backend.Auth.Expiration.{lifetime, parse_expiration, parse_expiration-decimal}
use securevault_backend.Auth.Rotation.{Indexed, tokens_of, refresh_tokens_once}
use securevault_backend.Auth.Access.{account_of, login_locked, login-Authentic, login_accepts}

plain_env-HashLaws : HashLaws plain_env
plain_env-HashLaws = record { compare-hash = λ password salt. ground arith }

abbrev right_password : LoginDto
right_password = record { email = 21; password = 31 }

abbrev wrong_password : LoginDto
wrong_password = record { email = 21; password = 30 }

login_locked_example : login plain_env right_password 9 8 locked_office ≡ (
  throw (
      forbidden
        "Account is temporarily locked due to multiple failed login attempts. Try again later."),
  locked_office,
)
login_locked_example =
    login_locked plain_env right_password 9 8 2000 locked_office locked_alice refl refl refl
      (omega arith)

login_accepts_example :
    (login plain_env right_password 9 8 office).0
    ≡ ok (login_response alice (tokens_of plain_env alice office))
login_accepts_example =
    login_accepts plain_env plain_env-HashLaws right_password 9 8 5 office alice refl refl refl refl
      refl

alice_returned :
    (login plain_env right_password 9 8 office).0
    ≡ ok (login_response alice (tokens_of plain_env alice office))
alice_returned =
    login_accepts plain_env plain_env-HashLaws right_password 9 8 5 office alice refl refl refl refl
      refl

login-Authentic_example :
    (u : User) × (account_of plain_env 21 office ≡ some u)
    × (u.is_active ≡ true)
    × ((t : ℕ) → u.lockout_until ≡ some t → t < 1000)
    × (plain_env.bcrypt_compare 31 u.password_hash ≡ true)
    × (1 ≡ u.id)
    × (Role.admin ≡ u.role)
login-Authentic_example =
    login-Authentic plain_env right_password 9 8 office
      (login_response alice (tokens_of plain_env alice office)) alice_returned

logout_refuses_example :
    (let w' =
        (logout plain_env 1
          (header_token plain_env (some (bearer_header (codes "abc"))))
          none
          office).1 in
      (count_documents (active_of 1) w'.sessions ≡ 0)
      × ((identity : AuthenticatedUser)
          → (validate_access_payload plain_env
              (some (bearer_header (codes "abc")))
              (payload_of TokenType.access alice)
              (at_time 5000 w')).0
            ≢ ok identity))
logout_refuses_example =
    logout_refuses plain_env 1 903 5000 (codes "abc") none (payload_of TokenType.access alice)
      office (ground arith) refl (omega arith) (omega arith)

-- The same token under another spelling of the scheme passes the blacklist.
other_spelling_accepted :
    (validate_access_payload plain_env
      (some (codes "bearer abc"))
      (payload_of TokenType.access alice)
      (at_time 5000 (logout plain_env 1 3 none office).1)).0
    ≡ ok (record { user_id = 1; uuid = 11; email = 21; role = Role.admin })
unfolding validate_access_payload is_token_blacklisted logout end_all_user_sessions
other_spelling_accepted = refl

office-Indexed : Indexed (alice_token ∷ [])
office-Indexed = (λ hash. ground arith, λ id. ground arith)

alice_refreshed : (refresh_tokens plain_env 53 9 8 office).0 ≡ ok (tokens_of plain_env alice office)
unfolding refresh_tokens find_by_id issue generate_tokens store_refresh_token create_refresh_token
alice_refreshed = refl

refresh_tokens_once_example :
    (refresh_tokens plain_env 53 7 6 (at_time 1200 (refresh_tokens plain_env 53 9 8 office).1)).0
    ≡ throw (unauthorized "Invalid or revoked refresh token")
refresh_tokens_once_example =
    refresh_tokens_once plain_env 53 9 8 office (tokens_of plain_env alice office) office-Indexed
      alice_refreshed 1200 7 6

-- `15s`, `15m`, `15h` and `15d`
parse_expiration-decimal_example :
    (parse_expiration plain_env.double (lifetime (1 ∷ 5 ∷ []) 115) ≡ 15 * 1000)
    × (parse_expiration plain_env.double (lifetime (1 ∷ 5 ∷ []) 109) ≡ 15 * (60 * 1000))
    × (parse_expiration plain_env.double (lifetime (1 ∷ 5 ∷ []) 104) ≡ 15 * (60 * 60 * 1000))
    × (parse_expiration plain_env.double (lifetime (1 ∷ 5 ∷ []) 100) ≡ 15 * (24 * 60 * 60 * 1000))
parse_expiration-decimal_example =
    parse_expiration-decimal plain_env.double (λ n h. refl) 1 (5 ∷ [])
      (omega arith, (omega arith, tt)) (omega arith)
