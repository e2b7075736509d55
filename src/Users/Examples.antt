-- ===== src/Users/Examples.antt =====
-- Concrete accounts, tokens and functions in place of the libraries', for the tests.
use securevault_backend.Prelude.{◌+◌, true, false, ◌==◌, none, some, [], ◌∷◌, length}
use securevault_backend.Schema.{Role, User, RefreshToken}
use securevault_backend.World.{World, empty_world}
use securevault_backend.Env.{Env}

-- Functions in place of the libraries': a hash adds its salt, a token adds its time.
abbrev pub plain_env : Env
plain_env = record {
  to_lower_case = λ text. text;
  bcrypt_hash = λ password salt. password + 1000;
  bcrypt_compare = λ password hash. hash == password + 1000;
  sha256 = λ text. text + 7;
  sign = λ payload second. payload.sub + second + 1;
  exp = λ token. some (token + 900);
  refresh_expiration = 55 ∷ 100 ∷ [];
  number = λ text. length text;
  double = λ n. n;
}

abbrev pub alice : User
alice = record {
  id = 1;
  uuid = 11;
  email = 21;
  password_hash = 1031;
  first_name = 41;
  last_name = 42;
  role = Role.admin;
  is_active = true;
  is_first_login = false;
  must_change_password = false;
  temporary_password = none;
  password_changed_at = none;
  failed_login_attempts = 0;
  lockout_until = none;
  last_login_at = none;
  last_login_ip = none;
  department = none;
  job_title = none;
  created_by = none;
  deleted_at = none;
  deleted_by = none;
}

abbrev pub alice_token : RefreshToken
alice_token = record {
  id = 2;
  token = 60;
  user_id = 1;
  device_info = none;
  ip_address = none;
  is_revoked = false;
  expires_at = 5000;
}

abbrev pub office : World
office = record empty_world {
  users = alice ∷ [];
  refresh_tokens = alice_token ∷ [];
  next_id = 3;
  now = 1000;
}

abbrev pub locked_alice : User
locked_alice = record alice { failed_login_attempts = 5; lockout_until = some 2000 }

abbrev pub locked_office : World
locked_office = record office { users = locked_alice ∷ [] }
