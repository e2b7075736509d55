-- ===== src/Schema/Accounts.antt =====
-- Accounts, their refresh tokens and sessions (src/modules/users/schemas,
-- src/modules/sessions/schemas), and the overrides of the permission matrix.
use securevault_backend.Prelude.{ℕ, Bool, Option}
use securevault_backend.Schema.Roles.{Role}

pub record User : Type 0 where
  pub id : ℕ
  pub uuid : ℕ
  pub email : ℕ
  pub password_hash : ℕ
  pub first_name : ℕ
  pub last_name : ℕ
  pub role : Role
  pub is_active : Bool
  pub is_first_login : Bool
  pub must_change_password : Bool
  pub temporary_password : Option ℕ
  pub password_changed_at : Option ℕ
  pub failed_login_attempts : ℕ
  pub lockout_until : Option ℕ
  pub last_login_at : Option ℕ
  pub last_login_ip : Option ℕ
  pub department : Option ℕ
  pub job_title : Option ℕ
  pub created_by : Option ℕ
  pub deleted_at : Option ℕ
  pub deleted_by : Option ℕ

pub record RefreshToken : Type 0 where
  pub id : ℕ
  pub token : ℕ
  pub user_id : ℕ
  pub device_info : Option ℕ
  pub ip_address : Option ℕ
  pub is_revoked : Bool
  pub expires_at : ℕ

pub data AuthMethod : Type 0 where
  certificate password : AuthMethod

pub record Session : Type 0 where
  pub session_id : ℕ
  pub user_id : ℕ
  pub device_id : ℕ
  pub certificate_serial : Option ℕ
  pub ip_address : Option ℕ
  pub user_agent : Option ℕ
  pub is_active : Bool
  pub started_at : ℕ
  pub ended_at : Option ℕ
  pub last_activity_at : ℕ
  pub auth_method : AuthMethod
