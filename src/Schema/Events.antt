-- ===== src/Schema/Events.antt =====
-- Audit events (src/modules/audit/interfaces/audit.interface.ts) and the log entries made of them.
use securevault_backend.Prelude.{ℕ, Bool, Option, none, some, String, List}
use securevault_backend.Schema.Roles.{Role}
use securevault_backend.Schema.Files.{AccessLevel}
use securevault_backend.Schema.ShareRecord.{SharePermission, ShareAction, ShareStatus}

pub data AuditAction : Type 0 where
  login_success login_failure logout token_refresh password_change password_reset : AuditAction
  force_password_change cert_login_success cert_login_failure : AuditAction
  user_create user_update user_activate user_deactivate user_role_change user_delete : AuditAction
  device_enrollment device_register device_approve device_revoke device_block : AuditAction
  device_status_change : AuditAction
  certificate_issue certificate_revoke certificate_renewal certificate_verify : AuditAction
  enrollment_token_create enrollment_failure session_create session_end : AuditAction
  file_upload file_download file_delete file_share file_share_revoke : AuditAction
  file_share_access file_share_expire admin_action system_config_change : AuditAction
  suspicious_activity fingerprint_mismatch revoked_cert_login : AuditAction

-- A value in an event's metadata: a literal text, an identifier, text, date or count, and so on.
pub data Value : Type 0 where
  null : Value
  str : String → Value
  num : ℕ → Value
  strings : List String → Value
  flag : Bool → Value
  role : Role → Value
  permission : SharePermission → Value
  action : ShareAction → Value
  status : ShareStatus → Value
  level : AccessLevel → Value

abbrev pub nullable : Option ℕ → Value
nullable none = Value.null
nullable (some n) = Value.num n

pub data Outcome : Type 0 where
  success failure error : Outcome

pub record AuditEvent : Type 0 where
  pub action : AuditAction
  pub resource : String
  pub resource_id : Option ℕ
  pub user_id : Option ℕ
  pub user_email : Option ℕ
  pub user_role : Option Role
  pub ip_address : Option ℕ
  pub user_agent : Option ℕ
  pub metadata : List (String × Value)
  pub status : Option Outcome

-- A stored entry: the event with its defaults filled in, and its time.
pub record AuditEntry : Type 0 where
  pub action : AuditAction
  pub resource : String
  pub resource_id : Option ℕ
  pub user_id : Option ℕ
  pub user_email : Option ℕ
  pub user_role : Option Role
  pub ip_address : Option ℕ
  pub user_agent : Option ℕ
  pub metadata : List (String × Value)
  pub status : Outcome
  pub timestamp : ℕ
