-- ===== src/Auth/CertificateLogin.antt =====
-- Logins by a device's certificate: `certificateLogin` (src/modules/auth/auth.service.ts).
pub mod Genuineness
mod Tests
use securevault_backend.Prelude.{
  ℕ, Bool, not, Option, none, some, String, [], ◌∷◌, if◌then◌else◌, find_one, Text, codes,
  text_includes,
}
use securevault_backend.Schema.{
  Role, User, Session, AuthMethod, AuditAction, AuditEvent, Value, Outcome,
}
use securevault_backend.World.{
  World, Action, unauthorized, forbidden, pure, raise, raise_if, or_raise, log, ◌>>=◌, ◌>>◌,
}
use securevault_backend.Env.{Env}
use securevault_backend.Users.{find_by_id}
use securevault_backend.Sessions.{SessionParams, create_session}
use securevault_backend.Devices.{update_last_seen}
use securevault_backend.Auth.{Tokens, issue}
use securevault_backend.Certificates.VaultPki.{Pki}
use securevault_backend.Certificates.{
  VerifyResult, VerifyFailure, failure_text, valid, verify_certificate,
}

pub record CertificateLoginDto : Type 0 where
  pub certificate : ℕ
  pub device_fingerprint : ℕ

pub record CertificateLoginResponse : Type 0 where
  pub access_token : ℕ
  pub refresh_token : ℕ
  pub session_id : ℕ
  pub id : ℕ
  pub uuid : ℕ
  pub email : ℕ
  pub first_name : ℕ
  pub last_name : ℕ
  pub role : Role
  pub device_id : ℕ
  pub employee_id : ℕ
  pub serial_number : ℕ

abbrev pub reason_of : VerifyResult → Text
reason_of v = elim v.reason [ none ↦ [] | some failure ↦ failure_text failure ]

module _ (env : Env) (pki : Pki) (dto : CertificateLoginDto) (ip agent : ℕ) where
  abbrev pub login_failed : VerifyResult → AuditEvent
  login_failed v = record {
    action = AuditAction.cert_login_failure;
    resource = "auth";
    resource_id = none;
    user_id = none;
    user_email = none;
    user_role = none;
    ip_address = some ip;
    user_agent = some agent;
    metadata =
        ("serialNumber", Value.num v.serial_number)
        ∷ ("deviceFingerprint", Value.num dto.device_fingerprint)
        ∷ ("reason", Value.num (pki.number (reason_of v)))
        ∷ [];
    status = some Outcome.failure;
  }

  abbrev pub suspicious : AuditAction → String → VerifyResult → AuditEvent
  suspicious action fingerprint_key v = record {
    action = action;
    resource = "security";
    resource_id = none;
    user_id = none;
    user_email = none;
    user_role = none;
    ip_address = some ip;
    user_agent = none;
    metadata =
        ("serialNumber", Value.num v.serial_number)
        ∷ (fingerprint_key, Value.num dto.device_fingerprint)
        ∷ [];
    status = some Outcome.failure;
  }

  -- `if (verification.reason?.includes(pattern)) await this.auditService.log(event)`
  abbrev pub log_where : Text → AuditEvent → VerifyResult → Action (Unit {0})
  log_where pattern event v = if text_includes pattern (reason_of v) then log event else pure tt

  unfoldable pub refuse_login : VerifyResult → Action CertificateLoginResponse
  refuse_login v = do
    log (login_failed v)
    log_where (codes "revoked") (suspicious AuditAction.revoked_cert_login "deviceFingerprint" v) v
    log_where (codes "fingerprint mismatch")
        (suspicious AuditAction.fingerprint_mismatch "presentedFingerprint" v) v
    raise (unauthorized "Certificate authentication failed")

  abbrev pub session_params : User → VerifyResult → SessionParams
  session_params user v = record {
    user_id = user.id;
    device_id = v.device_id;
    certificate_serial = some v.serial_number;
    ip_address = some ip;
    user_agent = some agent;
    auth_method = some AuthMethod.certificate;
  }

  abbrev pub login_succeeded : User → VerifyResult → Session → AuditEvent
  login_succeeded user v session = record {
    action = AuditAction.cert_login_success;
    resource = "auth";
    resource_id = none;
    user_id = some user.id;
    user_email = some user.email;
    user_role = some user.role;
    ip_address = some ip;
    user_agent = some agent;
    metadata =
        ("certificateSerial", Value.num v.serial_number)
        ∷ ("deviceId", Value.num v.device_id)
        ∷ ("employeeId", Value.num v.employee_id)
        ∷ ("sessionId", Value.num session.session_id)
        ∷ ("authMethod", Value.str "certificate")
        ∷ [];
    status = some Outcome.success;
  }

  abbrev pub login_answer : User → VerifyResult → Tokens → Session → CertificateLoginResponse
  login_answer user v tokens session = record {
    access_token = tokens.access_token;
    refresh_token = tokens.refresh_token;
    session_id = session.session_id;
    id = user.id;
    uuid = user.uuid;
    email = user.email;
    first_name = user.first_name;
    last_name = user.last_name;
    role = user.role;
    device_id = v.device_id;
    employee_id = v.employee_id;
    serial_number = v.serial_number;
  }

  -- From the tokens on
  unfoldable pub open_session : User → VerifyResult → Tokens → Action CertificateLoginResponse
  open_session user v tokens = do
    session ← create_session (session_params user v)
    update_last_seen v.device_id ip
    log (login_succeeded user v session)
    pure (login_answer user v tokens session)

  -- From the user on
  abbrev pub admit_user : VerifyResult → User → Action CertificateLoginResponse
  admit_user v user = do
    raise_if (not user.is_active) (forbidden "Account is deactivated")
    issue env user ip agent >>= open_session user v

  -- From the verification on
  unfoldable pub login_verified : VerifyResult → Action CertificateLoginResponse
  login_verified v w =
      if valid v
      then (do
        found ← find_by_id v.user_id
        user ← or_raise found (unauthorized "User associated with certificate not found")
        admit_user v user)
          w
      else refuse_login v w

  unfoldable pub certificate_login : Action CertificateLoginResponse
  certificate_login w =
      login_verified (verify_certificate pki dto.certificate (some dto.device_fingerprint) w) w
