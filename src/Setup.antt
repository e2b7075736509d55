-- ===== src/Setup.antt =====
-- Enrollment tokens and the enrollment of devices: `SetupService`
-- (src/modules/setup/setup.service.ts).
pub mod Quiet
pub mod Consumption
pub mod Bounds
mod Tests
use securevault_backend.Prelude.{
  ℕ, ◌+◌, ◌-◌, ◌*◌, Bool, true, false, ◌&&◌, not, Option, none, some, String, List, [], ◌∷◌, ◌++◌,
  ◌==◌, ltb, leb, if◌then◌else◌, or_null, is_some, get_or, find_one, update_one, codes,
}
use securevault_backend.Schema.{
  EnrollmentToken, User, Device, DeviceStatus, same_device_status, AuditAction, AuditEvent, Value,
  nullable, Outcome,
}
use securevault_backend.World.{
  World, Action, ok, bad_request, unauthorized, conflict, not_found, duplicate_key, pure, raise,
  raise_if, or_raise, gets, modify, clock, new_id, log, ◌>>=◌, ◌>>◌,
}
use securevault_backend.Users.{find_by_id, user_by_id, not_deleted}
use securevault_backend.Devices.{
  RegisterDeviceDto, with_fingerprint, register_device, approve_device,
}
use securevault_backend.Certificates.Pem.{is_valid_csr_pem}
use securevault_backend.Certificates.VaultPki.{Pki}
use securevault_backend.Certificates.{
  SignParams, IssuedCertificate, VerifyResult, valid, verify_certificate, revoke_certificate,
  sign_and_store_certificate,
}

pub record TokenParams : Type 0 where
  pub user_id : ℕ
  pub employee_id : ℕ
  pub expires_in_hours : Option ℕ
  pub max_devices : Option ℕ
  pub created_by : ℕ
  pub ip_address : Option ℕ

pub record EnrollDeviceDto : Type 0 where
  pub enrollment_token : ℕ
  pub employee_id : ℕ
  pub csr : ℕ
  pub device_fingerprint : ℕ
  pub hostname : Option ℕ
  pub platform : Option ℕ
  pub arch : Option ℕ
  pub os_version : Option ℕ
  pub mac_address : Option ℕ
  pub serial_number : Option ℕ

pub record RenewCertificateDto : Type 0 where
  pub current_certificate : ℕ
  pub new_csr : ℕ
  pub device_fingerprint : ℕ

abbrev pub with_token : ℕ → EnrollmentToken → Bool
with_token token t = t.token == token

abbrev pub new_token : TokenParams → ℕ → ℕ → ℕ → EnrollmentToken
new_token params token id now = record {
  id = id;
  token = token;
  user_id = params.user_id;
  employee_id = params.employee_id;
  expires_at = now + get_or (or_null params.expires_in_hours) 24 * 60 * 60 * 1000;
  is_used = false;
  used_at = none;
  used_by_device_fingerprint = none;
  used_from_ip = none;
  created_by = params.created_by;
  max_devices = get_or (or_null params.max_devices) 1;
  used_count = 0;
}

-- `enrollmentTokenModel.create`, whose tokens have a unique index
unfoldable pub create_token : EnrollmentToken → Action (Unit {0})
create_token t = do
  taken ← gets (λ w. is_some (find_one (with_token t.token) w.enrollment_tokens))
  raise_if taken duplicate_key
  modify λ w. record w { enrollment_tokens = w.enrollment_tokens ++ t ∷ [] }

abbrev pub token_created : TokenParams → EnrollmentToken → AuditEvent
token_created params t = record {
  action = AuditAction.enrollment_token_create;
  resource = "enrollment_token";
  resource_id = none;
  user_id = some params.created_by;
  user_email = none;
  user_role = none;
  ip_address = params.ip_address;
  user_agent = none;
  metadata =
      ("targetUserId", Value.num params.user_id)
      ∷ ("employeeId", Value.num params.employee_id)
      ∷ ("expiresAt", Value.num t.expires_at)
      ∷ ("maxDevices", Value.num t.max_devices)
      ∷ [];
  status = some Outcome.success;
}

-- `secure_token n` is the text `enr_…` of the `n`th draw of random bytes.
unfoldable pub create_enrollment_token : (ℕ → ℕ) → TokenParams → Action (ℕ × ℕ)
create_enrollment_token secure_token params = do
  found ← find_by_id params.user_id
  user ← or_raise found (not_found "User not found")
  n ← new_id
  id ← new_id
  now ← clock
  let t = new_token params (secure_token n) id now
  create_token t
  log (token_created params t)
  pure (t.token, t.expires_at)

pub record TokenVerdict : Type 0 where
  pub user_id : ℕ
  pub employee_id : ℕ
  pub remaining_devices : ℕ
  pub expires_at : ℕ

-- Either the token's data, or the reason why it is not valid
pub data TokenAnswer : Type 0 where
  accepted : TokenVerdict → TokenAnswer
  rejected : String → TokenAnswer

abbrev pub consumed : EnrollmentToken → Bool
consumed t = t.is_used && leb t.max_devices t.used_count

abbrev pub user_active : Option User → Bool
user_active none = false
user_active (some u) = u.is_active

abbrev pub verdict : EnrollmentToken → TokenVerdict
verdict t = record {
  user_id = t.user_id;
  employee_id = t.employee_id;
  remaining_devices = t.max_devices - t.used_count;
  expires_at = t.expires_at;
}

abbrev pub user_of : ℕ → World → Option User
user_of id w = find_one (λ u. user_by_id id u && not_deleted u) w.users

abbrev pub verify_found : ℕ → World → EnrollmentToken → TokenAnswer
verify_found employee_id w t =
    if ltb t.expires_at w.now
    then TokenAnswer.rejected "Token has expired"
    else if consumed t
    then TokenAnswer.rejected "Token has been fully consumed"
    else if not (t.employee_id == employee_id)
    then TokenAnswer.rejected "Employee ID does not match this token"
    else if not (user_active (user_of t.user_id w))
    then TokenAnswer.rejected "Associated user account is inactive"
    else TokenAnswer.accepted (verdict t)

abbrev pub verify_given : ℕ → World → Option EnrollmentToken → TokenAnswer
verify_given employee_id w none = TokenAnswer.rejected "Token not found"
verify_given employee_id w (some t) = verify_found employee_id w t

-- `verifyToken`, which only reads
unfoldable pub verify_token : ℕ → ℕ → World → TokenAnswer
verify_token token employee_id w =
    verify_given employee_id w (find_one (with_token token) w.enrollment_tokens)

abbrev pub enrollment_failed : EnrollDeviceDto → ℕ → String → AuditEvent
enrollment_failed dto ip reason = record {
  action = AuditAction.enrollment_failure;
  resource = "enrollment";
  resource_id = none;
  user_id = none;
  user_email = none;
  user_role = none;
  ip_address = some ip;
  user_agent = none;
  metadata =
      ("employeeId", Value.num dto.employee_id)
      ∷ ("deviceFingerprint", Value.num dto.device_fingerprint)
      ∷ ("reason", Value.str reason)
      ∷ [];
  status = some Outcome.failure;
}

abbrev pub device_data : EnrollDeviceDto → RegisterDeviceDto
device_data dto = record {
  fingerprint = dto.device_fingerprint;
  employee_id = dto.employee_id;
  hostname = dto.hostname;
  platform = dto.platform;
  arch = dto.arch;
  os_version = dto.os_version;
  mac_address = dto.mac_address;
  serial_number = dto.serial_number;
}

-- The check for a device with the fingerprint, before it is registered
abbrev pub refuse_enrolled : Option Device → Action (Unit {0})
refuse_enrolled none = pure tt
refuse_enrolled (some d) = do
  raise_if (same_device_status d.status DeviceStatus.blocked)
      (bad_request "This device has been blocked. Contact your administrator.")
  raise_if (same_device_status d.status DeviceStatus.approved)
      (conflict "This device is already enrolled and approved.")

abbrev pub consume : EnrollDeviceDto → ℕ → ℕ → EnrollmentToken → EnrollmentToken
consume dto ip now t = record t {
  used_count = t.used_count + 1;
  used_at = some now;
  used_by_device_fingerprint = some dto.device_fingerprint;
  used_from_ip = some ip;
  is_used = if leb t.max_devices (t.used_count + 1) then true else t.is_used;
}

-- The save of the token that is found, if one is
unfoldable pub consume_token : EnrollDeviceDto → ℕ → Action (Unit {0})
consume_token dto ip = modify λ w. record w {
  enrollment_tokens =
      update_one (with_token dto.enrollment_token) (consume dto ip w.now) w.enrollment_tokens;
}

abbrev pub device_enrolled :
    EnrollDeviceDto → ℕ → TokenVerdict → Device → IssuedCertificate → AuditEvent
device_enrolled dto ip token device issued = record {
  action = AuditAction.device_enrollment;
  resource = "device";
  resource_id = some device.device_id;
  user_id = some token.user_id;
  user_email = none;
  user_role = none;
  ip_address = some ip;
  user_agent = none;
  metadata =
      ("employeeId", Value.num dto.employee_id)
      ∷ ("deviceFingerprint", Value.num dto.device_fingerprint)
      ∷ ("certificateSerial", Value.num issued.serial_number)
      ∷ ("hostname", nullable dto.hostname)
      ∷ ("platform", nullable dto.platform)
      ∷ [];
  status = some Outcome.success;
}

module _ (pki : Pki) where
  abbrev pub sign_for : EnrollDeviceDto → TokenVerdict → Device → Action IssuedCertificate
  sign_for dto token device = sign_and_store_certificate pki (record {
    csr = dto.csr;
    user_id = token.user_id;
    employee_id = dto.employee_id;
    device_id = device.device_id;
    device_fingerprint = dto.device_fingerprint;
    ttl = none;
  })

  -- The registration, the approval and the certificate
  unfoldable pub admit : EnrollDeviceDto → TokenVerdict → Action (Device × IssuedCertificate)
  admit dto token = do
    raise_if (not (is_valid_csr_pem (pki.chars dto.csr)))
        (bad_request "Invalid CSR format. PEM-encoded PKCS#10 required.")
    existing ← gets (λ w. find_one (with_fingerprint dto.device_fingerprint) w.devices)
    refuse_enrolled existing
    device ← register_device (device_data dto) token.user_id
    approve_device device.device_id (pki.number (codes "system:enrollment"))
    issued ← sign_for dto token device
    pure (device, issued)

  abbrev pub finish_enrollment :
      EnrollDeviceDto
      → ℕ
      → TokenVerdict
      → Device × IssuedCertificate
      → Action (Device × IssuedCertificate)
  finish_enrollment dto ip token admitted = do
    consume_token dto ip
    log (device_enrolled dto ip token admitted.0 admitted.1)
    pure admitted

  -- From the verification of the token on
  unfoldable pub enroll_with :
      EnrollDeviceDto → ℕ → TokenAnswer → Action (Device × IssuedCertificate)
  enroll_with dto ip (TokenAnswer.rejected reason) = do
    log (enrollment_failed dto ip reason)
    raise (unauthorized "Enrollment failed")
  enroll_with dto ip (TokenAnswer.accepted token) =
      admit dto token >>= finish_enrollment dto ip token

  -- `enrollDevice`; of the device, the source answers the identifier only.
  unfoldable pub enroll_device : EnrollDeviceDto → ℕ → Action (Device × IssuedCertificate)
  enroll_device dto ip w =
      enroll_with dto ip (verify_token dto.enrollment_token dto.employee_id w) w

  abbrev pub certificate_renewed : VerifyResult → IssuedCertificate → ℕ → AuditEvent
  certificate_renewed verification issued ip = record {
    action = AuditAction.certificate_renewal;
    resource = "certificate";
    resource_id = some issued.serial_number;
    user_id = some verification.user_id;
    user_email = none;
    user_role = none;
    ip_address = some ip;
    user_agent = none;
    metadata =
        ("previousSerial", Value.num verification.serial_number)
        ∷ ("newSerial", Value.num issued.serial_number)
        ∷ [];
    status = some Outcome.success;
  }

  abbrev pub renewal_params : RenewCertificateDto → VerifyResult → SignParams
  renewal_params dto verification = record {
    csr = dto.new_csr;
    user_id = verification.user_id;
    employee_id = verification.employee_id;
    device_id = verification.device_id;
    device_fingerprint = dto.device_fingerprint;
    ttl = none;
  }

  -- From the verification of the current certificate on
  unfoldable pub renew_verified : RenewCertificateDto → ℕ → VerifyResult → Action IssuedCertificate
  renew_verified dto ip verification = do
    raise_if (not (valid verification)) (unauthorized "Certificate renewal failed")
    raise_if (not (is_valid_csr_pem (pki.chars dto.new_csr))) (bad_request "Invalid new CSR format")
    revoke_certificate pki verification.serial_number (pki.number (codes "system:renewal"))
        (some (pki.number (codes "superseded"))) (some ip)
    issued ← sign_and_store_certificate pki (renewal_params dto verification)
    log (certificate_renewed verification issued ip)
    pure issued

  unfoldable pub renew_certificate : RenewCertificateDto → ℕ → Action IssuedCertificate
  renew_certificate dto ip w =
      renew_verified dto ip
        (verify_certificate pki dto.current_certificate (some dto.device_fingerprint) w) w
