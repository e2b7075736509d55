-- ===== src/Schema/Certificates.antt =====
-- Certificates and their revocations (src/modules/certificates/schemas). The key's type, size and
-- signature algorithm, the renewal counters and the free metadata keep their defaults, and are left
-- out.
use securevault_backend.Prelude.{ℕ, Bool, true, false, Option, String}

pub data CertificateStatus : Type 0 where
  active expired revoked pending : CertificateStatus

pub data RevocationReason : Type 0 where
  unspecified key_compromise ca_compromise affiliation_changed superseded : RevocationReason
  cessation_of_operation privilege_withdrawn : RevocationReason

abbrev pub reason_name : RevocationReason → String
reason_name RevocationReason.unspecified = "unspecified"
reason_name RevocationReason.key_compromise = "key_compromise"
reason_name RevocationReason.ca_compromise = "ca_compromise"
reason_name RevocationReason.affiliation_changed = "affiliation_changed"
reason_name RevocationReason.superseded = "superseded"
reason_name RevocationReason.cessation_of_operation = "cessation_of_operation"
reason_name RevocationReason.privilege_withdrawn = "privilege_withdrawn"

abbrev pub is_revoked_status : CertificateStatus → Bool
is_revoked_status CertificateStatus.revoked = true
is_revoked_status _ = false

abbrev pub is_active_status : CertificateStatus → Bool
is_active_status CertificateStatus.active = true
is_active_status _ = false

pub record Certificate : Type 0 where
  pub id : ℕ
  pub serial_number : ℕ
  pub user_id : ℕ
  pub employee_id : ℕ
  pub device_id : ℕ
  pub device_fingerprint : ℕ
  pub fingerprint : ℕ
  pub issuer : ℕ
  pub subject : ℕ
  pub valid_from : ℕ
  pub valid_to : ℕ
  pub certificate_pem : Option ℕ
  pub csr_pem : Option ℕ
  pub status : CertificateStatus
  pub revoked_at : Option ℕ
  pub revoked_by : Option ℕ
  pub revocation_reason : Option ℕ

pub record CertificateRevocation : Type 0 where
  pub id : ℕ
  pub certificate_serial : ℕ
  pub user_id : ℕ
  pub device_id : Option ℕ
  pub reason : RevocationReason
  pub revoked_by : ℕ
  pub revoked_at : ℕ
  pub ip_address : Option ℕ
