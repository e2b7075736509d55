-- ===== src/Certificates.antt =====
-- `CertificatesService` (src/modules/certificates/certificates.service.ts), with the part of
-- `VaultPkiService` (src/modules/vault/vault-pki.service.ts) that it calls.
pub mod Pem
pub mod VaultPki
pub mod Verification
pub mod Revocation
pub mod Tests
use securevault_backend.Prelude.{
  ℕ, ◌+◌, ◌*◌, Bool, true, false, ◌&&◌, ◌||◌, not, Option, none, some, String, List, [], ◌∷◌, ◌++◌,
  ◌==◌, ltb, if◌then◌else◌, or_null, is_some, truthy, get_or, find_one, update_one, Text, codes,
  same_text,
}
use securevault_backend.Schema.{
  Certificate, CertificateStatus, CertificateRevocation, RevocationReason, reason_name,
  is_revoked_status, is_active_status,
}
use securevault_backend.World.{
  World, Action, ok, bad_request, not_found, duplicate_key, validation_error, failure, pure, raise,
  raise_if, or_raise, gets, modify, clock, new_id, attempt, ◌>>=◌, ◌>>◌,
}
use securevault_backend.Devices.{bind_certificate, trusted}
use securevault_backend.Certificates.Pem.{
  is_valid_certificate_pem, is_valid_csr_pem, pem_body, normalize_serial_number,
}
use securevault_backend.Certificates.VaultPki.{Pki, CertInfo, SignResult, sign_csr, pki_revoke}

abbrev pub with_serial : ℕ → Certificate → Bool
with_serial serial c = c.serial_number == serial

abbrev pub revoked_as : ℕ → CertificateRevocation → Bool
revoked_as serial r = r.certificate_serial == serial

pub record SignParams : Type 0 where
  pub csr : ℕ
  pub user_id : ℕ
  pub employee_id : ℕ
  pub device_id : ℕ
  pub device_fingerprint : ℕ
  pub ttl : Option ℕ

pub record IssuedCertificate : Type 0 where
  pub certificate : ℕ
  pub serial_number : ℕ
  pub issuing_ca : ℕ
  pub ca_chain : List ℕ
  pub valid_from : ℕ
  pub valid_to : ℕ

-- `certificateModel.create`, whose serial numbers have a unique index
unfoldable pub create_certificate : Certificate → Action (Unit {0})
create_certificate certificate = do
  taken ← gets (λ w. is_some (find_one (with_serial certificate.serial_number) w.certificates))
  raise_if taken duplicate_key
  modify λ w. record w { certificates = w.certificates ++ certificate ∷ [] }

-- `revocationModel.create`, whose serial numbers have a unique index
unfoldable pub create_revocation : CertificateRevocation → Action (Unit {0})
create_revocation revocation = do
  taken ← gets (λ w. is_some (find_one (revoked_as revocation.certificate_serial) w.revocations))
  raise_if taken duplicate_key
  modify λ w. record w { revocations = w.revocations ++ revocation ∷ [] }

-- `reason as RevocationReason`, where the schema takes the text
abbrev pub reason_from : Text → Option RevocationReason
reason_from text =
    let is : RevocationReason → Bool = λ r. same_text text (codes (reason_name r)) in
    if is RevocationReason.unspecified
    then some RevocationReason.unspecified
    else if is RevocationReason.key_compromise
    then some RevocationReason.key_compromise
    else if is RevocationReason.ca_compromise
    then some RevocationReason.ca_compromise
    else if is RevocationReason.affiliation_changed
    then some RevocationReason.affiliation_changed
    else if is RevocationReason.superseded
    then some RevocationReason.superseded
    else if is RevocationReason.cessation_of_operation
    then some RevocationReason.cessation_of_operation
    else if is RevocationReason.privilege_withdrawn
    then some RevocationReason.privilege_withdrawn
    else none

-- Why a certificate is not valid
pub data VerifyFailure : Type 0 where
  invalid_pem not_parsed has_expired not_yet_valid not_in_trust_store : VerifyFailure
  has_been_revoked fingerprint_mismatch not_approved tampered : VerifyFailure
  revoked_for : RevocationReason → VerifyFailure

abbrev pub failure_text : VerifyFailure → Text
failure_text VerifyFailure.invalid_pem = codes "Invalid certificate PEM format"
failure_text VerifyFailure.not_parsed = codes "Failed to parse certificate"
failure_text VerifyFailure.has_expired = codes "Certificate has expired"
failure_text VerifyFailure.not_yet_valid = codes "Certificate is not yet valid"
failure_text VerifyFailure.not_in_trust_store = codes "Certificate not found in trust store"
failure_text VerifyFailure.has_been_revoked = codes "Certificate has been revoked"
failure_text VerifyFailure.fingerprint_mismatch =
    codes "Device fingerprint mismatch — certificate not bound to this device"
failure_text VerifyFailure.not_approved = codes "Device is not approved or has been revoked"
failure_text VerifyFailure.tampered = codes "Certificate fingerprint mismatch — possible tampering"
failure_text (VerifyFailure.revoked_for reason) =
    codes "Certificate revoked: " ++ codes (reason_name reason)

-- What `verifyCertificate` answers; the identifiers are empty where no certificate is stored.
pub record VerifyResult : Type 0 where
  pub serial_number : ℕ
  pub employee_id : ℕ
  pub device_id : ℕ
  pub user_id : ℕ
  pub reason : Option VerifyFailure

-- `valid`, which is false exactly where there is a reason
abbrev pub valid : VerifyResult → Bool
valid r = not (is_some r.reason)

abbrev pub unknown : ℕ → VerifyFailure → VerifyResult
unknown serial reason = record {
  serial_number = serial;
  employee_id = 0;
  device_id = 0;
  user_id = 0;
  reason = some reason;
}

abbrev pub answered : Certificate → Option VerifyFailure → VerifyResult
answered c reason = record {
  serial_number = c.serial_number;
  employee_id = c.employee_id;
  device_id = c.device_id;
  user_id = c.user_id;
  reason = reason;
}

module _ (pki : Pki) where
  abbrev pub compute_fingerprint : ℕ → ℕ
  compute_fingerprint pem = pki.digest_base64 (pem_body (pki.chars pem))

  abbrev pub common_name : ℕ → ℕ → ℕ
  common_name employee_id device_id =
      pki.number (
        pki.chars employee_id ++ (codes "." ++ (pki.chars device_id ++ codes ".securevault.local")))

  abbrev pub new_certificate : SignParams → SignResult → ℕ → ℕ → Certificate
  new_certificate params signed id now = record {
    id = id;
    serial_number = signed.serial_number;
    user_id = params.user_id;
    employee_id = params.employee_id;
    device_id = params.device_id;
    device_fingerprint = params.device_fingerprint;
    fingerprint = compute_fingerprint signed.certificate;
    issuer = pki.number (codes "CN=SecureVault Intermediate CA");
    subject =
        pki.number (codes "CN=" ++ pki.chars (common_name params.employee_id params.device_id));
    valid_from = now;
    valid_to = signed.expiration * 1000;
    certificate_pem = some signed.certificate;
    csr_pem = some params.csr;
    status = CertificateStatus.active;
    revoked_at = none;
    revoked_by = none;
    revocation_reason = none;
  }

  abbrev pub issued : SignResult → ℕ → IssuedCertificate
  issued signed now = record {
    certificate = signed.certificate;
    serial_number = signed.serial_number;
    issuing_ca = signed.issuing_ca;
    ca_chain = signed.ca_chain;
    valid_from = now;
    valid_to = signed.expiration * 1000;
  }

  -- From the signed certificate on
  unfoldable pub store_certificate : SignParams → SignResult → Action IssuedCertificate
  store_certificate params signed = do
    now ← clock
    id ← new_id
    create_certificate (new_certificate params signed id now)
    bind_certificate params.device_id signed.serial_number
    pure (issued signed now)

  unfoldable pub sign_and_store_certificate : SignParams → Action IssuedCertificate
  sign_and_store_certificate params = do
    raise_if (not (is_valid_csr_pem (pki.chars params.csr))) (bad_request "Invalid CSR PEM format")
    signed ← sign_csr pki params.csr (common_name params.employee_id params.device_id) params.ttl
    store_certificate params signed

  abbrev pub same_serial : ℕ → Certificate → Bool
  same_serial serial c =
      same_text (normalize_serial_number (pki.chars c.serial_number))
        (normalize_serial_number (pki.chars serial))

  -- By the serial number, and else by the normalized one among those that are not revoked
  abbrev pub stored_for : ℕ → World → Option Certificate
  stored_for serial w = elim (find_one (with_serial serial) w.certificates) [
    | some c ↦ some c
    | none ↦ find_one (λ c. not (is_revoked_status c.status) && same_serial serial c) w.certificates
  ]

  abbrev pub wrong_device : Option ℕ → Certificate → Bool
  wrong_device fingerprint c =
      truthy fingerprint && not (c.device_fingerprint == get_or fingerprint 0)

  -- The checks on a certificate without a revocation; what the chain's verification finds is only
  -- written to the logger.
  abbrev pub check_binding : ℕ → Option ℕ → Certificate → World → VerifyResult
  check_binding pem fingerprint c w =
      if wrong_device fingerprint c
      then answered c (some VerifyFailure.fingerprint_mismatch)
      else if not (is_some (find_one (trusted c.device_fingerprint) w.devices))
      then answered c (some VerifyFailure.not_approved)
      else if not (c.fingerprint == compute_fingerprint pem)
      then answered c (some VerifyFailure.tampered)
      else answered c none

  abbrev pub check_revocation : ℕ → Option ℕ → Certificate → World → VerifyResult
  check_revocation pem fingerprint c w =
      elim (find_one (revoked_as c.serial_number) w.revocations) [
        | some r ↦ answered c (some (VerifyFailure.revoked_for r.reason))
        | none ↦ check_binding pem fingerprint c w
      ]

  abbrev pub check_stored : ℕ → Option ℕ → Certificate → World → VerifyResult
  check_stored pem fingerprint c w =
      if is_revoked_status c.status
      then answered c (some VerifyFailure.has_been_revoked)
      else check_revocation pem fingerprint c w

  -- From the parsed certificate on
  abbrev pub check_parsed : ℕ → Option ℕ → CertInfo → World → VerifyResult
  check_parsed pem fingerprint info w =
      if ltb info.valid_to w.now
      then unknown info.serial_number VerifyFailure.has_expired
      else if ltb w.now info.valid_from
      then unknown info.serial_number VerifyFailure.not_yet_valid
      else elim (stored_for info.serial_number w) [
        | none ↦ unknown info.serial_number VerifyFailure.not_in_trust_store
        | some c ↦ check_stored pem fingerprint c w
      ]

  -- It only reads the collections.
  unfoldable pub verify_certificate : ℕ → Option ℕ → World → VerifyResult
  verify_certificate pem fingerprint w =
      if not (is_valid_certificate_pem (pki.chars pem))
      then unknown 0 VerifyFailure.invalid_pem
      else elim (pki.parse pem) [
        | none ↦ unknown 0 VerifyFailure.not_parsed
        | some info ↦ check_parsed pem fingerprint info w
      ]

  -- `reason || 'unspecified'`
  abbrev pub reason_or : Option ℕ → ℕ
  reason_or reason = get_or (or_null reason) (pki.number (codes "unspecified"))

  abbrev pub mark_revoked : ℕ → ℕ → Option ℕ → Certificate → Certificate
  mark_revoked now by reason c = record c {
    status = CertificateStatus.revoked;
    revoked_at = some now;
    revoked_by = some by;
    revocation_reason = some (reason_or reason);
  }

  -- The stored reason, where the schema takes it
  abbrev pub stored_reason : Option ℕ → Option RevocationReason
  stored_reason reason =
      if truthy reason
      then reason_from (pki.chars (get_or reason 0))
      else some RevocationReason.unspecified

  -- The save of the certificate
  abbrev pub save_revoked : ℕ → ℕ → Option ℕ → Action (Unit {0})
  save_revoked serial by reason = modify λ w. record w {
    certificates = update_one (with_serial serial) (mark_revoked w.now by reason) w.certificates;
  }

  -- The revocation record
  abbrev pub record_revocation : Certificate → ℕ → ℕ → Option ℕ → Option ℕ → Action (Unit {0})
  record_revocation c serial by reason ip = do
    kind ← or_raise (stored_reason reason) validation_error
    id ← new_id
    now ← clock
    create_revocation (record {
      id = id;
      certificate_serial = serial;
      user_id = c.user_id;
      device_id = some c.device_id;
      reason = kind;
      revoked_by = by;
      revoked_at = now;
      ip_address = or_null ip;
    })

  -- From the certificate that was found on
  unfoldable pub revoke_found : ℕ → ℕ → Option ℕ → Option ℕ → Certificate → Action (Unit {0})
  revoke_found serial by reason ip c = do
    raise_if (is_revoked_status c.status) (bad_request "Certificate is already revoked")
    attempt (pki_revoke pki serial)
    save_revoked serial by reason
    record_revocation c serial by reason ip

  unfoldable pub revoke_certificate : ℕ → ℕ → Option ℕ → Option ℕ → Action (Unit {0})
  revoke_certificate serial by reason ip = do
    found ← gets (λ w. find_one (with_serial serial) w.certificates)
    c ← or_raise found (not_found "Certificate not found")
    revoke_found serial by reason ip c

unfoldable pub find_by_serial : ℕ → Action (Option Certificate)
find_by_serial serial = gets (λ w. find_one (with_serial serial) w.certificates)

pub record StatusResponse : Type 0 where
  pub serial_number : ℕ
  pub status : CertificateStatus
  pub valid_from : ℕ
  pub valid_to : ℕ
  pub is_expired : Bool
  pub is_revoked : Bool
  pub revoked_at : Option ℕ
  pub revocation_reason : Option ℕ

unfoldable pub get_status : ℕ → Action StatusResponse
get_status serial = do
  found ← gets (λ w. find_one (with_serial serial) w.certificates)
  c ← or_raise found (not_found "Certificate not found")
  now ← clock
  pure (record {
    serial_number = c.serial_number;
    status = c.status;
    valid_from = c.valid_from;
    valid_to = c.valid_to;
    is_expired = ltb c.valid_to now;
    is_revoked = is_revoked_status c.status;
    revoked_at = c.revoked_at;
    revocation_reason = or_null c.revocation_reason;
  })

-- `isRevoked`, which looks for a revocation record only
unfoldable pub has_revocation : ℕ → Action Bool
has_revocation serial = gets (λ w. is_some (find_one (revoked_as serial) w.revocations))

unfoldable pub find_active_by_device_id : ℕ → Action (Option Certificate)
find_active_by_device_id device_id = gets λ w.
    find_one
      (λ c. (c.device_id == device_id) && (is_active_status c.status && ltb w.now c.valid_to))
      w.certificates
