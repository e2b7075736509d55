-- ===== src/Certificates/Tests/Toy.antt =====
-- A PKI that knows one certificate, and a trust store that holds it, for tests.
use securevault_backend.Prelude.{
  ℕ, true, false, none, some, [], ◌∷◌, Text, codes, ◌==◌, if◌then◌else◌, length,
}
use securevault_backend.Schema.{Certificate, CertificateStatus, Device, DeviceStatus}
use securevault_backend.World.{World, empty_world}
use securevault_backend.Certificates.VaultPki.{Pki}

abbrev pub toy_chars : ℕ → Text
toy_chars n =
    if n == 1
    then codes "-----BEGIN CERTIFICATE-----\nAQ\n-----END CERTIFICATE-----"
    else if n == 2
    then codes "-----BEGIN CERTIFICATE REQUEST-----\nAg\n-----END CERTIFICATE REQUEST-----"
    else if n == 77
    then codes "1A:2B"
    else if n == 78
    then codes "1A2B"
    else n ∷ []

abbrev pub toy_pki : Pki
toy_pki = record {
  chars = toy_chars;
  number = λ t. length t;
  parse = λ pem.
      if pem == 1
      then some (record { serial_number = 78; valid_from = 10; valid_to = 90 })
      else none;
  digest_base64 = λ t. length t;
  connected = true;
  sign = λ csr name ttl w. some (record {
    certificate = 1;
    issuing_ca = 8;
    ca_chain = 8 ∷ [];
    serial_number = 77;
    expiration = 90;
  });
  mock = λ name csr w. record {
    certificate = 1;
    issuing_ca = 8;
    ca_chain = [];
    serial_number = w.next_id;
    expiration = 90;
  };
  refuses_revoke = λ serial w. false;
}

abbrev pub laptop : Device
laptop = record {
  id = 5;
  device_id = 6;
  user_id = 2;
  employee_id = 3;
  fingerprint = 50;
  hostname = none;
  platform = none;
  arch = none;
  os_version = none;
  mac_address = none;
  serial_number = none;
  status = DeviceStatus.approved;
  certificate_serial = some 77;
  last_seen_at = none;
  last_seen_ip = none;
  enrolled_by = some 2;
  approved_at = some 20;
  approved_by = some 1;
  revoked_at = none;
  revoked_by = none;
  revoke_reason = none;
}

abbrev pub badge : Certificate
badge = record {
  id = 7;
  serial_number = 77;
  user_id = 2;
  employee_id = 3;
  device_id = 6;
  device_fingerprint = 50;
  fingerprint = 2;
  issuer = 0;
  subject = 0;
  valid_from = 10;
  valid_to = 90;
  certificate_pem = some 1;
  csr_pem = some 2;
  status = CertificateStatus.active;
  revoked_at = none;
  revoked_by = none;
  revocation_reason = none;
}

abbrev pub trust_store : World
trust_store = record empty_world {
  certificates = badge ∷ [];
  devices = laptop ∷ [];
  next_id = 8;
  now = 30;
}
