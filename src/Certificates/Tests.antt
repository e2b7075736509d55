-- ===== src/Certificates/Tests.antt =====
-- A small PKI and a trust store with one certificate, for tests, and the theorems on them.
pub mod Toy
use securevault_backend.Prelude.{
  ℕ, true, false, Option, none, some, [], ◌∷◌, ◌≡◌, refl, ◌↔◌, arith, find_one, Text, codes,
}
use securevault_backend.Schema.{Certificate, CertificateStatus}
use securevault_backend.World.{World, ok}
use securevault_backend.Certificates.{
  with_serial, valid, verify_certificate, revoke_certificate, revoke_found, create_revocation,
  sign_and_store_certificate,
}
use securevault_backend.Certificates.Pem.{
  is_valid_certificate_pem, pem_body, format_serial_number, normalize_serial_number,
}
use securevault_backend.Certificates.Verification.{Genuine, verify_certificate-Genuine_iff}
use securevault_backend.Certificates.Revocation.{
  CertRun, Names, IsUnique, revoke_certificate-invalid,
}
use securevault_backend.Certificates.VaultPki.{pki_revoke}
use securevault_backend.Certificates.Tests.Toy.{toy_pki, badge, trust_store}

pem-body :
    pem_body (codes "-----BEGIN CERTIFICATE-----\n# CN\nAQ\nIg\n-----END CERTIFICATE-----")
    ≡ codes "AQIg"
unfolding pem_body
pem-body = refl

serial-formatted : format_serial_number (codes "AB12") ≡ codes "ab:12"
unfolding format_serial_number
serial-formatted = refl

-- The last digit of a serial number of odd length is dropped.
serial-odd : format_serial_number (codes "ABC") ≡ codes "ab"
unfolding format_serial_number
serial-odd = refl

serial-normalized : normalize_serial_number (codes "AB:12") ≡ codes "ab12"
unfolding normalize_serial_number
serial-normalized = refl

badge-valid : valid (verify_certificate toy_pki 1 (some 50) trust_store) ≡ true
unfolding verify_certificate is_valid_certificate_pem pem_body normalize_serial_number
badge-valid = refl

verify_certificate-Genuine_iff_example :
    (valid (verify_certificate toy_pki 1 (some 50) trust_store) ≡ true)
    ↔ Genuine toy_pki 1 (some 50) trust_store
verify_certificate-Genuine_iff_example =
    verify_certificate-Genuine_iff toy_pki 1 (some 50) trust_store

-- The certificate states its serial number without the colons of the stored one.
spelled : Names toy_pki 77 (record { serial_number = 78; valid_from = 10; valid_to = 90 })
unfolding normalize_serial_number
spelled = refl

alone : IsUnique toy_pki 77 (revoke_certificate toy_pki 77 9 none none trust_store).1
unfolding normalize_serial_number revoke_certificate revoke_found pki_revoke create_revocation
alone = omega arith

revoke_certificate-invalid_example :
    valid (
      verify_certificate toy_pki 1
        (some 50)
        (revoke_certificate toy_pki 77 9 none none trust_store).1)
    ≡ false
revoke_certificate-invalid_example =
    revoke_certificate-invalid toy_pki 77 9 1 none none (some 50) badge
      (record { serial_number = 78; valid_from = 10; valid_to = 90 }) trust_store
      (revoke_certificate toy_pki 77 9 none none trust_store).1 refl
      (CertRun.done (revoke_certificate toy_pki 77 9 none none trust_store).1) alone refl spelled
