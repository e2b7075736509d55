-- ===== src/Auth/CertificateLogin/Tests.antt =====
-- A concrete login by certificate, and the theorem on it.
use securevault_backend.Prelude.{◌&&◌, true, some, [], ◌∷◌, ◌≡◌, refl, find_one, count_documents}
use securevault_backend.Schema.{User, Role}
use securevault_backend.World.{World, ok, log}
use securevault_backend.Users.{user_by_id, not_deleted, find_by_id}
use securevault_backend.Users.Examples.{alice, plain_env}
use securevault_backend.Sessions.{active_on, create_session}
use securevault_backend.Devices.{update_last_seen}
use securevault_backend.Auth.{issue, generate_tokens, store_refresh_token, create_refresh_token}
use securevault_backend.Certificates.{verify_certificate}
use securevault_backend.Certificates.Pem.{
  normalize_serial_number, is_valid_certificate_pem, pem_body,
}
use securevault_backend.Certificates.Verification.{Genuine}
use securevault_backend.Certificates.Tests.Toy.{toy_pki, trust_store}
use securevault_backend.Auth.CertificateLogin.{
  CertificateLoginDto, CertificateLoginResponse, certificate_login, login_verified, open_session,
}
use securevault_backend.Auth.CertificateLogin.Genuineness.{certificate_login-Genuine}

abbrev holder : User
holder = record alice { id = 2 }

abbrev office : World
office = record trust_store { users = holder ∷ [] }

abbrev card : CertificateLoginDto
card = record { certificate = 1; device_fingerprint = 50 }

abbrev welcome : CertificateLoginResponse
welcome = record {
  access_token = 3;
  refresh_token = 3;
  session_id = 9;
  id = 2;
  uuid = 11;
  email = 21;
  first_name = 41;
  last_name = 42;
  role = Role.admin;
  device_id = 6;
  employee_id = 3;
  serial_number = 77;
}

card-welcome : (certificate_login plain_env toy_pki card 9 8 office).0 ≡ ok welcome
unfolding certificate_login login_verified verify_certificate is_valid_certificate_pem pem_body
    normalize_serial_number find_by_id issue generate_tokens store_refresh_token
    create_refresh_token open_session create_session update_last_seen log
card-welcome = refl

certificate_login-Genuine_example :
    (g : Genuine toy_pki 1 (some 50) office) × (u : User) × (find_one
        (λ x. user_by_id g.stored.user_id x && not_deleted x)
        office.users
      ≡ some u)
    × (u.is_active ≡ true)
    × (2 ≡ u.id)
    × (Role.admin ≡ u.role)
    × (6 ≡ g.stored.device_id)
    × (77 ≡ g.stored.serial_number)
    × (count_documents
          (active_on u.id g.stored.device_id)
          (certificate_login plain_env toy_pki card 9 8 office).1.sessions
        ≡ 1)
certificate_login-Genuine_example =
    certificate_login-Genuine plain_env toy_pki card 9 8 office welcome card-welcome
