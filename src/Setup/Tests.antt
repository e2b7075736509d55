-- ===== src/Setup/Tests.antt =====
-- A concrete enrollment, and the theorems on tokens at it.
use securevault_backend.Prelude.{ℕ, ◌+◌, true, none, some, [], ◌∷◌, ◌≡◌, refl, ◌≤◌, find_one}
use securevault_backend.World.{World, empty_world, log}
use securevault_backend.Users.{find_by_id}
use securevault_backend.Users.Examples.{alice}
use securevault_backend.Devices.{
  register_device, add_device, approve_device, save_device, bind_certificate,
}
use securevault_backend.Certificates.{
  sign_and_store_certificate, store_certificate, create_certificate, valid, verify_certificate,
}
use securevault_backend.Certificates.Pem.{
  normalize_serial_number, is_valid_csr_pem, is_valid_certificate_pem, pem_body,
}
use securevault_backend.Certificates.VaultPki.{sign_csr}
use securevault_backend.Certificates.Tests.Toy.{toy_pki}
use securevault_backend.Setup.{
  with_token, TokenParams, EnrollDeviceDto, create_enrollment_token, create_token, verify_token,
  admit, enroll_with, enroll_device, consume_token,
}
use securevault_backend.Setup.Consumption.{EnrollsOnce, enroll_device-Usable}
use securevault_backend.Setup.Bounds.{SetupStep, SetupRun, spent, enrollments, SetupRun-Bounded}
use securevault_backend.Schema.{EnrollmentToken}

abbrev secure_token : ℕ → ℕ
secure_token n = n + 500

abbrev office : World
office = record empty_world { users = alice ∷ []; next_id = 8; now = 30 }

abbrev one_laptop : TokenParams
one_laptop = record {
  user_id = 1;
  employee_id = 3;
  expires_in_hours = none;
  max_devices = none;
  created_by = 9;
  ip_address = none;
}

abbrev invited : World
invited = (create_enrollment_token secure_token one_laptop office).1

abbrev request : EnrollDeviceDto
request = record {
  enrollment_token = 508;
  employee_id = 3;
  csr = 2;
  device_fingerprint = 50;
  hostname = none;
  platform = none;
  arch = none;
  os_version = none;
  mac_address = none;
  serial_number = none;
}

abbrev laptop_enrolled : World
laptop_enrolled = (enroll_device toy_pki request 6 invited).1

-- The device that was enrolled has a certificate that is answered valid.
enrolled-valid : valid (verify_certificate toy_pki 1 (some 50) laptop_enrolled) ≡ true
unfolding create_enrollment_token create_token find_by_id log enroll_device enroll_with verify_token
    admit register_device add_device approve_device save_device sign_and_store_certificate
    is_valid_csr_pem sign_csr store_certificate create_certificate bind_certificate consume_token
    verify_certificate is_valid_certificate_pem pem_body normalize_serial_number
enrolled-valid = refl

enroll_device-Usable_example :
    EnrollsOnce request invited toy_pki 6 (enroll_device toy_pki request 6 invited)
enroll_device-Usable_example = enroll_device-Usable request invited toy_pki 6

abbrev one_enrollment : SetupRun toy_pki secure_token office laptop_enrolled
one_enrollment = SetupRun.step office invited laptop_enrolled (SetupStep.create one_laptop office) (
    SetupRun.step invited laptop_enrolled laptop_enrolled (SetupStep.enroll request 6 invited)
      (SetupRun.done laptop_enrolled))

SetupRun-Bounded_example :
    ((t : EnrollmentToken)
      → find_one (with_token 508) laptop_enrolled.enrollment_tokens ≡ some t
      → spent 508 office
          + enrollments toy_pki secure_token 508 office laptop_enrolled one_enrollment
        ≤ t.max_devices)
    × (find_one (with_token 508) laptop_enrolled.enrollment_tokens ≡ none
        → enrollments toy_pki secure_token 508 office laptop_enrolled one_enrollment ≡ 0)
SetupRun-Bounded_example =
    SetupRun-Bounded toy_pki secure_token 508 office laptop_enrolled one_enrollment tt
