-- ===== src/Admin/Desk.antt =====
-- The rest of `AdminService` (src/modules/admin/admin.service.ts): one account, the listings and
-- the enrollment tokens, which it leaves to the other services.
use securevault_backend.Prelude.{ℕ, Option, some, List}
use securevault_backend.Schema.{User, Device, AuditEntry, AuthenticatedUser}
use securevault_backend.World.{Action, gets, or_raise, not_found, ◌>>=◌}
use securevault_backend.Users
use securevault_backend.Setup
use securevault_backend.Setup.{TokenParams}
use securevault_backend.Listings.{
  Matching, Page, UsersQuery, DevicesQuery, AuditQuery, find_all_users, find_all_devices,
  find_all_entries,
}

-- `CreateEnrollmentTokenDto`
pub record CreateEnrollmentTokenDto : Type 0 where
  pub user_id : ℕ
  pub employee_id : ℕ
  pub expires_in_hours : Option ℕ
  pub max_devices : Option ℕ

unfoldable pub get_user_by_id : ℕ → Action User
get_user_by_id id = do found ← Users.find_by_id id; or_raise found (not_found "User not found")

unfoldable pub create_enrollment_token :
    (ℕ → ℕ) → CreateEnrollmentTokenDto → AuthenticatedUser → ℕ → Action (ℕ × ℕ)
unfolding Setup.create_enrollment_token
create_enrollment_token secure_token dto admin ip =
    Setup.create_enrollment_token secure_token record {
      user_id = dto.user_id;
      employee_id = dto.employee_id;
      expires_in_hours = dto.expires_in_hours;
      max_devices = dto.max_devices;
      created_by = admin.user_id;
      ip_address = some ip;
    }

module _ (matching : Matching) where
  abbrev pub get_users : (List User → List User) → UsersQuery → Action (Page User)
  get_users sort query = gets (λ w. find_all_users matching sort query w)

  abbrev pub get_devices : (List Device → List Device) → DevicesQuery → Action (Page Device)
  get_devices sort query = gets (λ w. find_all_devices matching sort query w)

  abbrev pub get_audit_logs :
      (List AuditEntry → List AuditEntry) → AuditQuery → Action (Page AuditEntry)
  get_audit_logs sort query = gets (λ w. find_all_entries matching sort query w)
