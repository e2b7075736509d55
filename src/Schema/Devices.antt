-- ===== src/Schema/Devices.antt =====
-- Devices and enrollment tokens (src/modules/devices/schemas, src/modules/setup/schemas).
use securevault_backend.Prelude.{ℕ, Bool, true, false, Option}

pub data DeviceStatus : Type 0 where
  pending approved revoked blocked : DeviceStatus

-- `===` on device statuses
abbrev pub same_device_status : DeviceStatus → DeviceStatus → Bool
same_device_status DeviceStatus.pending DeviceStatus.pending = true
same_device_status DeviceStatus.approved DeviceStatus.approved = true
same_device_status DeviceStatus.revoked DeviceStatus.revoked = true
same_device_status DeviceStatus.blocked DeviceStatus.blocked = true
same_device_status _ _ = false

pub record Device : Type 0 where
  pub id : ℕ
  pub device_id : ℕ
  pub user_id : ℕ
  pub employee_id : ℕ
  pub fingerprint : ℕ
  pub hostname : Option ℕ
  pub platform : Option ℕ
  pub arch : Option ℕ
  pub os_version : Option ℕ
  pub mac_address : Option ℕ
  pub serial_number : Option ℕ
  pub status : DeviceStatus
  pub certificate_serial : Option ℕ
  pub last_seen_at : Option ℕ
  pub last_seen_ip : Option ℕ
  pub enrolled_by : Option ℕ
  pub approved_at : Option ℕ
  pub approved_by : Option ℕ
  pub revoked_at : Option ℕ
  pub revoked_by : Option ℕ
  pub revoke_reason : Option ℕ

pub record EnrollmentToken : Type 0 where
  pub id : ℕ
  pub token : ℕ
  pub user_id : ℕ
  pub employee_id : ℕ
  pub expires_at : ℕ
  pub is_used : Bool
  pub used_at : Option ℕ
  pub used_by_device_fingerprint : Option ℕ
  pub used_from_ip : Option ℕ
  pub created_by : ℕ
  pub max_devices : ℕ
  pub used_count : ℕ
