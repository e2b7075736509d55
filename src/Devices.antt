-- ===== src/Devices.antt =====
-- `DevicesService` (src/modules/devices/devices.service.ts).
pub mod Registry
mod Tests
use securevault_backend.Prelude.{
  ℕ, Bool, true, false, ◌&&◌, ◌||◌, not, Option, none, some, String, List, [], ◌∷◌, ◌++◌, ◌==◌,
  if◌then◌else◌, or_null, is_some, truthy, get_or, find_one, find_all, update_one,
}
use securevault_backend.Schema.{Device, DeviceStatus, same_device_status}
use securevault_backend.World.{
  World, Action, ok, throw, Exception, not_found, bad_request, conflict, duplicate_key, pure, raise,
  raise_if, or_raise, gets, modify, clock, new_id, ◌>>=◌, ◌>>◌,
}

pub record RegisterDeviceDto : Type 0 where
  pub fingerprint : ℕ
  pub employee_id : ℕ
  pub hostname : Option ℕ
  pub platform : Option ℕ
  pub arch : Option ℕ
  pub os_version : Option ℕ
  pub mac_address : Option ℕ
  pub serial_number : Option ℕ

pub record UpdateDeviceStatusDto : Type 0 where
  pub status : DeviceStatus
  pub reason : Option ℕ

abbrev pub with_fingerprint : ℕ → Device → Bool
with_fingerprint fingerprint d = d.fingerprint == fingerprint

abbrev pub with_device_id : ℕ → Device → Bool
with_device_id device_id d = d.device_id == device_id

abbrev pub with_id : ℕ → Device → Bool
with_id id d = d.id == id

-- `registerDevice` on a device that has the fingerprint.
abbrev pub refuse_existing : Option Device → Action (Unit {0})
refuse_existing none = pure tt
refuse_existing (some existing) = do
  raise_if
      (same_device_status existing.status DeviceStatus.revoked
        || same_device_status existing.status DeviceStatus.blocked)
      (conflict "This device fingerprint has been revoked or blocked. Contact your administrator.")
  raise_if
      (same_device_status existing.status DeviceStatus.approved
        || same_device_status existing.status DeviceStatus.pending)
      (conflict "A device with this fingerprint is already registered.")

abbrev pub new_device : RegisterDeviceDto → ℕ → ℕ → ℕ → Device
new_device dto user_id id device_id = record {
  id = id;
  device_id = device_id;
  user_id = user_id;
  employee_id = dto.employee_id;
  fingerprint = dto.fingerprint;
  hostname = or_null dto.hostname;
  platform = or_null dto.platform;
  arch = or_null dto.arch;
  os_version = or_null dto.os_version;
  mac_address = or_null dto.mac_address;
  serial_number = or_null dto.serial_number;
  status = DeviceStatus.pending;
  certificate_serial = none;
  last_seen_at = none;
  last_seen_ip = none;
  enrolled_by = some user_id;
  approved_at = none;
  approved_by = none;
  revoked_at = none;
  revoked_by = none;
  revoke_reason = none;
}

-- The rest of `registerDevice`.
unfoldable pub add_device : RegisterDeviceDto → ℕ → Action Device
add_device dto user_id = do
  id ← new_id
  device_id ← new_id
  modify λ w. record w { devices = w.devices ++ new_device dto user_id id device_id ∷ [] }
  pure (new_device dto user_id id device_id)

unfoldable pub register_device : RegisterDeviceDto → ℕ → Action Device
register_device dto user_id = do
  existing ← gets (λ w. find_one (with_fingerprint dto.fingerprint) w.devices)
  refuse_existing existing
  add_device dto user_id

unfoldable pub find_by_device_id : ℕ → Action (Option Device)
find_by_device_id device_id = gets (λ w. find_one (with_device_id device_id) w.devices)

unfoldable pub find_by_id : ℕ → Action (Option Device)
find_by_id id = gets (λ w. find_one (with_id id) w.devices)

unfoldable pub find_by_fingerprint : ℕ → Action (Option Device)
find_by_fingerprint fingerprint = gets (λ w. find_one (with_fingerprint fingerprint) w.devices)

abbrev pub approve : ℕ → ℕ → Device → Device
approve now by d = record d {
  status = DeviceStatus.approved;
  approved_at = some now;
  approved_by = some by;
}

-- `device.save()` of a change to the document
unfoldable pub save_device : ℕ → (Device → Device) → Action (Unit {0})
save_device id change = modify λ w. record w { devices = update_one (with_id id) change w.devices }

-- `approveDevice` from the device that was found
abbrev pub approve_found : ℕ → Device → Action Device
approve_found approved_by device = do
  raise_if (not (same_device_status device.status DeviceStatus.pending))
      (bad_request "Cannot approve device")
  now ← clock
  save_device device.id (approve now approved_by)
  pure (approve now approved_by device)

unfoldable pub approve_device : ℕ → ℕ → Action Device
unfolding save_device
approve_device device_id approved_by = do
  found ← gets (λ w. find_one (with_device_id device_id) w.devices)
  device ← or_raise found (not_found "Device not found")
  approve_found approved_by device

-- What `updateStatus` saves; `blocked_by_administrator` is the default reason's text.
abbrev pub with_status : UpdateDeviceStatusDto → ℕ → ℕ → ℕ → Device → Device
with_status dto by blocked_by_administrator now d = elim dto.status [
  | DeviceStatus.pending ↦ record d { status = DeviceStatus.pending }
  | DeviceStatus.approved ↦ approve now by d
  | DeviceStatus.revoked ↦ record d {
    status = DeviceStatus.revoked;
    revoked_at = some now;
    revoked_by = some by;
    revoke_reason = or_null dto.reason;
  }
  | DeviceStatus.blocked ↦ record d {
    status = DeviceStatus.blocked;
    revoked_at = some now;
    revoked_by = some by;
    revoke_reason =
        some (if truthy dto.reason then get_or dto.reason 0 else blocked_by_administrator);
  }
]

unfoldable pub update_status : ℕ → UpdateDeviceStatusDto → ℕ → ℕ → Action Device
unfolding save_device
update_status id dto updated_by blocked_by_administrator = do
  found ← gets (λ w. find_one (with_id id) w.devices)
  device ← or_raise found (not_found "Device not found")
  now ← clock
  save_device device.id (with_status dto updated_by blocked_by_administrator now)
  pure (with_status dto updated_by blocked_by_administrator now device)

unfoldable pub bind_certificate : ℕ → ℕ → Action (Unit {0})
bind_certificate device_id certificate_serial = modify λ w. record w {
  devices =
      update_one (with_device_id device_id)
        (λ d. record d { certificate_serial = some certificate_serial }) w.devices;
}

unfoldable pub update_last_seen : ℕ → ℕ → Action (Unit {0})
update_last_seen device_id ip = modify λ w. record w {
  devices =
      update_one (with_device_id device_id)
        (λ d. record d { last_seen_at = some w.now; last_seen_ip = some ip }) w.devices;
}

-- `{ fingerprint, status: APPROVED }`
abbrev pub trusted : ℕ → Device → Bool
trusted fingerprint d =
    (d.fingerprint == fingerprint) && same_device_status d.status DeviceStatus.approved

unfoldable pub is_device_trusted : ℕ → Action Bool
is_device_trusted fingerprint = gets (λ w. is_some (find_one (trusted fingerprint) w.devices))
