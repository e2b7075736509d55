-- ===== src/Devices/Tests.antt =====
-- Concrete devices, and the theorems on the registry at them.
use securevault_backend.Prelude.{true, none, some, ◌≡◌, ◌↔◌, arith, find_one}
use securevault_backend.Schema.{Device, DeviceStatus}
use securevault_backend.World.{World, empty_world, ok}
use securevault_backend.Devices.{
  RegisterDeviceDto, with_fingerprint, register_device, approve_device, is_device_trusted,
}
use securevault_backend.Devices.Registry.{
  Distinct, DeviceStep, DeviceRun, DeviceRun-Distinct, is_device_trusted_iff,
}

abbrev workstation : RegisterDeviceDto
workstation = record {
  fingerprint = 5;
  employee_id = 6;
  hostname = none;
  platform = none;
  arch = none;
  os_version = none;
  mac_address = none;
  serial_number = none;
}

abbrev registered : World
registered = (register_device workstation 1 empty_world).1

abbrev approved : World
approved = (approve_device 2 9 registered).1

empty_world-Distinct : Distinct empty_world
empty_world-Distinct fp = omega arith

approved-Distinct : Distinct approved
approved-Distinct =
    DeviceRun-Distinct
      (DeviceRun.then (DeviceStep.register workstation 1 empty_world)
        (DeviceRun.then (DeviceStep.approval 2 9 registered) (DeviceRun.done _)))
      empty_world-Distinct

DeviceRun-Distinct_example : Distinct approved
DeviceRun-Distinct_example =
    DeviceRun-Distinct
      (DeviceRun.then (DeviceStep.register workstation 1 empty_world)
        (DeviceRun.then (DeviceStep.approval 2 9 registered) (DeviceRun.done _)))
      empty_world-Distinct

is_device_trusted_iff_example : (is_device_trusted 5 approved ≡ (ok true, approved)) ↔ (
    (d : Device) × (find_one (with_fingerprint 5) approved.devices ≡ some d)
    × (d.status ≡ DeviceStatus.approved))
is_device_trusted_iff_example = is_device_trusted_iff 5 approved approved-Distinct
