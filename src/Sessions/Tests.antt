-- ===== src/Sessions/Tests.antt =====
-- Concrete sessions, and the theorems on active sessions at them.
use securevault_backend.Prelude.{none, some, arith}
use securevault_backend.World.{World, empty_world}
use securevault_backend.Sessions.{SessionParams, create_session, end_session}
use securevault_backend.Sessions.Ended.{
  OnePerDevice, SessionStep, SessionRun, SessionRun-OnePerDevice,
}

abbrev laptop : SessionParams
laptop = record {
  user_id = 1;
  device_id = 8;
  certificate_serial = some 90;
  ip_address = none;
  user_agent = none;
  auth_method = none;
}

abbrev once_in : World
once_in = (create_session laptop empty_world).1

abbrev twice_in : World
twice_in = (create_session laptop once_in).1

empty_world-OnePerDevice : OnePerDevice empty_world
empty_world-OnePerDevice u d = omega arith

SessionRun-OnePerDevice_example : OnePerDevice (end_session 1 twice_in).1
SessionRun-OnePerDevice_example =
    SessionRun-OnePerDevice
      (SessionRun.then (SessionStep.create laptop empty_world) (
        SessionRun.then (SessionStep.create laptop once_in)
          (SessionRun.then (SessionStep.finish 1 twice_in) (SessionRun.done _))))
      empty_world-OnePerDevice
