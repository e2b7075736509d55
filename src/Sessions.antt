-- ===== src/Sessions.antt =====
-- `SessionsService` (src/modules/sessions/sessions.service.ts).
pub mod Ended
mod Tests
use securevault_backend.Prelude.{
  ℕ, Bool, true, false, ◌&&◌, Option, none, some, List, [], ◌∷◌, ◌++◌, ◌==◌, if◌then◌else◌, ltb,
  get_or, or_null, find_one, find_all, count_documents, update_one, update_many,
}
use securevault_backend.Schema.{Session, AuthMethod}
use securevault_backend.World.{World, Action, pure, gets, modify, clock, new_id, ◌>>=◌, ◌>>◌}

-- The parameters of `createSession`
pub record SessionParams : Type 0 where
  pub user_id : ℕ
  pub device_id : ℕ
  pub certificate_serial : Option ℕ
  pub ip_address : Option ℕ
  pub user_agent : Option ℕ
  pub auth_method : Option AuthMethod

-- `{ userId, deviceId, isActive: true }`
abbrev pub active_on : ℕ → ℕ → Session → Bool
active_on user_id device_id s =
    (s.user_id == user_id) && ((s.device_id == device_id) && s.is_active)

-- `{ userId, isActive: true }`
abbrev pub active_of : ℕ → Session → Bool
active_of user_id s = (s.user_id == user_id) && s.is_active

-- `{ deviceId, isActive: true }`
abbrev pub active_device : ℕ → Session → Bool
active_device device_id s = (s.device_id == device_id) && s.is_active

abbrev pub ended : ℕ → Session → Session
ended now s = record s { is_active = false; ended_at = some now }

-- `updateMany(filter, { isActive: false, endedAt: new Date() })`
abbrev pub end_sessions : (Session → Bool) → Action (Unit {0})
end_sessions p = modify λ w. record w { sessions = update_many p (ended w.now) w.sessions }

abbrev pub new_session : SessionParams → ℕ → ℕ → Session
new_session params session_id now = record {
  session_id = session_id;
  user_id = params.user_id;
  device_id = params.device_id;
  certificate_serial = or_null params.certificate_serial;
  ip_address = or_null params.ip_address;
  user_agent = or_null params.user_agent;
  is_active = true;
  started_at = now;
  ended_at = none;
  last_activity_at = now;
  auth_method = get_or params.auth_method AuthMethod.certificate;
}

unfoldable pub create_session : SessionParams → Action Session
create_session params = do
  end_sessions (active_on params.user_id params.device_id)
  session_id ← new_id
  now ← clock
  modify λ w. record w { sessions = w.sessions ++ new_session params session_id now ∷ [] }
  pure (new_session params session_id now)

unfoldable pub end_session : ℕ → Action (Unit {0})
end_session session_id = modify λ w. record w {
  sessions = update_one (λ s. s.session_id == session_id) (ended w.now) w.sessions;
}

unfoldable pub end_all_user_sessions : ℕ → Action (Unit {0})
end_all_user_sessions user_id = end_sessions (active_of user_id)

unfoldable pub end_device_sessions : ℕ → Action (Unit {0})
end_device_sessions device_id = end_sessions (active_device device_id)

unfoldable pub update_activity : ℕ → Action (Unit {0})
update_activity session_id = modify λ w. record w {
  sessions =
      update_one (λ s. s.session_id == session_id) (λ s. record s { last_activity_at = w.now })
        w.sessions;
}

-- `sort({ lastActivityAt: -1 })`, which keeps the order of equal times here
abbrev insert_latest : Session → List Session → List Session
insert_latest s [] = s ∷ []
insert_latest s (t ∷ ts) =
    let rest = insert_latest s ts in
    if ltb s.last_activity_at t.last_activity_at then t ∷ rest else s ∷ t ∷ ts

abbrev pub latest_first : List Session → List Session
latest_first [] = []
latest_first (s ∷ ss) = insert_latest s (latest_first ss)

unfoldable pub get_active_sessions : ℕ → Action (List Session)
get_active_sessions user_id = gets (λ w. latest_first (find_all (active_of user_id) w.sessions))

unfoldable pub find_by_session_id : ℕ → Action (Option Session)
find_by_session_id session_id = gets (λ w. find_one (λ s. s.session_id == session_id) w.sessions)

unfoldable pub count_active_sessions : ℕ → Action ℕ
count_active_sessions user_id = gets (λ w. count_documents (active_of user_id) w.sessions)
