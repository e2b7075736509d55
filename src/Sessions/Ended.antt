-- ===== src/Sessions/Ended.antt =====
-- Which sessions are active after the operations on sessions
-- (src/modules/sessions/sessions.service.ts).
use securevault_backend.Prelude.{
  ℕ, ◌≤◌, Bool, ◌&&◌, List, [], ◌∷◌, ◌≡◌, inl, inr, arith, ◌==◌, count_documents, update_many,
  count_documents-update_all, count_documents-append, count_documents-update_many-le,
  count_documents-update_one-le, Bool-cases,
}
use securevault_backend.Schema.{Session}
use securevault_backend.World.{World}
use securevault_backend.Sessions.{
  SessionParams, active_on, active_of, active_device, ended, new_session, create_session,
  end_session, end_all_user_sessions, end_device_sessions, update_activity,
}

-- After `createSession`, the user has exactly one active session on the device: the new one.
pub create_session_one :
    (params : SessionParams) (w : World)
    → count_documents
        (active_on params.user_id params.device_id)
        (create_session params w).1.sessions
      ≡ 1
unfolding create_session
create_session_one params w = ground (
  arith,
  count_documents-append (active_on params.user_id params.device_id)
      (update_many (active_on params.user_id params.device_id) (ended w.now) w.sessions)
      (new_session params w.next_id w.now ∷ []),
  count_documents-update_all (active_on params.user_id params.device_id)
      (active_on params.user_id params.device_id) (ended w.now) w.sessions (λ s h. ground arith)
      (λ s h. h),
)

-- A user has at most one active session on each device.
abbrev pub OnePerDevice : World → Type 0
OnePerDevice w =
    (user_id device_id : ℕ) → count_documents (active_on user_id device_id) w.sessions ≤ 1

-- One operation of the service that writes.
pub data SessionStep : World → World → Type 0 where
  create : (params : SessionParams) (w : World) → SessionStep w (create_session params w).1
  finish : (session_id : ℕ) (w : World) → SessionStep w (end_session session_id w).1
  finish_all : (user_id : ℕ) (w : World) → SessionStep w (end_all_user_sessions user_id w).1
  finish_device : (device_id : ℕ) (w : World) → SessionStep w (end_device_sessions device_id w).1
  activity : (session_id : ℕ) (w : World) → SessionStep w (update_activity session_id w).1

ending-le :
    (p : Session → Bool) (u d now : ℕ) (ss : List Session)
    → count_documents (active_on u d) (update_many p (ended now) ss)
      ≤ count_documents (active_on u d) ss
ending-le p u d now ss =
    count_documents-update_many-le (active_on u d) p (ended now) ss (λ s hit h. ground arith)

create_session-OnePerDevice :
    (params : SessionParams) (w : World) → OnePerDevice w → OnePerDevice (create_session params w).1
unfolding create_session
create_session-OnePerDevice params w h u d =
    let added =
      count_documents-append (active_on u d)
        (update_many (active_on params.user_id params.device_id) (ended w.now) w.sessions)
        (new_session params w.next_id w.now ∷ []) in
    let kept = ending-le (active_on params.user_id params.device_id) u d w.now w.sessions in
    let one = create_session_one params w in
    let before = h u d in
    elim (Bool-cases ((params.user_id == u) && (params.device_id == d))) [
      | inl same ↦
          let user : params.user_id ≡ u = ground arith in
          let device : params.device_id ≡ d = ground arith in
          let here : count_documents (active_on u d) (create_session params w).1.sessions ≡ 1 =
            rw (← user, ← device) one in
          omega (arith, here)
      | inr other ↦ ground arith
    ]

pub SessionStep-OnePerDevice : {w w' : World} → SessionStep w w' → OnePerDevice w → OnePerDevice w'
unfolding end_session end_all_user_sessions end_device_sessions update_activity
SessionStep-OnePerDevice (SessionStep.create params w) h u d =
    create_session-OnePerDevice params w h u d
SessionStep-OnePerDevice (SessionStep.finish i w) h u d =
    let kept =
      count_documents-update_one-le (active_on u d) (λ s. s.session_id == i) (ended w.now)
        w.sessions (λ s hit e. ground arith) in
    omega (arith, h u d)
SessionStep-OnePerDevice (SessionStep.finish_all i w) h u d =
    let kept = ending-le (active_of i) u d w.now w.sessions in omega (arith, h u d)
SessionStep-OnePerDevice (SessionStep.finish_device i w) h u d =
    let kept = ending-le (active_device i) u d w.now w.sessions in omega (arith, h u d)
SessionStep-OnePerDevice (SessionStep.activity i w) h u d =
    let kept =
      count_documents-update_one-le (active_on u d) (λ s. s.session_id == i)
        (λ s. record s { last_activity_at = w.now }) w.sessions (λ s hit e. e) in
    omega (arith, h u d)

-- Any number of operations, one after another.
pub data SessionRun : World → World → Type 0 where
  done : (w : World) → SessionRun w w
  then : {w w' w'' : World} → SessionStep w w' → SessionRun w' w'' → SessionRun w w''

-- Whatever operations on sessions run, in whatever order, a user keeps at most one active session
-- on each device.
pub SessionRun-OnePerDevice : {w w' : World} → SessionRun w w' → OnePerDevice w → OnePerDevice w'
SessionRun-OnePerDevice (SessionRun.done w) h = h
SessionRun-OnePerDevice (SessionRun.then step rest) h =
    SessionRun-OnePerDevice rest (SessionStep-OnePerDevice step h)

-- Ending all sessions of a user leaves none of them active, ending those of a device leaves none
-- of these active, and neither activates a session of anybody.
pub ending_leaves_none :
    (id : ℕ) (w : World)
    → (count_documents (active_of id) (end_all_user_sessions id w).1.sessions ≡ 0)
      × (count_documents (active_device id) (end_device_sessions id w).1.sessions ≡ 0)
      × ((user : ℕ)
          → (count_documents (active_of user) (end_all_user_sessions id w).1.sessions
              ≤ count_documents (active_of user) w.sessions)
            × (count_documents (active_of user) (end_device_sessions id w).1.sessions
                ≤ count_documents (active_of user) w.sessions))
unfolding end_all_user_sessions end_device_sessions
ending_leaves_none id w = (
  count_documents-update_all (active_of id) (active_of id) (ended w.now) w.sessions
      (λ s h. ground arith) (λ s h. h),
  count_documents-update_all (active_device id) (active_device id) (ended w.now) w.sessions
      (λ s h. ground arith) (λ s h. h),
  λ user. (
    count_documents-update_many-le (active_of user) (active_of id) (ended w.now) w.sessions
        (λ s hit h. ground arith),
    count_documents-update_many-le (active_of user) (active_device id) (ended w.now) w.sessions
        (λ s hit h. ground arith),
  ),
)
