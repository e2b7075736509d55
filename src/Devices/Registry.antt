-- ===== src/Devices/Registry.antt =====
-- The registry of devices by their fingerprints, and which devices are trusted
-- (src/modules/devices/devices.service.ts).
use securevault_backend.Prelude.{
  ℕ, ◌≤◌, Bool, true, not, Option, none, some, [], ◌∷◌, ◌++◌, ◌≡◌, refl, inl, inr, ◌⊎◌, ◌↔◌, arith,
  ◌==◌, find_one, count_documents, count_documents-append, count_documents-update_one-le,
  count_documents_of_none, count_documents_mono, find_one-holds, find_one_of_count, Bool-cases,
  Option-cases,
}
use securevault_backend.Schema.{Device, DeviceStatus, same_device_status}
use securevault_backend.World.{
  World, Action, ok, throw, Exception, gets, or_raise, raise_if, pure, not_found, bad_request,
  ◌>>=◌,
}
use securevault_backend.World.Laws.{
  Always, Always-bind, Always-pure, Always-gets, Always-check, Always-or_raise, bind-throw,
}
use securevault_backend.Devices.{
  RegisterDeviceDto, UpdateDeviceStatusDto, with_fingerprint, with_device_id, with_id,
  refuse_existing, add_device, register_device, approve, save_device, approve_device, with_status,
  update_status, bind_certificate, update_last_seen, trusted, is_device_trusted,
}

-- No two devices have one fingerprint.
abbrev pub Distinct : World → Type 0
Distinct w = (fingerprint : ℕ) → count_documents (with_fingerprint fingerprint) w.devices ≤ 1

DeviceStatus-cases :
    (s : DeviceStatus)
    → ((s ≡ DeviceStatus.revoked) ⊎ (s ≡ DeviceStatus.blocked))
      ⊎ ((s ≡ DeviceStatus.approved) ⊎ (s ≡ DeviceStatus.pending))
DeviceStatus-cases DeviceStatus.revoked = inl (inl refl)
DeviceStatus-cases DeviceStatus.blocked = inl (inr refl)
DeviceStatus-cases DeviceStatus.approved = inr (inl refl)
DeviceStatus-cases DeviceStatus.pending = inr (inr refl)

refuse_existing-some :
    (d : Device) (w : World) → (e : Exception) × (refuse_existing (some d) w ≡ (throw e, w))
refuse_existing-some d w = elim (DeviceStatus-cases d.status) [
  | inl (inl e) ↦ rw e (_, refl)
  | inl (inr e) ↦ rw e (_, refl)
  | inr (inl e) ↦ rw e (_, refl)
  | inr (inr e) ↦ rw e (_, refl)
]

-- A fingerprint that is registered, whatever the device's status, is refused again, and nothing
-- is changed; one that is not is added as a pending device, which is not trusted.
pub register_device_lem :
    (dto : RegisterDeviceDto) (user_id : ℕ) (w : World)
    → ((d : Device)
        → find_one (with_fingerprint dto.fingerprint) w.devices ≡ some d
        → (e : Exception) × (register_device dto user_id w ≡ (throw e, w)))
      × (find_one (with_fingerprint dto.fingerprint) w.devices ≡ none
          → (d : Device) × ((register_device dto user_id w).0 ≡ ok d)
            × ((register_device dto user_id w).1.devices ≡ w.devices ++ d ∷ [])
            × (d.fingerprint ≡ dto.fingerprint)
            × (d.status ≡ DeviceStatus.pending))
unfolding register_device add_device
register_device_lem dto user_id w = (
  λ d found.
      let (e, refused) = refuse_existing-some d w in
      (
        e,
        rw found
            (bind-throw (refuse_existing (some d)) (λ _. add_device dto user_id) w w e refused),
      ),
  λ missing. rw missing (_, refl, refl, refl, refl),
)

-- A change of a found device that keeps its fingerprint.
module _ where
  abbrev Kept : {A : Type 0} → Action A → Type 0
  Kept m = Always (λ w w'. Distinct w → Distinct w') m

  next :
      {A B : Type 0} (m : Action A) (k : A → Action B)
      → Kept m
      → ((a : A) → Kept (k a))
      → Kept (m >>= k)
  next = Always-bind (λ w w'. Distinct w → Distinct w') (λ u v w h k d. k (h d))

  pure-Kept : {A : Type 0} (a : A) → Kept (pure a)
  pure-Kept = Always-pure (λ w w'. Distinct w → Distinct w') (λ w h. h)

  gets-Kept : {A : Type 0} (f : World → A) → Kept (gets f)
  gets-Kept = Always-gets (λ w w'. Distinct w → Distinct w') (λ w h. h)

  required : {A : Type 0} (o : Option A) (e : Exception) → Kept (or_raise o e)
  required = Always-or_raise (λ w w'. Distinct w → Distinct w') (λ w h. h)

  check-Kept : (c : Bool) (e : Exception) → Kept (raise_if c e)
  check-Kept = Always-check (λ w w'. Distinct w → Distinct w') (λ w h. h)

  save-Kept :
      (id : ℕ) (f : Device → Device)
      → ((d : Device) → (f d).fingerprint ≡ d.fingerprint)
      → Kept (save_device id f)
  unfolding Always save_device
  save-Kept id f same w h fp =
      let fewer =
        count_documents-update_one-le (with_fingerprint fp) (with_id id) f w.devices
          (λ d hit e. rw (same d) at e) in
      omega (arith, h fp)

  approve_device-Kept : (device_id by : ℕ) → Kept (approve_device device_id by)
  unfolding approve_device
  approve_device-Kept device_id by =
      next _ _ (gets-Kept (λ w. find_one (with_device_id device_id) w.devices)) (λ found.
        next _ _ (required found (not_found "Device not found")) (λ d.
          next _ _
            (check-Kept (not (same_device_status d.status DeviceStatus.pending))
              (bad_request "Cannot approve device"))
            (λ _. next _ _ (gets-Kept (λ w. w.now)) (λ now.
              next _ _ (save-Kept d.id (approve now by) (λ x. refl))
                (λ _. pure-Kept (approve now by d))))))

  with_status-fingerprint :
      (dto : UpdateDeviceStatusDto) (by text now : ℕ) (d : Device)
      → (with_status dto by text now d).fingerprint ≡ d.fingerprint
  with_status-fingerprint dto by text now d = elim (DeviceStatus-cases dto.status) [
    | inl (inl e) ↦ rw e refl
    | inl (inr e) ↦ rw e refl
    | inr (inl e) ↦ rw e refl
    | inr (inr e) ↦ rw e refl
  ]

  update_status-Kept :
      (id : ℕ) (dto : UpdateDeviceStatusDto) (by text : ℕ) → Kept (update_status id dto by text)
  unfolding update_status
  update_status-Kept id dto by text =
      next _ _ (gets-Kept (λ w. find_one (with_id id) w.devices)) (λ found.
        next _ _ (required found (not_found "Device not found")) (λ d.
          next _ _ (gets-Kept (λ w. w.now)) (λ now.
            next _ _
              (save-Kept d.id (with_status dto by text now)
                (with_status-fingerprint dto by text now))
              (λ _. pure-Kept (with_status dto by text now d)))))

register_device-Distinct :
    (dto : RegisterDeviceDto) (user_id : ℕ) (w : World)
    → Distinct w
    → Distinct (register_device dto user_id w).1
register_device-Distinct dto user_id w h fp =
    let (refused, added) = register_device_lem dto user_id w in
    elim (Option-cases (find_one (with_fingerprint dto.fingerprint) w.devices)) [
      | inr (d, found) ↦ let (e, same) = refused d found in rw same (h fp)
      | inl missing ↦
          let (d, _, devices, named, _) = added missing in
          let zero_before =
            count_documents_of_none (with_fingerprint dto.fingerprint) w.devices missing in
          let more = count_documents-append (with_fingerprint fp) w.devices (d ∷ []) in
          let before = h fp in
          rw devices (elim (Bool-cases (dto.fingerprint == fp)) [
            | inl same ↦
                let e : dto.fingerprint ≡ fp = ground arith in
                let none_before : count_documents (with_fingerprint fp) w.devices ≡ 0 =
                  rw (← e) zero_before in
                ground arith
            | inr other ↦ ground arith
          ])
    ]

-- One operation of the service that writes.
pub data DeviceStep : World → World → Type 0 where
  register :
      (dto : RegisterDeviceDto) (user_id : ℕ) (w : World)
      → DeviceStep w (register_device dto user_id w).1
  approval : (device_id by : ℕ) (w : World) → DeviceStep w (approve_device device_id by w).1
  status_change :
      (id : ℕ) (dto : UpdateDeviceStatusDto) (by text : ℕ) (w : World)
      → DeviceStep w (update_status id dto by text w).1
  binding :
      (device_id serial : ℕ) (w : World) → DeviceStep w (bind_certificate device_id serial w).1
  seen : (device_id ip : ℕ) (w : World) → DeviceStep w (update_last_seen device_id ip w).1

-- Any number of operations, one after another.
pub data DeviceRun : World → World → Type 0 where
  done : (w : World) → DeviceRun w w
  then : {w w' w'' : World} → DeviceStep w w' → DeviceRun w' w'' → DeviceRun w w''

DeviceStep-Distinct : {w w' : World} → DeviceStep w w' → Distinct w → Distinct w'
unfolding Always bind_certificate update_last_seen
DeviceStep-Distinct (DeviceStep.register dto user_id w) h fp =
    register_device-Distinct dto user_id w h fp
DeviceStep-Distinct (DeviceStep.approval device_id by w) h fp =
    approve_device-Kept device_id by w h fp
DeviceStep-Distinct (DeviceStep.status_change id dto by text w) h fp =
    update_status-Kept id dto by text w h fp
DeviceStep-Distinct (DeviceStep.binding device_id serial w) h fp =
    let fewer =
      count_documents-update_one-le (with_fingerprint fp) (with_device_id device_id)
        (λ d. record d { certificate_serial = some serial }) w.devices (λ d hit e. e) in
    omega (arith, h fp)
DeviceStep-Distinct (DeviceStep.seen device_id ip w) h fp =
    let fewer =
      count_documents-update_one-le (with_fingerprint fp) (with_device_id device_id)
        (λ d. record d { last_seen_at = some w.now; last_seen_ip = some ip }) w.devices
        (λ d hit e. e) in
    omega (arith, h fp)

-- Whatever operations on devices run, in whatever order, no two devices get one fingerprint.
pub DeviceRun-Distinct : {w w' : World} → DeviceRun w w' → Distinct w → Distinct w'
DeviceRun-Distinct (DeviceRun.done w) h = h
DeviceRun-Distinct (DeviceRun.then step rest) h =
    DeviceRun-Distinct rest (DeviceStep-Distinct step h)

-- Where fingerprints are distinct, a device is trusted exactly when the device that is registered
-- under the fingerprint is approved.
pub is_device_trusted_iff :
    (fingerprint : ℕ) (w : World)
    → Distinct w
    → (is_device_trusted fingerprint w ≡ (ok true, w)) ↔ (
        (d : Device) × (find_one (with_fingerprint fingerprint) w.devices ≡ some d)
        × (d.status ≡ DeviceStatus.approved))
unfolding is_device_trusted
is_device_trusted_iff fingerprint w distinct = (
  λ h. elim (Option-cases (find_one (trusted fingerprint) w.devices)) [
    | inl missing ↦ absurd (let wrong = rw missing at h in ground arith)
    | inr (d, found) ↦
        let hit = find_one-holds (trusted fingerprint) w.devices d found in
        (
          d,
          find_one_of_count (trusted fingerprint) (with_fingerprint fingerprint) w.devices d found
              (ground arith) (distinct fingerprint),
          ground arith,
        )
  ],
  λ h.
      let (d, found, approved) = h in
      let few =
        count_documents_mono (trusted fingerprint) (with_fingerprint fingerprint) w.devices
          (λ x e. ground arith) in
      let hit = find_one-holds (with_fingerprint fingerprint) w.devices d found in
      let one = distinct fingerprint in
      rw
        (find_one_of_count (with_fingerprint fingerprint) (trusted fingerprint) w.devices d found
          (ground arith) (omega arith))
        refl,
)
