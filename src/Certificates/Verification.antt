-- ===== src/Certificates/Verification.antt =====
-- Which certificates are answered valid: `verifyCertificate`
-- (src/modules/certificates/certificates.service.ts).
use securevault_backend.Prelude.{
  ℕ, ◌≤◌, true, false, Option, none, some, ◌≡◌, refl, ap, ◌↔◌, arith, ◌==◌, ltb, truthy, get_or,
  is_some, find_one, Bool-cases, Option-cases, inl, inr,
}
use securevault_backend.Schema.{Certificate, Device, is_revoked_status}
use securevault_backend.World.{World}
use securevault_backend.Devices.{trusted}
use securevault_backend.Certificates.Pem.{is_valid_certificate_pem}
use securevault_backend.Certificates.VaultPki.{Pki, CertInfo}
use securevault_backend.Certificates.{
  revoked_as, valid, answered, compute_fingerprint, stored_for, wrong_device, check_binding,
  check_revocation, check_stored, check_parsed, verify_certificate,
}

some_of : {A : Type 0} (o : Option A) → is_some o ≡ true → (a : A) × (o ≡ some a)
some_of none h = absurd cc
some_of (some a) h = (a, refl)

module _ (pki : Pki) (pem : ℕ) (fingerprint : Option ℕ) (w : World) where
  -- A stored certificate without revocation that is bound to a device: to the device that
  -- presents it, where that is known, which is approved; and whose hash is the presented one's.
  pub record Bound (c : Certificate) : Type 0 where
    pub current : is_revoked_status c.status ≡ false
    pub unrevoked : find_one (revoked_as c.serial_number) w.revocations ≡ none
    pub presented : truthy fingerprint ≡ true → get_or fingerprint 0 ≡ c.device_fingerprint
    pub approved : (d : Device) × (find_one (trusted c.device_fingerprint) w.devices ≡ some d)
    pub untampered : c.fingerprint ≡ compute_fingerprint pki pem

  pub record Genuine : Type 0 where
    pub info : CertInfo
    pub stored : Certificate
    pub well_formed : is_valid_certificate_pem (pki.chars pem) ≡ true
    pub parsed : pki.parse pem ≡ some info
    pub begun : info.valid_from ≤ w.now
    pub lasts : w.now ≤ info.valid_to
    pub in_store : stored_for pki info.serial_number w ≡ some stored
    pub bound : Bound stored

  module _ (c : Certificate) where
    check_binding-presented :
        valid (check_binding pki pem fingerprint c w) ≡ true
        → (wrong_device pki fingerprint c ≡ false)
          × (is_some (find_one (trusted c.device_fingerprint) w.devices) ≡ true)
          × ((c.fingerprint == compute_fingerprint pki pem) ≡ true)
    check_binding-presented h = elim (Bool-cases (wrong_device pki fingerprint c)) [
      | inl wrong ↦ absurd (let bad = rw wrong at h in cc)
      | inr right ↦
          elim (Bool-cases (is_some (find_one (trusted c.device_fingerprint) w.devices))) [
            | inr strange ↦ absurd (let bad = rw (right, strange) at h in cc)
            | inl known ↦ elim (Bool-cases (c.fingerprint == compute_fingerprint pki pem)) [
              | inr tampered ↦ absurd (let bad = rw (right, known, tampered) at h in cc)
              | inl same ↦ (right, known, same)
            ]
          ]
    ]

    check_stored-Bound : valid (check_stored pki pem fingerprint c w) ≡ true → Bound c
    check_stored-Bound h = elim (Bool-cases (is_revoked_status c.status)) [
      | inl revoked ↦ absurd (let bad = rw revoked at h in cc)
      | inr current ↦ elim (Option-cases (find_one (revoked_as c.serial_number) w.revocations)) [
        | inr (r, found) ↦ absurd (let bad = rw (current, check_revocation, found) at h in cc)
        | inl missing ↦
            let (right, known, same) =
              check_binding-presented (rw (current, check_revocation, missing) at h) in
            record {
              current = current;
              unrevoked = missing;
              presented = ground arith;
              approved = some_of (find_one (trusted c.device_fingerprint) w.devices) known;
              untampered = ground arith;
            }
      ]
    ]

    Bound-answered : Bound c → check_stored pki pem fingerprint c w ≡ answered c none
    Bound-answered b =
        let right : wrong_device pki fingerprint c ≡ false =
          let presented = b.presented in ground arith in
        let same : (c.fingerprint == compute_fingerprint pki pem) ≡ true =
          let e = b.untampered in ground arith in
        rw (b.current, check_revocation, b.unrevoked, right, b.approved.1, same) refl

  module _ (info : CertInfo) where
    check_parsed-stored :
        valid (check_parsed pki pem fingerprint info w) ≡ true
        → (info.valid_from ≤ w.now)
          × (w.now ≤ info.valid_to)
          × (c : Certificate) × (stored_for pki info.serial_number w ≡ some c)
          × (valid (check_stored pki pem fingerprint c w) ≡ true)
    check_parsed-stored h = elim (Bool-cases (ltb info.valid_to w.now)) [
      | inl late ↦ absurd (let bad = rw late at h in cc)
      | inr in_time ↦ elim (Bool-cases (ltb w.now info.valid_from)) [
        | inl early ↦ absurd (let bad = rw (in_time, early) at h in cc)
        | inr begun ↦ elim (Option-cases (stored_for pki info.serial_number w)) [
          | inl missing ↦ absurd (let bad = rw (in_time, begun, missing) at h in cc)
          | inr (c, found) ↦ (ground arith, ground arith, c, found, rw (in_time, begun, found) at h)
        ]
      ]
    ]

    check_parsed-answered :
        (c : Certificate)
        → info.valid_from ≤ w.now
        → w.now ≤ info.valid_to
        → stored_for pki info.serial_number w ≡ some c
        → check_stored pki pem fingerprint c w ≡ answered c none
        → check_parsed pki pem fingerprint info w ≡ answered c none
    check_parsed-answered c begun lasts found good =
        let in_time : ltb info.valid_to w.now ≡ false = ground arith in
        let started : ltb w.now info.valid_from ≡ false = ground arith in
        rw (in_time, started, found) good

  -- The answer on a genuine certificate names the stored one.
  pub verify_certificate-stored :
      (g : Genuine) → verify_certificate pki pem fingerprint w ≡ answered g.stored none
  unfolding verify_certificate
  verify_certificate-stored g =
      rw (g.well_formed, g.parsed)
        (check_parsed-answered g.info g.stored g.begun g.lasts g.in_store
          (Bound-answered g.stored g.bound))

  -- Exactly the genuine certificates are answered valid.
  pub verify_certificate-Genuine_iff :
      (valid (verify_certificate pki pem fingerprint w) ≡ true) ↔ Genuine
  unfolding verify_certificate
  verify_certificate-Genuine_iff = (valid-Genuine, Genuine-valid)
    where
      valid-Genuine : valid (verify_certificate pki pem fingerprint w) ≡ true → Genuine
      valid-Genuine h = elim (Bool-cases (is_valid_certificate_pem (pki.chars pem))) [
        | inr ill ↦ absurd (let bad = rw ill at h in cc)
        | inl formed ↦ elim (Option-cases (pki.parse pem)) [
          | inl unparsed ↦ absurd (let bad = rw (formed, unparsed) at h in cc)
          | inr (info, parsed) ↦
              let (begun, lasts, c, found, stored) =
                check_parsed-stored info (rw (formed, parsed) at h) in
              record {
                info = info;
                stored = c;
                well_formed = formed;
                parsed = parsed;
                begun = begun;
                lasts = lasts;
                in_store = found;
                bound = check_stored-Bound c stored;
              }
        ]
      ]

      Genuine-valid : Genuine → valid (verify_certificate pki pem fingerprint w) ≡ true
      Genuine-valid g = ap valid (verify_certificate-stored g)
