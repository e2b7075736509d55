-- ===== src/Certificates/Revocation.antt =====
-- What becomes of a revoked certificate: `revokeCertificate` and `signAndStoreCertificate`
-- (src/modules/certificates/certificates.service.ts) in any order.
use securevault_backend.Prelude.{
  ℕ, ◌+◌, true, false, not, Option, none, some, [], ◌∷◌, ◌≡◌, refl, ap, ◌∙◌, sym, is_some, find_one,
  find_one-append, find_one-holds, find_one-update_one, find_one-update_either, Bool-cases,
  Option-cases, inl, inr, Bool, ◌&&◌, ◌≤◌, arith, count_documents, find_one_of_count, same_text,
  same_text_iff,
}
use securevault_backend.Schema.{Certificate, is_revoked_status}
use securevault_backend.World.{
  World, Action, Exception, or_raise, raise_if, bad_request, not_found, attempt, pure, ◌>>=◌, ◌>>◌,
}
use securevault_backend.World.Laws.{
  Always, Always-bind, Always-check, raise_if-passes, or_raise-some,
}
use securevault_backend.Devices.{bind_certificate}
use securevault_backend.Certificates.Pem.{is_valid_csr_pem, normalize_serial_number}
use securevault_backend.Certificates.VaultPki.{Pki, CertInfo, sign_csr, SignResult, pki_revoke}
use securevault_backend.Certificates.{
  with_serial, same_serial, stored_for, valid, verify_certificate, SignParams,
  sign_and_store_certificate, store_certificate, create_certificate, revoke_certificate,
  revoke_found, mark_revoked, save_revoked, record_revocation, create_revocation, new_certificate,
  issued, common_name, revoked_as, stored_reason,
}
use securevault_backend.Certificates.Verification.{Genuine, verify_certificate-Genuine_iff}

or_raise-same : {A : Type 0} (o : Option A) (e : Exception) (w : World) → (or_raise o e w).1 ≡ w
or_raise-same none e w = refl
or_raise-same (some a) e w = refl

pub sign_csr-same :
    (pki : Pki) (csr name : ℕ) (ttl : Option ℕ) (w : World) → (sign_csr pki csr name ttl w).1 ≡ w
unfolding sign_csr
sign_csr-same pki csr name ttl w = elim (Bool-cases pki.connected) [
  | inr off ↦ rw off refl
  | inl on ↦ rw on (or_raise-same _ _ w)
]

-- A revocation record leaves the certificates as they are.
record_revocation-same :
    (pki : Pki) (c : Certificate) (serial by : ℕ) (reason ip : Option ℕ) (w : World)
    → (record_revocation pki c serial by reason ip w).1.certificates ≡ w.certificates
unfolding create_revocation
record_revocation-same pki c serial by reason ip w =
    elim (Option-cases (stored_reason pki reason)) [
      | inl refused ↦ rw refused refl
      | inr (kind, taken) ↦
          elim (Bool-cases (is_some (find_one (revoked_as serial) w.revocations))) [
            | inl clash ↦ rw (taken, clash) refl
            | inr free ↦ rw (taken, free) refl
          ]
    ]

pub pki_revoke-same : (pki : Pki) (serial : ℕ) (w : World) → (pki_revoke pki serial w).1 ≡ w
unfolding pki_revoke
pki_revoke-same pki serial w = elim (Bool-cases pki.connected) [
  | inr off ↦ rw off refl
  | inl on ↦ rw on refl
]

-- The stored certificate with the serial number is revoked.
abbrev pub IsRevoked : ℕ → World → Type 0
IsRevoked serial w =
    (c : Certificate) × (find_one (with_serial serial) w.certificates ≡ some c)
    × (is_revoked_status c.status ≡ true)

IsRevoked-of :
    (serial : ℕ) (v w : World)
    → v.certificates ≡ w.certificates
    → IsRevoked serial w
    → IsRevoked serial v
IsRevoked-of serial v w same (c, found, revoked) =
    (c, ap (find_one (with_serial serial)) same ∙ found, revoked)

revoke_certificate-missing :
    (pki : Pki) (serial by : ℕ) (reason ip : Option ℕ) (w : World)
    → find_one (with_serial serial) w.certificates ≡ none
    → (revoke_certificate pki serial by reason ip w).1 ≡ w
unfolding revoke_certificate
revoke_certificate-missing pki serial by reason ip w missing = rw missing refl

abbrev StaysRevoked : ℕ → World → World → Type 0
StaysRevoked serial w w' = IsRevoked serial w → IsRevoked serial w'

module _ (serial : ℕ) where
  stays : (w : World) → StaysRevoked serial w w
  stays w h = h

  follows :
      (u v w : World) → StaysRevoked serial u v → StaysRevoked serial v w → StaysRevoked serial u w
  follows u v w first second h = second (first h)

  abbrev Keeps : {A : Type 0} → Action A → Type 0
  Keeps m = Always (StaysRevoked serial) m

  bind-Keeps :
      {A B : Type 0} (m : Action A) (k : A → Action B)
      → Keeps m
      → ((a : A) → Keeps (k a))
      → Keeps (m >>= k)
  bind-Keeps m k = Always-bind (StaysRevoked serial) follows m k

  create_certificate-Keeps : (c : Certificate) → Keeps (create_certificate c)
  unfolding Always create_certificate
  create_certificate-Keeps c w (d, found, revoked) =
      elim (Bool-cases (is_some (find_one (with_serial c.serial_number) w.certificates))) [
        | inl taken ↦ rw taken (d, found, revoked)
        | inr free ↦
            rw free
              (d, find_one-append (with_serial serial) w.certificates (c ∷ []) d found, revoked)
      ]

  module _ (pki : Pki) where
    sign_csr-Keeps : (csr name : ℕ) (ttl : Option ℕ) → Keeps (sign_csr pki csr name ttl)
    unfolding Always
    sign_csr-Keeps csr name ttl w h = rw (sign_csr-same pki csr name ttl w) h

    store_certificate-Keeps : (p : SignParams) (s : SignResult) → Keeps (store_certificate pki p s)
    unfolding Always store_certificate bind_certificate
    store_certificate-Keeps p s w =
        let certificate = new_certificate pki p s w.next_id w.now in
        let finish = bind_certificate p.device_id s.serial_number >> pure (issued pki s w.now) in
        bind-Keeps (create_certificate certificate) (λ _. finish)
          (create_certificate-Keeps certificate) (λ _ v h. h) (record w { next_id = w.next_id + 1 })

    sign_and_store_certificate-Keeps : (p : SignParams) → Keeps (sign_and_store_certificate pki p)
    unfolding sign_and_store_certificate
    sign_and_store_certificate-Keeps p =
        let name = common_name pki p.employee_id p.device_id in
        bind-Keeps (raise_if _ _) (λ _. sign_csr pki p.csr name p.ttl >>= store_certificate pki p)
          (Always-check (StaysRevoked serial) stays (not (is_valid_csr_pem (pki.chars p.csr)))
            (bad_request "Invalid CSR PEM format"))
          (λ _.
            bind-Keeps (sign_csr pki p.csr name p.ttl) (store_certificate pki p)
              (sign_csr-Keeps p.csr name p.ttl) (store_certificate-Keeps p))

    save_revoked-Keeps :
        (other by : ℕ) (reason : Option ℕ) → Keeps (save_revoked pki other by reason)
    unfolding Always
    save_revoked-Keeps other by reason w (c, found, revoked) =
        elim (find_one-update_either (with_serial other) (with_serial serial)
          (mark_revoked pki w.now by reason) w.certificates c (λ x. refl) found) [
            | inl same ↦ (c, same, revoked)
            | inr marked ↦ (mark_revoked pki w.now by reason c, marked, refl)
          ]

    revoke_found-same :
        (other by : ℕ) (reason ip : Option ℕ) (c : Certificate) (w : World)
        → is_revoked_status c.status ≡ false
        → (revoke_found pki other by reason ip c w).1.certificates
          ≡ (save_revoked pki other by reason w).1.certificates
    unfolding revoke_found
    revoke_found-same other by reason ip c w open_certificate =
        let finish = record_revocation pki c other by reason ip in
        let saved = save_revoked pki other by reason >> finish in
        ap (λ r. r.1.certificates)
          (raise_if-passes (is_revoked_status c.status)
            (bad_request "Certificate is already revoked") (attempt (pki_revoke pki other) >> saved)
            w open_certificate)
        ∙ ap (λ v. (saved v).1.certificates) (pki_revoke-same pki other w)
        ∙ record_revocation-same pki c other by reason ip (save_revoked pki other by reason w).1

    revoke_found-stops :
        (other by : ℕ) (reason ip : Option ℕ) (c : Certificate) (w : World)
        → is_revoked_status c.status ≡ true
        → (revoke_found pki other by reason ip c w).1 ≡ w
    unfolding revoke_found
    revoke_found-stops other by reason ip c w revoked = rw revoked refl

    revoke_certificate-found :
        (other by : ℕ) (reason ip : Option ℕ) (c : Certificate) (w : World)
        → find_one (with_serial other) w.certificates ≡ some c
        → revoke_certificate pki other by reason ip w ≡ revoke_found pki other by reason ip c w
    unfolding revoke_certificate
    revoke_certificate-found other by reason ip c w found =
        or_raise-some (find_one (with_serial other) w.certificates) c
          (not_found "Certificate not found") (revoke_found pki other by reason ip) w found

    revoke_certificate-Keeps :
        (other by : ℕ) (reason ip : Option ℕ) → Keeps (revoke_certificate pki other by reason ip)
    unfolding Always
    revoke_certificate-Keeps other by reason ip w h =
        elim (Option-cases (find_one (with_serial other) w.certificates)) [
          | inl missing ↦ rw (revoke_certificate-missing pki other by reason ip w missing) h
          | inr (c, found) ↦
              rw (revoke_certificate-found other by reason ip c w found)
                (elim (Bool-cases (is_revoked_status c.status)) [
                  | inl already ↦ rw (revoke_found-stops other by reason ip c w already) h
                  | inr current ↦
                      IsRevoked-of serial (revoke_found pki other by reason ip c w).1
                        (save_revoked pki other by reason w).1
                        (revoke_found-same other by reason ip c w current)
                        (save_revoked-Keeps other by reason w h)
                ])
        ]

    -- Whatever the revocation answers, also where the schema refuses the reason.
    revoke_certificate-IsRevoked :
        (by : ℕ) (reason ip : Option ℕ) (c : Certificate) (w : World)
        → find_one (with_serial serial) w.certificates ≡ some c
        → IsRevoked serial (revoke_certificate pki serial by reason ip w).1
    revoke_certificate-IsRevoked by reason ip c w found =
        rw (revoke_certificate-found serial by reason ip c w found)
          (elim (Bool-cases (is_revoked_status c.status)) [
            | inl already ↦
                rw (revoke_found-stops serial by reason ip c w already) (c, found, already)
            | inr current ↦
                IsRevoked-of serial (revoke_found pki serial by reason ip c w).1
                  (save_revoked pki serial by reason w).1
                  (revoke_found-same serial by reason ip c w current)
                  (
                    mark_revoked pki w.now by reason c,
                    find_one-update_one (with_serial serial) (mark_revoked pki w.now by reason)
                        w.certificates c found
                        (find_one-holds (with_serial serial) w.certificates c found),
                    refl,
                  )
          ])

-- One operation on certificates, or anything else, which leaves the stored certificates alone.
pub data CertStep (pki : Pki) : World → World → Type 0 where
  sign : (p : SignParams) (w : World) → CertStep pki w (sign_and_store_certificate pki p w).1
  revoke :
      (serial by : ℕ) (reason ip : Option ℕ) (w : World)
      → CertStep pki w (revoke_certificate pki serial by reason ip w).1
  elsewhere : (w w' : World) → w'.certificates ≡ w.certificates → CertStep pki w w'

pub data CertRun (pki : Pki) : World → World → Type 0 where
  done : (w : World) → CertRun pki w w
  step : (u v w : World) → CertStep pki u v → CertRun pki v w → CertRun pki u w

module _ (pki : Pki) (serial : ℕ) where
  -- The serial number in a certificate is the stored one, in either of its spellings.
  abbrev pub Names : CertInfo → Type 0
  Names info =
      same_text (normalize_serial_number (pki.chars serial))
        (normalize_serial_number (pki.chars info.serial_number))
      ≡ true

  -- At most one stored certificate has the serial number, however it is spelled.
  abbrev pub IsUnique : World → Type 0
  IsUnique w = count_documents (same_serial pki serial) w.certificates ≤ 1

  module _ (info : CertInfo) (c : Certificate) (w : World) (names : Names info)
      (unique : IsUnique w) (found : find_one (with_serial serial) w.certificates ≡ some c) where
    same_spelling :
        normalize_serial_number (pki.chars serial)
        ≡ normalize_serial_number (pki.chars info.serial_number)
    same_spelling = (same_text_iff _ _).0 names

    own_serial : same_serial pki serial c ≡ true
    own_serial =
        let h = find_one-holds (with_serial serial) w.certificates c found in
        let number : c.serial_number ≡ serial = ground arith in
        let text = normalize_serial_number (pki.chars serial) in
        rw number ((same_text_iff text text).1 refl)

    only : find_one (same_serial pki serial) w.certificates ≡ some c
    only =
        find_one_of_count (with_serial serial) (same_serial pki serial) w.certificates c found
          own_serial unique

    -- Whichever certificate the lookup takes, it is the revoked one.
    taken-revoked :
        (p : Certificate → Bool) (d : Certificate)
        → find_one p w.certificates ≡ some d
        → same_serial pki serial d ≡ true
        → d ≡ c
    taken-revoked p d hit same =
        let here = find_one_of_count p (same_serial pki serial) w.certificates d hit same unique in
        let there = only in cc

    stored_for-revoked : (d : Certificate) → stored_for pki info.serial_number w ≡ some d → d ≡ c
    stored_for-revoked d stored =
        elim (Option-cases (find_one (with_serial info.serial_number) w.certificates)) [
          | inr (e, exact) ↦
              let same : e ≡ d = let h = rw (stored_for, exact) at stored in cc in
              let h = find_one-holds (with_serial info.serial_number) w.certificates e exact in
              let number : e.serial_number ≡ info.serial_number = ground arith in
              let normal : same_serial pki serial e ≡ true =
                let text = normalize_serial_number (pki.chars info.serial_number) in
                rw (number, same_spelling) ((same_text_iff text text).1 refl) in
              sym same ∙ taken-revoked (with_serial info.serial_number) e exact normal
          | inl missing ↦
              let p : Certificate → Bool =
                λ x. not (is_revoked_status x.status) && same_serial pki info.serial_number x in
              let hit : find_one p w.certificates ≡ some d = rw (stored_for, missing) at stored in
              let h = find_one-holds p w.certificates d hit in
              let alike : same_serial pki info.serial_number d ≡ true = ground (arith, h) in
              let normal : same_serial pki serial d ≡ true = rw same_spelling alike in
              taken-revoked p d hit normal
        ]

  revoked-Genuine :
      (pem : ℕ) (fingerprint : Option ℕ) (info : CertInfo) (c : Certificate) (w : World)
      → pki.parse pem ≡ some info
      → Names info
      → IsUnique w
      → find_one (with_serial serial) w.certificates ≡ some c
      → is_revoked_status c.status ≡ true
      → ¬ Genuine pki pem fingerprint w
  revoked-Genuine pem fingerprint info c w parsed names unique found revoked g =
      let same_info : g.info ≡ info = let e = g.parsed in cc in
      let stored : stored_for pki info.serial_number w ≡ some g.stored =
        ap (λ i. stored_for pki i.serial_number w) (sym same_info) ∙ g.in_store in
      let same = stored_for-revoked info c w names unique found g.stored stored in
      let current = g.bound.current in
      let bad : is_revoked_status c.status ≡ false =
        ap (λ d. is_revoked_status d.status) (sym same) ∙ current in
      absurd cc

  CertStep-IsRevoked : (u v : World) → CertStep pki u v → IsRevoked serial u → IsRevoked serial v
  unfolding Always
  CertStep-IsRevoked u v (CertStep.sign p w) h = sign_and_store_certificate-Keeps serial pki p w h
  CertStep-IsRevoked u v (CertStep.revoke other by reason ip w) h =
      revoke_certificate-Keeps serial pki other by reason ip w h
  CertStep-IsRevoked u v (CertStep.elsewhere w w' same) h = IsRevoked-of serial w' w same h

  CertRun-IsRevoked : (u w : World) → CertRun pki u w → IsRevoked serial u → IsRevoked serial w
  CertRun-IsRevoked u w (CertRun.done v) h = h
  CertRun-IsRevoked u w (CertRun.step t v x first rest) h =
      CertRun-IsRevoked v x rest (CertStep-IsRevoked t v first h)

  IsRevoked-invalid :
      (pem : ℕ) (fingerprint : Option ℕ) (info : CertInfo) (w : World)
      → pki.parse pem ≡ some info
      → Names info
      → IsUnique w
      → IsRevoked serial w
      → valid (verify_certificate pki pem fingerprint w) ≡ false
  IsRevoked-invalid pem fingerprint info w parsed names unique (c, found, revoked) =
      elim (Bool-cases (valid (verify_certificate pki pem fingerprint w))) [
        | inr bad ↦ bad
        | inl good ↦
            let genuine = (verify_certificate-Genuine_iff pki pem fingerprint w).0 good in
            absurd
              (revoked-Genuine pem fingerprint info c w parsed names unique found revoked genuine)
      ]

  -- Once a revocation was asked for a stored certificate, whatever it answered, no certificate with
  -- that serial number, in the stored spelling or another that differs in colons and in the case of
  -- letters, is answered valid again, whatever certificates are signed and revoked and whatever else
  -- happens to devices, users and the clock, as long as no other stored certificate has the same
  -- serial number in another spelling.
  pub revoke_certificate-invalid :
      (by pem : ℕ) (reason ip fingerprint : Option ℕ) (c : Certificate) (info : CertInfo)
      (w w' : World)
      → find_one (with_serial serial) w.certificates ≡ some c
      → CertRun pki (revoke_certificate pki serial by reason ip w).1 w'
      → IsUnique w'
      → pki.parse pem ≡ some info
      → Names info
      → valid (verify_certificate pki pem fingerprint w') ≡ false
  revoke_certificate-invalid by pem reason ip fingerprint c info w w' found run unique parsed
        names =
      IsRevoked-invalid pem fingerprint info w' parsed names unique (
        CertRun-IsRevoked (revoke_certificate pki serial by reason ip w).1 w' run
          (revoke_certificate-IsRevoked serial pki by reason ip c w found))
