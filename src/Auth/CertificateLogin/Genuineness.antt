-- ===== src/Auth/CertificateLogin/Genuineness.antt =====
-- Who gets in by a certificate: `certificateLogin` (src/modules/auth/auth.service.ts).
use mathlib.Core.Path.{subst}
use securevault_backend.Prelude.{
  ℕ, ◌&&◌, ◌≢◌, codes, text_includes, true, not, Option, none, some, ◌≡◌, refl, ap, ◌∙◌, sym, arith,
  find_one, count_documents, Bool-cases, Option-cases, inl, inr,
}
use securevault_backend.Schema.{User}
use securevault_backend.World.{World, Result, ok, throw, unauthorized, forbidden, log, ◌>>=◌}
use securevault_backend.World.Laws.{
  bind-ok, bind-throw, or_raise-some, raise_if-passes, raise_if-stops,
}
use securevault_backend.Env.{Env}
use securevault_backend.Users.{user_by_id, not_deleted, find_by_id}
use securevault_backend.Sessions.{active_on, create_session}
use securevault_backend.Sessions.Ended.{create_session_one}
use securevault_backend.Devices.{update_last_seen}
use securevault_backend.Auth.{Tokens, issue}
use securevault_backend.Certificates.VaultPki.{Pki}
use securevault_backend.Certificates.{VerifyResult, valid, verify_certificate, answered}
use securevault_backend.Certificates.Verification.{
  Genuine, verify_certificate-Genuine_iff, verify_certificate-stored,
}
use securevault_backend.Auth.CertificateLogin.{
  reason_of, CertificateLoginDto, CertificateLoginResponse, refuse_login, session_params,
  open_session, admit_user, login_verified, certificate_login,
}

module _ (env : Env) (pki : Pki) (dto : CertificateLoginDto) (ip agent : ℕ) where
  -- What holds of an answer and the world after it
  abbrev Ensures :
      (CertificateLoginResponse → World → Type 0) → Result CertificateLoginResponse × World → Type 0
  Ensures P x = (r : CertificateLoginResponse) → x.0 ≡ ok r → P r x.1

  -- The account and the device of the answer, and the one session on the device
  abbrev Opens : User → VerifyResult → CertificateLoginResponse → World → Type 0
  Opens u v r w' =
      (r.id ≡ u.id)
      × (r.role ≡ u.role)
      × (r.device_id ≡ v.device_id)
      × (r.serial_number ≡ v.serial_number)
      × (count_documents (active_on u.id v.device_id) w'.sessions ≡ 1)

  open_session-Opens :
      (u : User) (v : VerifyResult) (tokens : Tokens) (w : World)
      → Ensures (Opens u v) (open_session env pki dto ip agent u v tokens w)
  unfolding open_session create_session update_last_seen log
  open_session-Opens u v tokens w r h =
      let one = create_session_one (session_params env pki dto ip agent u v) w in
      (cc, cc, cc, cc, one)

  issued-Opens :
      (u : User) (v : VerifyResult) (w : World)
      → Ensures (Opens u v) ((issue env u ip agent >>= open_session env pki dto ip agent u v) w)
  issued-Opens u v w = go (issue env u ip agent w) refl
    where
      go :
          (x : Result Tokens × World)
          → issue env u ip agent w ≡ x
          → Ensures (Opens u v) ((issue env u ip agent >>= open_session env pki dto ip agent u v) w)
      go (ok tokens, w') ran =
          subst (Ensures (Opens u v))
            (sym (
              bind-ok (issue env u ip agent) (open_session env pki dto ip agent u v) w w' tokens
                ran))
            (open_session-Opens u v tokens w')
      go (throw e, w') ran =
          subst (Ensures (Opens u v))
            (sym (
              bind-throw (issue env u ip agent) (open_session env pki dto ip agent u v) w w' e ran))
            (λ r h. absurd cc)

  -- The answer for an active account
  abbrev Admits : User → VerifyResult → CertificateLoginResponse → World → Type 0
  Admits u v r w' = (u.is_active ≡ true) × Opens u v r w'

  admit_user-Admits :
      (v : VerifyResult) (u : User) (w : World)
      → Ensures (Admits u v) (admit_user env pki dto ip agent v u w)
  admit_user-Admits v u w = elim (Bool-cases u.is_active) [
    | inr idle ↦
        subst (Ensures (Admits u v))
          (sym (
            raise_if-stops (not u.is_active) (forbidden "Account is deactivated")
              (issue env u ip agent >>= open_session env pki dto ip agent u v) w (ground arith)))
          (λ r h. absurd cc)
    | inl active ↦
        subst (Ensures (Admits u v))
          (sym (
            raise_if-passes (not u.is_active) (forbidden "Account is deactivated")
              (issue env u ip agent >>= open_session env pki dto ip agent u v) w (ground arith)))
          (λ r h. (active, issued-Opens u v w r h))
  ]

  refuse_login-throws :
      (v : VerifyResult) (w : World) (r : CertificateLoginResponse)
      → (refuse_login env pki dto ip agent v w).0 ≢ ok r
  unfolding refuse_login log
  refuse_login-throws v w r h = elim (Bool-cases (text_includes (codes "revoked") (reason_of v))) [
    | inl revoked ↦ elim (Bool-cases (text_includes (codes "fingerprint mismatch") (reason_of v))) [
      | inl other ↦ let bad = rw (revoked, other) at h in absurd cc
      | inr alike ↦ let bad = rw (revoked, alike) at h in absurd cc
    ]
    | inr current ↦ elim (Bool-cases (text_includes (codes "fingerprint mismatch") (reason_of v))) [
      | inl other ↦ let bad = rw (current, other) at h in absurd cc
      | inr alike ↦ let bad = rw (current, alike) at h in absurd cc
    ]
  ]

  -- The account of the verified certificate
  abbrev account_at : World → ℕ → Option User
  account_at w id = find_one (λ u. user_by_id id u && not_deleted u) w.users

  abbrev account_of : VerifyResult → World → Option User
  account_of v w = account_at w v.user_id

  login_verified-found :
      (v : VerifyResult) (u : User) (w : World)
      → valid v ≡ true
      → account_of v w ≡ some u
      → login_verified env pki dto ip agent v w ≡ admit_user env pki dto ip agent v u w
  unfolding login_verified find_by_id
  login_verified-found v u w good found = rw good (
      or_raise-some (account_of v w) u (unauthorized "User associated with certificate not found")
        (admit_user env pki dto ip agent v) w found)

  login_verified-Admits :
      (v : VerifyResult) (w : World) (r : CertificateLoginResponse)
      → (login_verified env pki dto ip agent v w).0 ≡ ok r
      → (valid v ≡ true)
        × ((u : User) × (account_of v w ≡ some u)
            × Admits u v r (login_verified env pki dto ip agent v w).1)
  unfolding login_verified find_by_id
  login_verified-Admits v w r h = elim (Bool-cases (valid v)) [
    | inr bad ↦ absurd (refuse_login-throws v w r (rw bad at h))
    | inl good ↦ elim (Option-cases (account_of v w)) [
      | inl missing ↦ absurd (let none_found = rw (good, missing) at h in cc)
      | inr (u, found) ↦
          let same = login_verified-found v u w good found in
          let result = rw same at h in
          (good, (u, found, rw same (admit_user-Admits v u w r result)))
    ]
  ]

  -- A login by certificate that returns tokens presented a genuine certificate of its device: one
  -- in its time, stored and not revoked, bound to the presented fingerprint and to an approved
  -- device. The account is the stored certificate's, it exists and is active, the answer names it
  -- with the certificate and its device, and the user has exactly one active session on the device.
  pub certificate_login-Genuine :
      (w : World) (r : CertificateLoginResponse)
      → (certificate_login env pki dto ip agent w).0 ≡ ok r
      → (g : Genuine pki dto.certificate (some dto.device_fingerprint) w) × (u : User) × (find_one
            (λ x. user_by_id g.stored.user_id x && not_deleted x)
            w.users
          ≡ some u)
        × (u.is_active ≡ true)
        × (r.id ≡ u.id)
        × (r.role ≡ u.role)
        × (r.device_id ≡ g.stored.device_id)
        × (r.serial_number ≡ g.stored.serial_number)
        × (count_documents
              (active_on u.id g.stored.device_id)
              (certificate_login env pki dto ip agent w).1.sessions
            ≡ 1)
  unfolding certificate_login
  certificate_login-Genuine w r h =
      let v = verify_certificate pki dto.certificate (some dto.device_fingerprint) w in
      let (good, (u, found, (active, (id, role, device, serial, one)))) =
        login_verified-Admits v w r h in
      let iff =
        verify_certificate-Genuine_iff pki dto.certificate (some dto.device_fingerprint) w in
      let g : Genuine pki dto.certificate (some dto.device_fingerprint) w = iff.0 good in
      let names : v ≡ answered g.stored none =
        verify_certificate-stored pki dto.certificate (some dto.device_fingerprint) w g in
      let device_same : v.device_id ≡ g.stored.device_id = ap (λ x. x.device_id) names in
      (
        g,
        u,
        ap (account_at w) (sym (ap (λ x. x.user_id) names)) ∙ found,
        active,
        id,
        role,
        device ∙ device_same,
        serial ∙ ap (λ x. x.serial_number) names,
        ap
              (λ d.
                count_documents (active_on u.id d)
                  (certificate_login env pki dto ip agent w).1.sessions)
              (sym device_same)
            ∙ one,
      )
