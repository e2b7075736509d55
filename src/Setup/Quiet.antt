-- ===== src/Setup/Quiet.antt =====
-- What an enrollment leaves alone before the token is consumed (src/modules/setup/setup.service.ts).
use securevault_backend.Prelude.{
  ℕ, ◌+◌, Bool, not, Option, none, some, ◌≡◌, refl, ◌∙◌, codes, is_some, find_one, Bool-cases,
  Option-cases, inl, inr,
}
use securevault_backend.Schema.{
  is_revoked_status, Device, DeviceStatus, same_device_status, Certificate,
}
use securevault_backend.World.{
  World, Action, Exception, ok, attempt, unauthorized, bad_request, not_found, pure, raise_if,
  or_raise, log, ◌>>=◌, ◌>>◌,
}
use securevault_backend.World.Laws.{Always, Always-bind, Always-check, Always-or_raise}
use securevault_backend.Devices.{
  RegisterDeviceDto, register_device, refuse_existing, add_device, approve_device, approve_found,
  approve, save_device, bind_certificate, with_fingerprint, with_device_id,
}
use securevault_backend.Certificates.VaultPki.{Pki, SignResult, sign_csr, pki_revoke}
use securevault_backend.Certificates.{
  SignParams, IssuedCertificate, sign_and_store_certificate, store_certificate, create_certificate,
  revoke_certificate, revoke_found, save_revoked, record_revocation, create_revocation,
  stored_reason, revoked_as, valid, verify_certificate, with_serial, new_certificate, issued,
  common_name,
}
use securevault_backend.Certificates.Pem.{is_valid_csr_pem}
use securevault_backend.Certificates.Revocation.{sign_csr-same, pki_revoke-same}
use securevault_backend.Setup.{
  EnrollDeviceDto, RenewCertificateDto, certificate_renewed, renewal_params, renew_verified,
  TokenVerdict, refuse_enrolled, sign_for, device_data, admit, renew_certificate,
}

-- The tokens and the clock stay.
abbrev pub SameTokens : World → World → Type 0
SameTokens w w' = (w'.enrollment_tokens ≡ w.enrollment_tokens) × (w'.now ≡ w.now)

abbrev pub Quiet : {A : Type 0} → Action A → Type 0
Quiet m = Always SameTokens m

pub same : (w : World) → SameTokens w w
same w = (refl, refl)

pub bind-Quiet :
    {A B : Type 0} (m : Action A) (k : A → Action B)
    → Quiet m
    → ((a : A) → Quiet (k a))
    → Quiet (m >>= k)
bind-Quiet m k = Always-bind SameTokens (λ u v w h g. (g.0 ∙ h.0, g.1 ∙ h.1)) m k

pub check : (c : Bool) (e : Exception) → Quiet (raise_if c e)
check c e = Always-check SameTokens same c e

two_checks : (c d : Bool) (e x : Exception) → Quiet (raise_if c e >> raise_if d x)
two_checks c d e x = bind-Quiet (raise_if c e) (λ _. raise_if d x) (check c e) (λ _. check d x)

refuse_existing-Quiet : (o : Option Device) → Quiet (refuse_existing o)
unfolding Always
refuse_existing-Quiet none w = same w
refuse_existing-Quiet (some d) w = two_checks _ _ _ _ w

refuse_enrolled-Quiet : (o : Option Device) → Quiet (refuse_enrolled o)
unfolding Always
refuse_enrolled-Quiet none w = same w
refuse_enrolled-Quiet (some d) w = two_checks _ _ _ _ w

add_device-Quiet : (dto : RegisterDeviceDto) (user_id : ℕ) → Quiet (add_device dto user_id)
unfolding Always add_device
add_device-Quiet dto user_id w = (refl, refl)

register_device-Quiet :
    (dto : RegisterDeviceDto) (user_id : ℕ) → Quiet (register_device dto user_id)
unfolding Always register_device
register_device-Quiet dto user_id w =
    let existing = find_one (with_fingerprint dto.fingerprint) w.devices in
    bind-Quiet (refuse_existing existing) (λ _. add_device dto user_id)
      (refuse_existing-Quiet existing) (λ _. add_device-Quiet dto user_id) w

approve_found-Quiet : (by : ℕ) (d : Device) → Quiet (approve_found by d)
unfolding Always save_device
approve_found-Quiet by d w =
    bind-Quiet (raise_if _ _)
      (λ _ v. (ok (approve v.now by d), (save_device d.id (approve v.now by) v).1))
      (check (not (same_device_status d.status DeviceStatus.pending))
        (bad_request "Cannot approve device"))
      (λ _ v. (refl, refl)) w

approve_device-Quiet : (id by : ℕ) → Quiet (approve_device id by)
unfolding Always approve_device
approve_device-Quiet id by w =
    let found = find_one (with_device_id id) w.devices in
    bind-Quiet (or_raise found (not_found "Device not found")) (approve_found by)
      (Always-or_raise SameTokens same found (not_found "Device not found"))
      (approve_found-Quiet by) w

create_certificate-Quiet : (c : Certificate) → Quiet (create_certificate c)
unfolding Always create_certificate
create_certificate-Quiet c w =
    elim (Bool-cases (is_some (find_one (with_serial c.serial_number) w.certificates))) [
      | inl taken ↦ rw taken (refl, refl)
      | inr free ↦ rw free (refl, refl)
    ]

module _ (pki : Pki) where
  store_certificate-Quiet : (p : SignParams) (s : SignResult) → Quiet (store_certificate pki p s)
  unfolding Always store_certificate bind_certificate
  store_certificate-Quiet p s w =
      let certificate = new_certificate pki p s w.next_id w.now in
      let finish = bind_certificate p.device_id s.serial_number >> pure (issued pki s w.now) in
      let kept =
        bind-Quiet (create_certificate certificate) (λ _. finish)
          (create_certificate-Quiet certificate) (λ _ v. (refl, refl))
          (record w { next_id = w.next_id + 1 }) in
      kept

  pub sign_and_store_certificate-Quiet : (p : SignParams) → Quiet (sign_and_store_certificate pki p)
  unfolding Always sign_and_store_certificate
  sign_and_store_certificate-Quiet p w =
      let name = common_name pki p.employee_id p.device_id in
      let signed : Quiet (sign_csr pki p.csr name p.ttl) =
        λ v. rw (sign_csr-same pki p.csr name p.ttl v) (refl, refl) in
      bind-Quiet (raise_if _ _) (λ _. sign_csr pki p.csr name p.ttl >>= store_certificate pki p)
        (check (not (is_valid_csr_pem (pki.chars p.csr))) (bad_request "Invalid CSR PEM format"))
        (λ _.
          bind-Quiet (sign_csr pki p.csr name p.ttl) (store_certificate pki p) signed
            (store_certificate-Quiet p))
        w

  pub admit-Quiet : (dto : EnrollDeviceDto) (token : TokenVerdict) → Quiet (admit pki dto token)
  unfolding Always admit
  admit-Quiet dto token w =
      let by = pki.number (codes "system:enrollment") in
      let signed = λ (device : Device). sign_for pki dto token device >>= λ i. pure (device, i) in
      let approved = λ (device : Device). approve_device device.device_id by >> signed device in
      let registered = register_device (device_data dto) token.user_id >>= approved in
      let existing = λ (v : World). find_one (with_fingerprint dto.device_fingerprint) v.devices in
      bind-Quiet (raise_if _ _) (λ _ v. (refuse_enrolled (existing v) >> registered) v)
        (check (not (is_valid_csr_pem (pki.chars dto.csr)))
          (bad_request "Invalid CSR format. PEM-encoded PKCS#10 required."))
        (λ _ v.
          bind-Quiet (refuse_enrolled (existing v)) (λ _. registered)
            (refuse_enrolled-Quiet (existing v))
            (λ _.
              bind-Quiet (register_device (device_data dto) token.user_id) approved
                (register_device-Quiet (device_data dto) token.user_id)
                (λ device.
                  bind-Quiet (approve_device device.device_id by) (λ _. signed device)
                    (approve_device-Quiet device.device_id by)
                    (λ _.
                      bind-Quiet (sign_for pki dto token device) (λ i. pure (device, i))
                        (sign_and_store_certificate-Quiet _) (λ i u. same u))))
            v)
        w

  record_revocation-Quiet :
      (c : Certificate) (serial by : ℕ) (reason ip : Option ℕ)
      → Quiet (record_revocation pki c serial by reason ip)
  unfolding Always create_revocation
  record_revocation-Quiet c serial by reason ip w = elim (Option-cases (stored_reason pki reason)) [
    | inl refused ↦ rw refused (refl, refl)
    | inr (kind, taken) ↦ elim (Bool-cases (is_some (find_one (revoked_as serial) w.revocations))) [
      | inl clash ↦ rw (taken, clash) (refl, refl)
      | inr free ↦ rw (taken, free) (refl, refl)
    ]
  ]

  revoke_found-Quiet :
      (serial by : ℕ) (reason ip : Option ℕ) (c : Certificate)
      → Quiet (revoke_found pki serial by reason ip c)
  unfolding Always revoke_found
  revoke_found-Quiet serial by reason ip c w =
      let finish = record_revocation pki c serial by reason ip in
      let saved = save_revoked pki serial by reason >> finish in
      bind-Quiet (raise_if _ _) (λ _. attempt (pki_revoke pki serial) >> saved)
        (check (is_revoked_status c.status) (bad_request "Certificate is already revoked"))
        (λ _.
          bind-Quiet (attempt (pki_revoke pki serial)) (λ _. saved)
            (λ v. rw (pki_revoke-same pki serial v) (refl, refl))
            (λ _.
              bind-Quiet (save_revoked pki serial by reason) (λ _. finish) (λ v. (refl, refl))
                (λ _. record_revocation-Quiet c serial by reason ip)))
        w

  revoke_certificate-Quiet :
      (serial by : ℕ) (reason ip : Option ℕ) → Quiet (revoke_certificate pki serial by reason ip)
  unfolding Always revoke_certificate
  revoke_certificate-Quiet serial by reason ip w =
      let found = find_one (with_serial serial) w.certificates in
      bind-Quiet (or_raise found (not_found "Certificate not found"))
        (revoke_found pki serial by reason ip)
        (Always-or_raise SameTokens same found (not_found "Certificate not found"))
        (revoke_found-Quiet serial by reason ip) w

  pub renew_certificate-Quiet :
      (dto : RenewCertificateDto) (ip : ℕ) → Quiet (renew_certificate pki dto ip)
  unfolding Always renew_certificate renew_verified log
  renew_certificate-Quiet dto ip w =
      let v = verify_certificate pki dto.current_certificate (some dto.device_fingerprint) w in
      let by = pki.number (codes "system:renewal") in
      let reason = some (pki.number (codes "superseded")) in
      let noted = λ (i : IssuedCertificate). log (certificate_renewed pki v i ip) >> pure i in
      let sign = sign_and_store_certificate pki (renewal_params pki dto v) in
      let revoke = revoke_certificate pki v.serial_number by reason (some ip) in
      bind-Quiet (raise_if _ _)
        (λ _.
          raise_if (not (is_valid_csr_pem (pki.chars dto.new_csr)))
            (bad_request "Invalid new CSR format")
          >> (revoke >> (sign >>= noted)))
        (check (not (valid v)) (unauthorized "Certificate renewal failed"))
        (λ _.
          bind-Quiet (raise_if _ _) (λ _. revoke >> (sign >>= noted))
            (check (not (is_valid_csr_pem (pki.chars dto.new_csr)))
              (bad_request "Invalid new CSR format"))
            (λ _.
              bind-Quiet revoke (λ _. sign >>= noted)
                (revoke_certificate-Quiet v.serial_number by reason (some ip))
                (λ _.
                  bind-Quiet sign noted (sign_and_store_certificate-Quiet _)
                    (λ i u. (refl, refl)))))
        w
