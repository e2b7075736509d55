-- ===== src/Setup/Bounds.antt =====
-- How many enrollments a token allows, whatever the setup service does
-- (src/modules/setup/setup.service.ts).
use securevault_backend.Prelude.{
  ℕ, ◌+◌, ◌≤◌, Bool, true, false, ◌&&◌, Option, none, some, List, [], ◌∷◌, ◌++◌, ◌≡◌, refl, ap, sym,
  ◌∙◌, arith, ◌==◌, if◌then◌else◌, is_some, find_one, find_one-All, All, Bool-cases, Option-cases,
  inl, inr,
}
use securevault_backend.Schema.{EnrollmentToken}
use securevault_backend.World.{World, Result, ok, throw, pure, log, ◌>>◌}
use securevault_backend.World.Laws.{Always, Always-bind}
use securevault_backend.Users.{find_by_id}
use securevault_backend.Certificates.VaultPki.{Pki}
use securevault_backend.Setup.{
  EnrollDeviceDto, RenewCertificateDto, TokenParams, with_token, user_of, new_token, token_created,
  create_token, create_enrollment_token, enroll_device, renew_certificate,
}
use securevault_backend.Setup.Quiet.{renew_certificate-Quiet}
use securevault_backend.Setup.Consumption.{
  Fair, enroll_device-Usable, enroll_device-Fair, create_enrollment_token-Fair,
}

abbrev pub succeeds : {A : Type 0} → Result A → Bool
succeeds (ok a) = true
succeeds (throw e) = false

abbrev pub used_of : Option EnrollmentToken → ℕ
used_of none = 0
used_of (some t) = t.used_count

-- The uses of a token so far, none where it is not stored
abbrev pub spent : ℕ → World → ℕ
spent token w = used_of (find_one (with_token token) w.enrollment_tokens)

abbrev SpentStays : ℕ → World → World → Type 0
SpentStays token w w' = spent token w' ≡ spent token w

spent-append :
    (token : ℕ) (t : EnrollmentToken) (ts : List EnrollmentToken)
    → t.used_count ≡ 0
    → used_of (find_one (with_token token) (ts ++ t ∷ []))
      ≡ used_of (find_one (with_token token) ts)
spent-append token t [] unused = elim (Bool-cases (with_token token t)) [
  | inl hit ↦ rw hit unused
  | inr miss ↦ rw miss refl
]
spent-append token t (d ∷ ts) unused = elim (Bool-cases (with_token token d)) [
  | inl hit ↦ rw hit refl
  | inr miss ↦ rw miss (spent-append token t ts unused)
]

create_token-spent :
    (token : ℕ) (t : EnrollmentToken)
    → t.used_count ≡ 0
    → Always (SpentStays token) (create_token t)
unfolding Always create_token
create_token-spent token t unused w =
    elim (Bool-cases (is_some (find_one (with_token t.token) w.enrollment_tokens))) [
      | inl taken ↦ rw taken refl
      | inr free ↦ rw free (spent-append token t w.enrollment_tokens unused)
    ]

create_enrollment_token-spent :
    (token : ℕ) (secure_token : ℕ → ℕ) (params : TokenParams) (w : World)
    → spent token (create_enrollment_token secure_token params w).1 ≡ spent token w
unfolding Always create_enrollment_token find_by_id log
create_enrollment_token-spent token secure_token params w =
    elim (Option-cases (user_of params.user_id w)) [
      | inl missing ↦ rw missing refl
      | inr (u, found) ↦
          let t = new_token params (secure_token w.next_id) (w.next_id + 1) w.now in
          let kept =
            Always-bind (SpentStays token) (λ u v x h g. g ∙ h) (create_token t)
              (λ _. log (token_created params t) >> pure (t.token, t.expires_at))
              (create_token-spent token t refl) (λ _ v. refl)
              (record w { next_id = w.next_id + 1 + 1 }) in
          rw found kept
    ]

-- One operation of the setup service, or anything else, which leaves the tokens alone.
pub data SetupStep (pki : Pki) (secure_token : ℕ → ℕ) : World → World → Type 0 where
  create :
      (params : TokenParams) (w : World)
      → SetupStep pki secure_token w (create_enrollment_token secure_token params w).1
  enroll :
      (dto : EnrollDeviceDto) (ip : ℕ) (w : World)
      → SetupStep pki secure_token w (enroll_device pki dto ip w).1
  renew :
      (dto : RenewCertificateDto) (ip : ℕ) (w : World)
      → SetupStep pki secure_token w (renew_certificate pki dto ip w).1
  elsewhere :
      (w w' : World) → w'.enrollment_tokens ≡ w.enrollment_tokens → SetupStep pki secure_token w w'

pub data SetupRun (pki : Pki) (secure_token : ℕ → ℕ) : World → World → Type 0 where
  done : (w : World) → SetupRun pki secure_token w w
  step :
      (u v w : World)
      → SetupStep pki secure_token u v
      → SetupRun pki secure_token v w
      → SetupRun pki secure_token u w

module _ (pki : Pki) (secure_token : ℕ → ℕ) where
  SetupStep-Fair :
      (u v : World)
      → SetupStep pki secure_token u v
      → All Fair u.enrollment_tokens
      → All Fair v.enrollment_tokens
  unfolding Always
  SetupStep-Fair u v (SetupStep.create params w) fair =
      create_enrollment_token-Fair secure_token params w fair
  SetupStep-Fair u v (SetupStep.enroll dto ip w) fair = enroll_device-Fair pki dto ip w fair
  SetupStep-Fair u v (SetupStep.renew dto ip w) fair =
      rw ((renew_certificate-Quiet pki dto ip w).0) fair
  SetupStep-Fair u v (SetupStep.elsewhere w w' same) fair = rw same fair

  SetupRun-Fair :
      (u w : World)
      → SetupRun pki secure_token u w
      → All Fair u.enrollment_tokens
      → All Fair w.enrollment_tokens
  SetupRun-Fair u w (SetupRun.done v) fair = fair
  SetupRun-Fair u w (SetupRun.step t v x first rest) fair =
      SetupRun-Fair v x rest (SetupStep-Fair t v first fair)

  module _ (token : ℕ) where
    -- The enrollments with the token that succeed in a run
    abbrev pub step_enrollments : (u v : World) → SetupStep pki secure_token u v → ℕ
    step_enrollments u v (SetupStep.create params w) = 0
    step_enrollments u v (SetupStep.enroll dto ip w) =
        if dto.enrollment_token == token && succeeds (enroll_device pki dto ip w).0 then 1 else 0
    step_enrollments u v (SetupStep.renew dto ip w) = 0
    step_enrollments u v (SetupStep.elsewhere w w' same) = 0

    abbrev pub enrollments : (u w : World) → SetupRun pki secure_token u w → ℕ
    enrollments u w (SetupRun.done v) = 0
    enrollments u w (SetupRun.step t v x first rest) =
        step_enrollments t v first + enrollments v x rest

    enroll_device-spent :
        (dto : EnrollDeviceDto) (ip : ℕ) (w : World)
        → spent token (enroll_device pki dto ip w).1
          ≡ spent token w
            + (if dto.enrollment_token == token && succeeds (enroll_device pki dto ip w).0
                then 1
                else 0)
    enroll_device-spent dto ip w = elim (enroll_device-Usable dto w pki ip) [
      | inl (e, threw, kept) ↦ rw (threw, kept) (ground arith)
      | inr (r, t, answered, fits, t', used, now_stored, others) ↦
          elim (Bool-cases (dto.enrollment_token == token)) [
            | inl same ↦
                let name : dto.enrollment_token ≡ token = ground arith in
                let before : find_one (with_token token) w.enrollment_tokens ≡ some t =
                  ap (λ n. find_one (with_token n) w.enrollment_tokens) (sym name) ∙ fits.stored in
                let w' = (enroll_device pki dto ip w).1 in
                let after : find_one (with_token token) w'.enrollment_tokens ≡ some t' =
                  ap (λ n. find_one (with_token n) w'.enrollment_tokens) (sym name) ∙ now_stored in
                let more = used.counted in rw (answered, same, before, after) more
            | inr other ↦ let kept = others token (ground arith) in rw (kept, other) (omega arith)
          ]
    ]

    step-spent :
        (u v : World) (s : SetupStep pki secure_token u v)
        → spent token v ≡ spent token u + step_enrollments u v s
    unfolding Always
    step-spent u v (SetupStep.create params w) =
        omega (arith, create_enrollment_token-spent token secure_token params w)
    step-spent u v (SetupStep.enroll dto ip w) = enroll_device-spent dto ip w
    step-spent u v (SetupStep.renew dto ip w) =
        rw ((renew_certificate-Quiet pki dto ip w).0) (omega arith)
    step-spent u v (SetupStep.elsewhere w w' same) = rw same (omega arith)

    run-spent :
        (u w : World) (run : SetupRun pki secure_token u w)
        → spent token w ≡ spent token u + enrollments u w run
    run-spent u w (SetupRun.done v) = omega arith
    run-spent u w (SetupRun.step t v x first rest) =
        omega (arith, step-spent t v first, run-spent v x rest)

    -- Whatever enrollment tokens are created, devices enrolled and certificates renewed, one after
    -- the other, the uses that a stored token had before and the enrollments with it that succeed
    -- are together no more than the devices that it allows, where the tokens had no more uses than
    -- that before; with a token that is not stored in the end, none succeeds.
    pub SetupRun-Bounded :
        (u w : World) (run : SetupRun pki secure_token u w)
        → All Fair u.enrollment_tokens
        → ((t : EnrollmentToken)
            → find_one (with_token token) w.enrollment_tokens ≡ some t
            → spent token u + enrollments u w run ≤ t.max_devices)
          × (find_one (with_token token) w.enrollment_tokens ≡ none → enrollments u w run ≡ 0)
    SetupRun-Bounded u w run fair =
        let total = run-spent u w run in
        (
          λ t found.
              let fits =
                find_one-All Fair (with_token token) w.enrollment_tokens t
                  (SetupRun-Fair u w run fair) found in
              let uses : spent token w ≡ t.used_count = rw found refl in
              omega (arith, fits.0, uses, total),
          λ missing. let uses : spent token w ≡ 0 = rw missing refl in omega (arith, uses, total),
        )
