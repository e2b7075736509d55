-- ===== src/Setup/Consumption.antt =====
-- How often an enrollment token enrolls (src/modules/setup/setup.service.ts).
use securevault_backend.Prelude.{
  ℕ, ◌+◌, ◌≤◌, ◌<◌, ◌↔◌, ◌≢◌, leb, List, find_one-update_one, find_one-holds, Bool, true, false,
  some, [], ◌∷◌, ◌≡◌, ◌⊎◌, refl, ap, ◌∙◌, arith, ◌==◌, ltb, is_some, find_one, update_one,
  update_found-All, All, All-append, Bool-cases, Option-cases, inl, inr,
}
use securevault_backend.Schema.{EnrollmentToken, Device}
use securevault_backend.World.{World, Result, Exception, ok, throw, pure, log, ◌>>◌}
use securevault_backend.World.Laws.{Always, Always-bind, bind-ok, bind-throw}
use securevault_backend.Users.{find_by_id}
use securevault_backend.Certificates.VaultPki.{Pki}
use securevault_backend.Certificates.{IssuedCertificate}
use securevault_backend.Setup.{
  EnrollDeviceDto, with_token, consumed, user_active, user_of, TokenAnswer, verify_token,
  verify_found, consume, consume_token, admit, finish_enrollment, enroll_with, enroll_device,
  create_enrollment_token, create_token, new_token, token_created, TokenParams,
}
use securevault_backend.Setup.Quiet.{SameTokens, admit-Quiet}

-- A token that an enrollment may use: it is stored and in time, has uses left, and belongs to the
-- employee and to an active user.
pub record Usable (dto : EnrollDeviceDto) (w : World) (t : EnrollmentToken) : Type 0 where
  pub stored : find_one (with_token dto.enrollment_token) w.enrollment_tokens ≡ some t
  pub in_time : w.now ≤ t.expires_at
  pub left : consumed t ≡ false
  pub employee : t.employee_id ≡ dto.employee_id
  pub active : user_active (user_of t.user_id w) ≡ true

abbrev accepts : TokenAnswer → Bool
accepts (TokenAnswer.accepted v) = true
accepts (TokenAnswer.rejected reason) = false

find_one-update_other :
    (other token : ℕ)
    → other ≢ token
    → (f : EnrollmentToken → EnrollmentToken) → ((t : EnrollmentToken) → (f t).token ≡ t.token)
    → (ts : List EnrollmentToken)
    → find_one (with_token other) (update_one (with_token token) f ts)
      ≡ find_one (with_token other) ts
find_one-update_other other token differs f same [] = refl
find_one-update_other other token differs f same (t ∷ ts) =
    let name = same t in
    let rest = find_one-update_other other token differs f same ts in ground (arith, name, rest)

module _ (dto : EnrollDeviceDto) (w : World) where
  verify_found-Usable :
      (t : EnrollmentToken)
      → find_one (with_token dto.enrollment_token) w.enrollment_tokens ≡ some t
      → accepts (verify_found dto.employee_id w t) ≡ true
      → Usable dto w t
  verify_found-Usable t stored h = elim (Bool-cases (ltb t.expires_at w.now)) [
    | inl late ↦ absurd (let bad = rw late at h in cc)
    | inr in_time ↦ elim (Bool-cases (consumed t)) [
      | inl gone ↦ absurd (let bad = rw (in_time, gone) at h in cc)
      | inr left ↦ elim (Bool-cases (t.employee_id == dto.employee_id)) [
        | inr other ↦ absurd (let bad = rw (in_time, left, other) at h in cc)
        | inl employee ↦ elim (Bool-cases (user_active (user_of t.user_id w))) [
          | inr idle ↦ absurd (let bad = rw (in_time, left, employee, idle) at h in cc)
          | inl active ↦ record {
            stored = stored;
            in_time = ground arith;
            left = left;
            employee = ground arith;
            active = active;
          }
        ]
      ]
    ]
  ]

  verify_token-Usable :
      accepts (verify_token dto.enrollment_token dto.employee_id w) ≡ true
      → (t : EnrollmentToken) × Usable dto w t
  unfolding verify_token
  verify_token-Usable h =
      elim (Option-cases (find_one (with_token dto.enrollment_token) w.enrollment_tokens)) [
        | inl missing ↦ absurd (let bad = rw missing at h in cc)
        | inr (t, stored) ↦ (t, verify_found-Usable t stored (rw stored at h))
      ]

  module _ (pki : Pki) (ip : ℕ) where
    -- Either nothing is admitted and the tokens stay, or the token is consumed once.
    data Outcome (result : Result (Device × IssuedCertificate) × World) : Type 0 where
      refused :
          (e : Exception)
          → result.0 ≡ throw e
          → result.1.enrollment_tokens ≡ w.enrollment_tokens
          → Outcome result
      enrolled :
          (r : Device × IssuedCertificate) (t : EnrollmentToken)
          → result.0 ≡ ok r
          → Usable dto w t
          → result.1.enrollment_tokens
            ≡ update_one
                (with_token dto.enrollment_token)
                (consume dto ip w.now)
                w.enrollment_tokens
          → Outcome result

    -- A token as it was, with one use more: it is marked as used exactly if it was or if no use is
    -- left, and the use's time, device and address are noted.
    pub record UsedOnce (t t' : EnrollmentToken) : Type 0 where
      pub counted : t'.used_count ≡ t.used_count + 1
      pub marked : (t'.is_used ≡ true) ↔ ((t.is_used ≡ true) ⊎ (t.max_devices ≤ t.used_count + 1))
      pub noted :
          (t'.used_at ≡ some w.now)
          × (t'.used_by_device_fingerprint ≡ some dto.device_fingerprint)
          × (t'.used_from_ip ≡ some ip)
      pub kept_limit : t'.max_devices ≡ t.max_devices
      pub kept_name : (t'.id ≡ t.id) × (t'.token ≡ t.token)
      pub kept_owner : (t'.user_id ≡ t.user_id) × (t'.employee_id ≡ t.employee_id)
      pub kept_rest : (t'.expires_at ≡ t.expires_at) × (t'.created_by ≡ t.created_by)

    consume-UsedOnce : (t : EnrollmentToken) → UsedOnce t (consume dto ip w.now t)
    consume-UsedOnce t = record {
      counted = refl;
      marked = (
        λ h. elim (Bool-cases (leb t.max_devices (t.used_count + 1))) [
          | inl last ↦ inr (ground arith)
          | inr more ↦ inl (rw more at h)
        ],
        λ h. ground (arith, h),
      );
      noted = (refl, refl, refl);
      kept_limit = refl;
      kept_name = (refl, refl);
      kept_owner = (refl, refl);
      kept_rest = (refl, refl);
    }

    -- Either nothing is admitted and the tokens stay, or a token that may be used has one use more
    -- and no other token is changed.
    abbrev pub EnrollsOnce : Result (Device × IssuedCertificate) × World → Type 0
    EnrollsOnce result =
        ((e : Exception) × (result.0 ≡ throw e)
          × (result.1.enrollment_tokens ≡ w.enrollment_tokens))
        ⊎ ((r : Device × IssuedCertificate) × (t : EnrollmentToken) × (result.0 ≡ ok r)
            × Usable dto w t
            × (t' : EnrollmentToken) × UsedOnce t t'
            × (find_one (with_token dto.enrollment_token) result.1.enrollment_tokens ≡ some t')
            × ((other : ℕ)
                → other ≢ dto.enrollment_token
                → find_one (with_token other) result.1.enrollment_tokens
                  ≡ find_one (with_token other) w.enrollment_tokens))

    enroll_with-Outcome :
        (answer : TokenAnswer)
        → (accepts answer ≡ true → (t : EnrollmentToken) × Usable dto w t)
        → Outcome (enroll_with pki dto ip answer w)
    unfolding enroll_with log consume_token Always
    enroll_with-Outcome (TokenAnswer.rejected reason) usable = refused _ refl refl
    enroll_with-Outcome (TokenAnswer.accepted token) usable =
        go (admit pki dto token w) refl (admit-Quiet pki dto token w)
      where
        go :
            (x : Result (Device × IssuedCertificate) × World)
            → admit pki dto token w ≡ x
            → SameTokens w x.1
            → Outcome (enroll_with pki dto ip (TokenAnswer.accepted token) w)
        go (throw e, v) ran kept =
            let stopped =
              bind-throw (admit pki dto token) (finish_enrollment pki dto ip token) w v e ran in
            refused e (ap (λ p. p.0) stopped) (ap (λ p. p.1.enrollment_tokens) stopped ∙ kept.0)
        go (ok r, v) ran kept =
            let done =
              bind-ok (admit pki dto token) (finish_enrollment pki dto ip token) w v r ran in
            let (t, fits) = usable refl in
            enrolled r t (ap (λ p. p.0) done) fits (
              ap (λ p. p.1.enrollment_tokens) done
              ∙ ap
                  (λ n.
                    update_one (with_token dto.enrollment_token) (consume dto ip n)
                      v.enrollment_tokens)
                  kept.1
              ∙ ap (update_one (with_token dto.enrollment_token) (consume dto ip w.now)) kept.0)

    enroll_device-Outcome : Outcome (enroll_device pki dto ip w)
    unfolding enroll_device
    enroll_device-Outcome =
        enroll_with-Outcome (verify_token dto.enrollment_token dto.employee_id w)
          verify_token-Usable

    -- An enrollment that succeeds found a stored token that had not expired and had uses left, of
    -- the employee and of an active user, which then has exactly one use more, and no other token is
    -- changed; one that is refused leaves the tokens as they were.
    pub enroll_device-Usable : EnrollsOnce (enroll_device pki dto ip w)
    enroll_device-Usable = elim enroll_device-Outcome [
      | refused e threw kept ↦ inl (e, threw, kept)
      | enrolled r t answered fits used ↦
          let f = consume dto ip w.now in
          let p = with_token dto.enrollment_token in
          inr (
            r,
            t,
            answered,
            fits,
            f t,
            consume-UsedOnce t,
            rw used (
                find_one-update_one p f w.enrollment_tokens t fits.stored
                  (find_one-holds p w.enrollment_tokens t fits.stored)),
            λ other differs. rw used (
                find_one-update_other other dto.enrollment_token differs f (λ d. refl)
                  w.enrollment_tokens),
          )
    ]

-- A token has no more uses than devices, and none left once it is marked as used.
abbrev pub Fair : EnrollmentToken → Type 0
Fair t = (t.used_count ≤ t.max_devices) × (t.is_used ≡ false → t.used_count < t.max_devices)

consume-Fair :
    (dto : EnrollDeviceDto) (ip now : ℕ) (t : EnrollmentToken)
    → consumed t ≡ false
    → Fair t
    → Fair (consume dto ip now t)
consume-Fair dto ip now t left fair =
    (ground (arith, fair.0, fair.1), ground (arith, fair.0, fair.1))

pub enroll_device-Fair :
    (pki : Pki) (dto : EnrollDeviceDto) (ip : ℕ) (w : World)
    → All Fair w.enrollment_tokens
    → All Fair (enroll_device pki dto ip w).1.enrollment_tokens
enroll_device-Fair pki dto ip w fair = elim (enroll_device-Outcome dto w pki ip) [
  | refused e threw kept ↦ rw kept fair
  | enrolled r t answered fits used ↦ rw used (
      update_found-All Fair (with_token dto.enrollment_token) (consume dto ip w.now)
        w.enrollment_tokens t fits.stored (consume-Fair dto ip w.now t fits.left) fair)
]

new_token-Fair : (params : TokenParams) (token id now : ℕ) → Fair (new_token params token id now)
new_token-Fair params token id now = elim (Option-cases params.max_devices) [
  | inl missing ↦ rw missing (omega arith, λ h. omega arith)
  | inr (n, given) ↦ rw given (ground arith, ground arith)
]

abbrev pub FairStays : World → World → Type 0
FairStays w w' = All Fair w.enrollment_tokens → All Fair w'.enrollment_tokens

create_token-Fair : (t : EnrollmentToken) → Fair t → Always FairStays (create_token t)
unfolding Always create_token
create_token-Fair t fair w all =
    elim (Bool-cases (is_some (find_one (with_token t.token) w.enrollment_tokens))) [
      | inl taken ↦ rw taken all
      | inr free ↦ rw free (All-append Fair w.enrollment_tokens (t ∷ []) all (fair, tt))
    ]

pub create_enrollment_token-Fair :
    (secure_token : ℕ → ℕ) (params : TokenParams)
    → Always FairStays (create_enrollment_token secure_token params)
unfolding Always create_enrollment_token find_by_id log
create_enrollment_token-Fair secure_token params w fair =
    elim (Option-cases (user_of params.user_id w)) [
      | inl missing ↦ rw missing fair
      | inr (u, found) ↦
          let t = new_token params (secure_token w.next_id) (w.next_id + 1) w.now in
          let kept =
            Always-bind FairStays (λ u v x h g f. g (h f)) (create_token t)
              (λ _. log (token_created params t) >> pure (t.token, t.expires_at))
              (create_token-Fair t (new_token-Fair params t.token t.id w.now)) (λ _ v h. h)
              (record w { next_id = w.next_id + 1 + 1 }) fair in
          rw found kept
    ]
