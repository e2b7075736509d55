-- ===== src/Shares/Validation/Access.antt =====
-- When `validateAccess` grants an access, and what a refusal leaves behind.
use securevault_backend.Prelude.{
  ℕ, ◌+◌, ◌≤◌, ◌<◌, Bool, ◌&&◌, true, false, Option, none, some, [], ◌∷◌, ◌≡◌, refl, ap, ◌≢◌, ◌↔◌,
  ◌⊎◌, inl, inr, arith, find_one, update_one, count_documents, Option-cases, Bool-cases, ltb,
  String, count_documents-append,
}
use securevault_backend.Schema.{ShareAction, ShareStatus, FileAccess, AuditEntry, Outcome}
use securevault_backend.World.{World, Exception, Result, ok, throw}
use securevault_backend.Shares.Permission.{
  has_permission_for_action, Allows, has_permission_for_action-Allows_iff,
}
use securevault_backend.Shares.Validation.{
  access_denied, active_for, by_id, set_status, share_expired, is_download, reaches, wrong_device,
  deny, check_share, check_found, validate_access,
}

-- What the service promises of a granted access, without reference to the order of the checks.
pub record Grants (w : World) (file_id user_id : ℕ) (action : ShareAction) (device : Option ℕ)
    (s : FileAccess) : Type 0 where
  pub found : find_one (active_for file_id user_id) w.shares ≡ some s
  pub in_time : w.now ≤ s.expires_at
  pub allowed : Allows s.permission action
  pub below_limit :
      action ≡ ShareAction.download → (m : ℕ) → s.max_downloads ≡ some m → s.download_count < m
  pub on_device : (d : ℕ) → s.allowed_device_certificate_id ≡ some d → d ≢ 0 → device ≡ some d

under_limit :
    (action : ShareAction) (limit : Option ℕ) (count : ℕ)
    → (action ≡ ShareAction.download → (m : ℕ) → limit ≡ some m → count < m)
    → (is_download action && reaches limit count) ≡ false
under_limit ShareAction.download (some m) count h = let below = h refl m refl in ground arith
under_limit ShareAction.download none count h = refl
under_limit _ limit count h = refl

right_device :
    (allowed device : Option ℕ)
    → ((d : ℕ) → allowed ≡ some d → d ≢ 0 → device ≡ some d)
    → wrong_device allowed device ≡ false
right_device none device h = refl
right_device (some d) device h = ground (arith, h d refl)

abbrev pub is_failure : AuditEntry → Bool
is_failure e = elim e.status [ Outcome.failure ↦ true | _ ↦ false ]

module _ (file_id user_id : ℕ) (action : ShareAction) (device : Option ℕ) (w : World) where
  check_share_sound :
      (s s' : FileAccess)
      → (check_share s file_id user_id action device w.now w).0 ≡ ok s'
      → (s ≡ s')
        × (w.now ≤ s.expires_at)
        × (has_permission_for_action s.permission action ≡ true)
        × (action ≡ ShareAction.download
            → (m : ℕ) → s.max_downloads ≡ some m
            → s.download_count < m)
        × ((d : ℕ) → s.allowed_device_certificate_id ≡ some d → d ≢ 0 → device ≡ some d)
  unfolding check_share
  check_share_sound s s' h =
      (ground arith, ground arith, ground arith, λ a m e. ground arith, λ d e n. ground arith)

  check_share_complete :
      (s : FileAccess)
      → w.now ≤ s.expires_at
      → has_permission_for_action s.permission action ≡ true
      → (action ≡ ShareAction.download → (m : ℕ) → s.max_downloads ≡ some m → s.download_count < m)
      → ((d : ℕ) → s.allowed_device_certificate_id ≡ some d → d ≢ 0 → device ≡ some d)
      → (check_share s file_id user_id action device w.now w).0 ≡ ok s
  unfolding check_share
  check_share_complete s t p b d = ground (
    arith,
    under_limit action s.max_downloads s.download_count b,
    right_device s.allowed_device_certificate_id device d,
  )

  Grants-of_check :
      (s s' : FileAccess)
      → find_one (active_for file_id user_id) w.shares ≡ some s
      → (check_share s file_id user_id action device w.now w).0 ≡ ok s'
      → Grants w file_id user_id action device s'
  Grants-of_check s s' e h =
      let (same, in_time, allowed, below, on_device) = check_share_sound s s' h in
      rw (← same) (record {
        found = e;
        in_time = in_time;
        allowed = (has_permission_for_action-Allows_iff s.permission action).0 allowed;
        below_limit = below;
        on_device = on_device;
      })

  validate_access_sound :
      (s : FileAccess)
      → (validate_access file_id user_id action device w).0 ≡ ok s
      → Grants w file_id user_id action device s
  unfolding validate_access
  validate_access_sound s h = elim (Option-cases (find_one (active_for file_id user_id) w.shares)) [
    | inl missing ↦ absurd (ground arith)
    | inr (t, e) ↦ Grants-of_check t s e (rw e at h)
  ]

  validate_access_complete :
      (s : FileAccess)
      → Grants w file_id user_id action device s
      → (validate_access file_id user_id action device w).0 ≡ ok s
  unfolding validate_access
  validate_access_complete s g = rw g.found (
      check_share_complete s g.in_time
        ((has_permission_for_action-Allows_iff s.permission action).1 g.allowed) g.below_limit
        g.on_device)

  -- Access is granted, with the share record, exactly when every promise holds.
  pub validate_access-Grants_iff :
      (s : FileAccess)
      → ((validate_access file_id user_id action device w).0 ≡ ok s)
        ↔ Grants w file_id user_id action device s
  validate_access-Grants_iff s = (validate_access_sound s, validate_access_complete s)

  -- What a call leaves behind.
  abbrev pub Leaves : Result FileAccess × World → Type 0
  Leaves (ok s, w') = w' ≡ w
  Leaves (throw e, w') =
      ((e ≢ share_expired)
        × (w'.shares ≡ w.shares)
        × (w'.next_id ≡ w.next_id)
        × (count_documents is_failure w'.audit ≡ count_documents is_failure w.audit + 1))
      ⊎ ((s : FileAccess) × (find_one (active_for file_id user_id) w.shares ≡ some s)
          × (s.expires_at < w.now)
          × (e ≡ share_expired)
          × (w'.next_id ≡ w.next_id)
          × (w'.shares ≡ update_one (by_id s.id) (set_status ShareStatus.expired) w.shares))

  deny-Leaves :
      (reason : String) (e : Exception)
      → e ≢ share_expired
      → Leaves (deny file_id user_id action reason e w)
  unfolding deny
  deny-Leaves reason e h =
      inl (h, refl, refl, rw (count_documents-append is_failure w.audit (_ ∷ [])) (omega arith))

  check_share-Leaves :
      (s : FileAccess)
      → find_one (active_for file_id user_id) w.shares ≡ some s
      → Leaves (check_share s file_id user_id action device w.now w)
  unfolding check_share
  check_share-Leaves s e = elim (Bool-cases (ltb s.expires_at w.now)) [
    | inl late ↦ rw late (inr (s, e, ground arith, refl, refl, refl))
    | inr in_time ↦ rw in_time (elim (Bool-cases (has_permission_for_action s.permission action)) [
      | inr forbids ↦ rw forbids (deny-Leaves _ _ (ground arith))
      | inl allows ↦
          rw allows
            (elim (Bool-cases (is_download action && reaches s.max_downloads s.download_count)) [
              | inl full ↦ rw full (deny-Leaves _ _ (ground arith))
              | inr room ↦
                  rw room (elim (Bool-cases (wrong_device s.allowed_device_certificate_id device)) [
                    | inl other ↦ rw other (deny-Leaves _ _ (ground arith))
                    | inr right ↦ rw right refl
                  ])
            ])
    ])
  ]

  check_found-Leaves :
      (o : Option FileAccess)
      → find_one (active_for file_id user_id) w.shares ≡ o
      → Leaves (check_found o file_id user_id action device w.now w)
  unfolding check_found
  check_found-Leaves none e = deny-Leaves _ _ (ground arith)
  check_found-Leaves (some s) e = check_share-Leaves s e

  -- A granted access changes nothing. A refused one either saves the share that was found as
  -- expired, exactly where its time has passed, or leaves the shares alone and adds one failure to
  -- the audit log. Neither takes a new identifier.
  pub validate_access-Leaves : Leaves (validate_access file_id user_id action device w)
  unfolding validate_access
  validate_access-Leaves = check_found-Leaves _ refl

  Leaves-ok :
      (r : Result FileAccess × World) (s : FileAccess) → Leaves r → r.0 ≡ ok s → r ≡ (ok s, w)
  Leaves-ok (ok t, w') s same h = rw same (ap (λ a. (a, w)) h)
  Leaves-ok (throw e, w') s l h = cc

  pub validate_access-Grants :
      (s : FileAccess)
      → Grants w file_id user_id action device s
      → validate_access file_id user_id action device w ≡ (ok s, w)
  validate_access-Grants s g = Leaves-ok _ s validate_access-Leaves (validate_access_complete s g)

  -- With no active share the answer is always a denial.
  pub validate_access-none :
      find_one (active_for file_id user_id) w.shares ≡ none
      → (validate_access file_id user_id action device w).0 ≡ throw access_denied
  unfolding validate_access
  validate_access-none h = rw h
