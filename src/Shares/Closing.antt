-- ===== src/Shares/Closing.antt =====
-- The operations that close shares: revocation, lazy expiry and the sweep of overdue shares.
use securevault_backend.Prelude.{
  ℕ, ◌+◌, ◌≤◌, Bool, true, Option, none, some, List, [], ◌∷◌, ◌≡◌, refl, ◌≢◌, ◌⊎◌, inl, inr, ◌↔◌,
  arith, ◌==◌, ◌&&◌, not, ltb, find_one, update_one, update_many, count_documents,
  find_one_of_count_zero, count_documents-update_found, Option-cases, Bool-cases,
  count_documents-update_many,
}
use securevault_backend.Schema.{
  ShareAction, ShareStatus, same_status, FileAccess, AuthenticatedUser,
}
use securevault_backend.World.{World, not_found, Result, ok, throw}
use securevault_backend.Shares.Validation.{
  access_denied, by_id, active_for, set_status, overdue, validate_access, is_share_valid,
  expire_overdue_shares,
}
use securevault_backend.Shares.Validation.Access.{validate_access-none}
use securevault_backend.Shares.Service.{revoke_share}
use securevault_backend.Shares.Runs.{SharesInv}

module _ (i : ℕ) (user : AuthenticatedUser) (ip : ℕ) (w : World) where
  -- What a call of `revokeShare` leaves behind: only the owner closes a share, and only once.
  abbrev pub Revokes : Result (Unit {0}) × World → Type 0
  Revokes (ok _, w') =
      (s : FileAccess) × (find_one (by_id i) w.shares ≡ some s)
      × (s.owner_id ≡ user.user_id)
      × (s.status ≢ ShareStatus.revoked)
      × (w'.shares ≡ update_one (by_id i) (set_status ShareStatus.revoked) w.shares)
  Revokes (throw e, w') =
      (w' ≡ w)
      × (((find_one (by_id i) w.shares ≡ none) × (e ≡ not_found "Share not found"))
          ⊎ ((s : FileAccess) × (find_one (by_id i) w.shares ≡ some s)
              × ((s.owner_id ≢ user.user_id) ⊎ (s.status ≡ ShareStatus.revoked))))

  revoke_found :
      (s : FileAccess) → find_one (by_id i) w.shares ≡ some s → Revokes (revoke_share i user ip w)
  unfolding revoke_share
  revoke_found s found = elim (Bool-cases (s.owner_id == user.user_id)) [
    | inr other ↦ rw (found, other) (refl, inr (s, found, inl (ground arith)))
    | inl owner ↦ elim (Bool-cases (same_status s.status ShareStatus.revoked)) [
      | inl again ↦ rw found (rw (owner, again) (refl, inr (s, found, inr (ground arith))))
      | inr first ↦ rw found (rw (owner, first) (s, found, ground arith, ground arith, refl))
    ]
  ]

  revoke_missing : find_one (by_id i) w.shares ≡ none → Revokes (revoke_share i user ip w)
  unfolding revoke_share
  revoke_missing missing = rw missing (refl, inl (missing, refl))

  revoke_closes :
      (s : FileAccess)
      → find_one (by_id i) w.shares ≡ some s
      → s.owner_id ≡ user.user_id
      → s.status ≡ ShareStatus.active
      → (revoke_share i user ip w).1.shares
        ≡ update_one (by_id i) (set_status ShareStatus.revoked) w.shares
  unfolding revoke_share
  revoke_closes s found owner active = rw found (ground arith)

  -- A revocation succeeds for the owner of a share that is not revoked, and changes its status
  -- alone; otherwise it changes nothing.
  pub revoke_share_leaves : Revokes (revoke_share i user ip w)
  revoke_share_leaves = elim (Option-cases (find_one (by_id i) w.shares)) [
    | inl missing ↦ revoke_missing missing
    | inr (s, found) ↦ revoke_found s found
  ]

  -- After the owner of an active share has revoked it, every access of the user that it was for
  -- to the file is denied.
  pub revoke_share_denies :
      SharesInv w
      → (s : FileAccess) → find_one (by_id i) w.shares ≡ some s
      → s.owner_id ≡ user.user_id
      → s.status ≡ ShareStatus.active
      → (action : ShareAction) (device : Option ℕ)
      → (validate_access s.file_id s.shared_with_user_id action device
          (revoke_share i user ip w).1).0
        ≡ throw access_denied
  revoke_share_denies inv s found owner active action device =
      let closed : (revoke_share i user ip w).1.shares
          ≡ update_one (by_id i) (set_status ShareStatus.revoked) w.shares =
        revoke_closes s found owner active in
      validate_access-none s.file_id s.shared_with_user_id action device _ (
        rw closed (
          find_one_of_count_zero (active_for s.file_id s.shared_with_user_id) _ (
            ground (
              arith,
              inv.single s.file_id s.shared_with_user_id,
              count_documents-update_found (active_for s.file_id s.shared_with_user_id) (by_id i)
                  (set_status ShareStatus.revoked) w.shares s found,
            ))))

-- A share is reported valid exactly when it is active and its time has not passed.
pub is_share_valid_iff :
    (i : ℕ) (w : World)
    → ((is_share_valid i w).0 ≡ ok true) ↔ (
        (s : FileAccess) × (find_one (by_id i) w.shares ≡ some s)
        × (s.status ≡ ShareStatus.active)
        × (w.now ≤ s.expires_at))
unfolding is_share_valid
is_share_valid_iff i w = (valid_sound, λ (s, found, active, in_time). rw found (ground arith))
  where
    valid_sound :
        (is_share_valid i w).0 ≡ ok true
        → (s : FileAccess) × (find_one (by_id i) w.shares ≡ some s)
          × (s.status ≡ ShareStatus.active)
          × (w.now ≤ s.expires_at)
    valid_sound h = elim (Option-cases (find_one (by_id i) w.shares)) [
      | inl missing ↦ absurd (ground arith)
      | inr (s, found) ↦ (s, found, ground arith, ground arith)
    ]

-- A share is open to access.
abbrev pub is_open : ℕ → FileAccess → Bool
is_open now s = same_status s.status ShareStatus.active && not (ltb s.expires_at now)

sweep_counts :
    (now : ℕ) (ds : List FileAccess)
    → let ds' = update_many (overdue now) (set_status ShareStatus.expired) ds in
      (count_documents (is_open now) ds' ≡ count_documents (is_open now) ds)
      × (count_documents (λ s. same_status s.status ShareStatus.active) ds'
            + count_documents (overdue now) ds
          ≡ count_documents (λ s. same_status s.status ShareStatus.active) ds)
sweep_counts now [] = (refl, refl)
sweep_counts now (d ∷ ds) = let (kept, swept) = sweep_counts now ds in (ground arith, ground arith)

-- The sweep leaves no overdue share active, keeps every share active whose time has not passed, and
-- returns the number of active shares that it closed.
pub expire_overdue_shares_lem :
    (w : World)
    → let (result, w') = expire_overdue_shares w in
      (n : ℕ) × (result ≡ ok n)
      × (count_documents (overdue w.now) w'.shares ≡ 0)
      × (count_documents (is_open w.now) w'.shares ≡ count_documents (is_open w.now) w.shares)
      × (count_documents (λ s. same_status s.status ShareStatus.active) w'.shares + n
          ≡ count_documents (λ s. same_status s.status ShareStatus.active) w.shares)
unfolding expire_overdue_shares
expire_overdue_shares_lem w =
    let (kept, swept) = sweep_counts w.now w.shares in
    (
      count_documents (overdue w.now) w.shares,
      refl,
      count_documents-update_many (overdue w.now) (set_status ShareStatus.expired) w.shares
          (λ d. refl),
      kept,
      swept,
    )
