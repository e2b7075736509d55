-- ===== src/Shares/Limits.antt =====
-- Downloads through a share: `validateAccess` followed by `recordDownload`, as the services
-- document the protocol (src/modules/shares/services/file-access-validation.service.ts).
use securevault_backend.Prelude.{
  ℕ, ◌+◌, ◌≤◌, ◌<◌, true, false, Option, none, some, List, [], ◌∷◌, ◌≡◌, refl, ap, ◌⊎◌, arith, All,
  All-append, find_one, update_one, update_one-All, update_many-All, update_found-All,
  find_one_of_count, find_one_of_count_zero, count_documents-update_found, find_one-update_one,
  find_one-holds,
}
use securevault_backend.Schema.{ShareAction, ShareStatus, FileAccess}
use securevault_backend.World.{World, Exception, Result, ok, throw, Action, pure, ◌>>=◌, ◌>>◌}
use securevault_backend.Shares.Validation.{
  access_denied, by_id, active_for, set_status, overdue, after_download, validate_access,
  record_download,
}
use securevault_backend.Shares.Validation.Access.{
  Grants, validate_access-Grants, validate_access-Grants_iff, validate_access-none,
}
use securevault_backend.Shares.Change.{
  Quiet, Change, quiet, keep, close, close_overdue, add, Change-Inv,
}
use securevault_backend.Shares.Runs.{
  SharesInv, Quietly, Op, perform, share_file-Quietly, revoke_share-Quietly,
  validate_access-Quietly, is_share_valid-Quietly, expire_overdue_shares-Quietly,
}

-- A validated download, with its count.
unfoldable pub fetch : ℕ → ℕ → Option ℕ → Action FileAccess
fetch file_id user_id device = do
  share ← validate_access file_id user_id ShareAction.download device
  record_download share.id
  pure share

abbrev WithinLimit : Option ℕ → ℕ → Type 0
WithinLimit none count = Unit
WithinLimit (some m) count = count ≤ m

-- No more downloads were counted than the share allows.
abbrev pub Within : FileAccess → Type 0
Within s = WithinLimit s.max_downloads s.download_count

record_download_found :
    (i : ℕ) (s : FileAccess) (w : World)
    → find_one (by_id i) w.shares ≡ some s
    → record_download i w
      ≡ (ok tt, record w { shares = update_one (by_id i) (λ _. after_download s) w.shares })
unfolding record_download
record_download_found i s w h = rw h

module _ (file_id user_id : ℕ) (device : Option ℕ) (w : World) (inv : SharesInv w) where
  module _ (s : FileAccess) (g : Grants w file_id user_id ShareAction.download device s) where
    -- The share that was validated is the one that is counted.
    by_id_found : find_one (by_id s.id) w.shares ≡ some s
    by_id_found =
        find_one_of_count (active_for file_id user_id) (by_id s.id) w.shares s g.found
          (ground arith) (inv.distinct s.id)

    validated : validate_access file_id user_id ShareAction.download device w ≡ (ok s, w)
    validated = validate_access-Grants file_id user_id ShareAction.download device w s g

    fetch_lem :
        fetch file_id user_id device w
        ≡ (ok s, record w { shares = update_one (by_id s.id) (λ _. after_download s) w.shares })
    unfolding fetch record_download
    fetch_lem = ground (arith, validated, by_id_found)

    -- A download that ends the share, by its one use or by its last, closes it: until the file is
    -- shared again, every access of the user to the file is denied.
    pub fetch_closes :
        (s.one_time_access ≡ true) ⊎ (s.max_downloads ≡ some (s.download_count + 1))
        → (action : ShareAction) (other_device : Option ℕ)
        → (validate_access file_id user_id action other_device (fetch file_id user_id device w).1).0
          ≡ throw access_denied
    fetch_closes last action other_device =
        let closed : active_for file_id user_id (after_download s) ≡ false = ground arith in
        let open_share : active_for file_id user_id s ≡ true =
          find_one-holds (active_for file_id user_id) w.shares s g.found in
        rw fetch_lem (
          validate_access-none file_id user_id action other_device _ (
            find_one_of_count_zero (active_for file_id user_id) _ (
              ground (
                arith,
                closed,
                open_share,
                inv.single file_id user_id,
                count_documents-update_found (active_for file_id user_id) (by_id s.id)
                    (λ _. after_download s) w.shares s by_id_found,
              ))))

  -- Two requests that are both validated before either download is counted are both granted at
  -- the last allowed download, and the count then exceeds the limit.
  pub concurrent_downloads_exceed :
      (s : FileAccess)
      → Grants w file_id user_id ShareAction.download device s
      → s.max_downloads ≡ some (s.download_count + 1)
      → let (first, w1) = validate_access file_id user_id ShareAction.download device w in
        let (second, w2) = validate_access file_id user_id ShareAction.download device w1 in
        let w4 = (record_download s.id (record_download s.id w2).1).1 in
        (first ≡ ok s)
        × (second ≡ ok s)
        × ((t : FileAccess) × (find_one (by_id s.id) w4.shares ≡ some t)
            × (t.download_count ≡ s.download_count + 2))
  concurrent_downloads_exceed s g limit =
      let once = record_download_found s.id s w (by_id_found s g) in
      let counted = record w {
        shares = update_one (by_id s.id) (λ _. after_download s) w.shares;
      } in
      let again =
        find_one-update_one (by_id s.id) (λ _. after_download s) w.shares s (by_id_found s g)
          (ground arith) in
      let twice = record_download_found s.id (after_download s) counted again in
      let last =
        find_one-update_one (by_id s.id) (λ _. after_download (after_download s)) counted.shares
          (after_download s) again (ground arith) in
      rw (validated s g)
        (refl, rw (validated s g), rw (validated s g) (rw once (rw twice (_, last, omega arith))))

fetch_refused :
    (f u : ℕ) (d : Option ℕ) (w : World) (e : Exception) (w' : World)
    → validate_access f u ShareAction.download d w ≡ (throw e, w')
    → fetch f u d w ≡ (throw e, w')
unfolding fetch
fetch_refused f u d w e w' h = rw (h, ◌>>=◌) (ap (λ r. (throw e, r.1)) h)

-- A request of a user: a validated download, or any operation but the bare counting of one.
abbrev IsGuarded : Op → Type 0
IsGuarded (Op.count_download _) = ⊥
IsGuarded _ = Unit

pub data Visit : Type 0 where
  download : ℕ → ℕ → Option ℕ → Visit
  request : (o : Op) → IsGuarded o → Visit

unfoldable pub visit : Visit → World → World
visit (Visit.download f u d) w = (fetch f u d w).1
visit (Visit.request o _) w = perform o w

unfoldable pub visit_all : List Visit → World → World
visit_all [] w = w
visit_all (v ∷ vs) w = visit_all vs (visit v w)

WithinLimit-zero : (limit : Option ℕ) (count : ℕ) → count ≡ 0 → WithinLimit limit count
WithinLimit-zero none count h = tt
WithinLimit-zero (some m) count h = omega arith

WithinLimit-next :
    (limit : Option ℕ) (count : ℕ)
    → ((m : ℕ) → limit ≡ some m → count < m)
    → WithinLimit limit (count + 1)
WithinLimit-next none count h = tt
WithinLimit-next (some m) count h = let below = h m refl in omega arith

Within-Quiet :
    {ds ds' : List FileAccess} {n n' : ℕ} → Quiet ds n ds' n' → All Within ds → All Within ds'
Within-Quiet (keep h) a = a
Within-Quiet (close {ds} i st h) a =
    update_one-All Within (by_id i) (set_status st) ds (λ d _ e. e) a
Within-Quiet (close_overdue {ds} now) a =
    update_many-All Within (overdue now) (set_status ShareStatus.expired) ds (λ d _ e. e) a
Within-Quiet (add {ds} s id zero_count free) a =
    All-append Within ds (s ∷ []) a (WithinLimit-zero _ _ zero_count, tt)

guarded-Quietly : (o : Op) (w : World) → IsGuarded o → Quietly w (perform o w)
unfolding perform
guarded-Quietly (Op.request_share dto user ip) w h = share_file-Quietly dto user ip w
guarded-Quietly (Op.request_revocation i user ip) w h = revoke_share-Quietly i user ip w
guarded-Quietly (Op.access f u a d) w h = validate_access-Quietly f u a d w
guarded-Quietly (Op.count_download i) w h = absurd h
guarded-Quietly (Op.check_valid i) w h = is_share_valid-Quietly i w
guarded-Quietly Op.sweep w h = expire_overdue_shares-Quietly w
guarded-Quietly (Op.wait t) w h = keep (omega arith)

module _ (f u : ℕ) (d : Option ℕ) (w : World) (inv : SharesInv w)
    (limits : All Within w.shares) where
  fetch_keeps :
      (r : Result FileAccess × World)
      → validate_access f u ShareAction.download d w ≡ r
      → SharesInv (fetch f u d w).1 × All Within (fetch f u d w).1.shares
  fetch_keeps (ok s, w') e =
      let g = (validate_access-Grants_iff f u ShareAction.download d w s).0 (ap (λ r. r.0) e) in
      let found = by_id_found f u d w inv s g in
      rw (fetch_lem f u d w inv s g) (
        Change-Inv (Change.download s.id s found) inv,
        update_found-All Within (by_id s.id) (λ _. after_download s) w.shares s found
            (λ _. WithinLimit-next s.max_downloads s.download_count (g.below_limit refl)) limits,
      )
  fetch_keeps (throw x, w') e =
      let quietly : Quietly w w' = rw e at (validate_access-Quietly f u ShareAction.download d w) in
      rw (fetch_refused f u d w x w' e)
        (Change-Inv (quiet quietly) inv, Within-Quiet quietly limits)

visit_keeps :
    (v : Visit) (w : World)
    → SharesInv w
    → All Within w.shares
    → SharesInv (visit v w) × All Within (visit v w).shares
unfolding visit
visit_keeps (Visit.download f u d) w inv limits = fetch_keeps f u d w inv limits _ refl
visit_keeps (Visit.request o guarded) w inv limits =
    let quietly = guarded-Quietly o w guarded in
    (Change-Inv (quiet quietly) inv, Within-Quiet quietly limits)

-- Whatever requests are served one after the other, no share has more downloads counted than it
-- allows.
pub visit_all-Within :
    (vs : List Visit) (w : World)
    → SharesInv w
    → All Within w.shares
    → All Within (visit_all vs w).shares
unfolding visit_all
visit_all-Within [] w inv limits = limits
visit_all-Within (v ∷ vs) w inv limits =
    let (inv', limits') = visit_keeps v w inv limits in visit_all-Within vs (visit v w) inv' limits'
