-- ===== src/Shares/Runs.antt =====
-- Runs of the operations on shares (src/modules/shares/services), in any order, as changes of the
-- collection.
use securevault_backend.Prelude.{
  ℕ, ◌+◌, ◌<◌, Option, none, some, List, [], ◌∷◌, ◌≡◌, refl, inl, inr, arith, ◌==◌, find_one,
  count_documents, Bool-cases, Option-cases, ltb,
}
use securevault_backend.Schema.{
  ShareAction, ShareStatus, same_status, FileAccess, AuthenticatedUser,
}
use securevault_backend.World.{World, Result, ok, throw}
use securevault_backend.Shares.Validation.{
  by_id, record_found, validate_access, record_download, is_share_valid, expire_overdue_shares,
}
use securevault_backend.Shares.Validation.Access.{Leaves, validate_access-Leaves}
use securevault_backend.Shares.Service.{
  ShareFileRequest, ShareFileResponse, share_file, revoke_share,
}
use securevault_backend.Shares.Service.Sharing
use securevault_backend.Shares.Change.{
  Quiet, Change, quiet, keep, close, close_overdue, add, download, Inv, active_id, Change-Inv,
  Change-closed, Change-le,
}

abbrev pub Quietly : World → World → Type 0
Quietly w w' = Quiet w.shares w.next_id w'.shares w'.next_id

abbrev pub Changes : World → World → Type 0
Changes w w' = Change w.shares w.next_id w'.shares w'.next_id

module _ (file_id user_id : ℕ) (action : ShareAction) (device : Option ℕ) (w : World) where
  Leaves-Quietly :
      (r : Result FileAccess × World) → Leaves file_id user_id action device w r → Quietly w r.1
  Leaves-Quietly (ok s, w') same = rw same (keep (omega arith))
  Leaves-Quietly (throw e, w') (inl (_, same, n, _)) = rw (same, n) (keep (omega arith))
  Leaves-Quietly (throw e, w') (inr (s, _, _, _, n, closed)) =
      rw (closed, n) (close s.id ShareStatus.expired (ground arith))

  pub validate_access-Quietly : Quietly w (validate_access file_id user_id action device w).1
  validate_access-Quietly =
      Leaves-Quietly _ (validate_access-Leaves file_id user_id action device w)

pub is_share_valid-Quietly : (i : ℕ) (w : World) → Quietly w (is_share_valid i w).1
unfolding is_share_valid
is_share_valid-Quietly i w = elim (Option-cases (find_one (by_id i) w.shares)) [
  | inl missing ↦ rw missing (keep (omega arith))
  | inr (s, found) ↦ rw found (elim (Bool-cases (same_status s.status ShareStatus.active)) [
    | inr closed ↦ rw closed (keep (omega arith))
    | inl open_share ↦ rw open_share (elim (Bool-cases (ltb s.expires_at w.now)) [
      | inl late ↦ rw late (close s.id ShareStatus.expired (ground arith))
      | inr in_time ↦ rw in_time (keep (omega arith))
    ])
  ])
]

pub expire_overdue_shares-Quietly : (w : World) → Quietly w (expire_overdue_shares w).1
unfolding expire_overdue_shares
expire_overdue_shares-Quietly w = close_overdue w.now

module _ (dto : ShareFileRequest) (user : AuthenticatedUser) (ip : ℕ) (w : World) where
  Sharing-Quietly :
      (r : Result ShareFileResponse × World) → Sharing.Leaves dto user ip w r → Quietly w r.1
  Sharing-Quietly (throw e, w') same = rw same (keep (omega arith))
  Sharing-Quietly (ok r, w') (file, target, expires_at, can, s, req, _, added, next) =
      rw (added, next)
        (add s req.id_new req.not_downloaded (rw (req.of_file, req.with_user) can.no_duplicate))

  pub share_file-Quietly : Quietly w (share_file dto user ip w).1
  share_file-Quietly = Sharing-Quietly _ (Sharing.share_file-Leaves dto user ip w)

pub revoke_share-Quietly :
    (i : ℕ) (user : AuthenticatedUser) (ip : ℕ) (w : World) → Quietly w (revoke_share i user ip w).1
unfolding revoke_share
revoke_share-Quietly i user ip w = elim (Option-cases (find_one (by_id i) w.shares)) [
  | inl missing ↦ rw missing (keep (omega arith))
  | inr (s, found) ↦ rw found (elim (Bool-cases (s.owner_id == user.user_id)) [
    | inr other ↦ rw other (keep (omega arith))
    | inl owner ↦ rw owner (elim (Bool-cases (same_status s.status ShareStatus.revoked)) [
      | inl again ↦ rw again (keep (omega arith))
      | inr first ↦ rw first (close i ShareStatus.revoked (ground arith))
    ])
  ])
]

pub record_download-Changes : (i : ℕ) (w : World) → Changes w (record_download i w).1
unfolding record_download
record_download-Changes i w = go (find_one (by_id i) w.shares) refl
  where
    go :
        (o : Option FileAccess) → find_one (by_id i) w.shares ≡ o → Changes w (record_found o i w).1
    go none e = quiet (keep (omega arith))
    go (some s) e = download i s e

-- A request to the services, or the passing of time.
pub data Op : Type 0 where
  request_share : ShareFileRequest → AuthenticatedUser → ℕ → Op
  request_revocation : ℕ → AuthenticatedUser → ℕ → Op
  access : ℕ → ℕ → ShareAction → Option ℕ → Op
  count_download : ℕ → Op
  check_valid : ℕ → Op
  sweep : Op
  wait : ℕ → Op

unfoldable pub perform : Op → World → World
perform (Op.request_share dto user ip) w = (share_file dto user ip w).1
perform (Op.request_revocation i user ip) w = (revoke_share i user ip w).1
perform (Op.access f u a d) w = (validate_access f u a d w).1
perform (Op.count_download i) w = (record_download i w).1
perform (Op.check_valid i) w = (is_share_valid i w).1
perform Op.sweep w = (expire_overdue_shares w).1
perform (Op.wait t) w = record w { now = w.now + t }

unfoldable pub run : List Op → World → World
run [] w = w
run (o ∷ os) w = run os (perform o w)

pub perform-Changes : (o : Op) (w : World) → Changes w (perform o w)
unfolding perform
perform-Changes (Op.request_share dto user ip) w = quiet (share_file-Quietly dto user ip w)
perform-Changes (Op.request_revocation i user ip) w = quiet (revoke_share-Quietly i user ip w)
perform-Changes (Op.access f u a d) w = quiet (validate_access-Quietly f u a d w)
perform-Changes (Op.count_download i) w = record_download-Changes i w
perform-Changes (Op.check_valid i) w = quiet (is_share_valid-Quietly i w)
perform-Changes Op.sweep w = quiet (expire_overdue_shares-Quietly w)
perform-Changes (Op.wait t) w = quiet (keep (omega arith))

abbrev pub SharesInv : World → Type 0
SharesInv w = Inv w.shares w.next_id

-- Whatever operations run, identifiers stay distinct and a file has at most one active share with
-- a user.
pub run-Inv : (os : List Op) (w : World) → SharesInv w → SharesInv (run os w)
unfolding run
run-Inv [] w h = h
run-Inv (o ∷ os) w h = run-Inv os (perform o w) (Change-Inv (perform-Changes o w) h)

-- A share that is not active, because it was revoked or has expired, is never active again,
-- whatever operations run.
pub run-closed :
    (os : List Op) (i : ℕ) (w : World)
    → i < w.next_id
    → count_documents (active_id i) w.shares ≡ 0
    → count_documents (active_id i) (run os w).shares ≡ 0
unfolding run
run-closed [] i w old closed = closed
run-closed (o ∷ os) i w old closed =
    let change = perform-Changes o w in
    run-closed os i (perform o w) (omega (arith, Change-le change))
      (Change-closed i change old closed)
