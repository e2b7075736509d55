-- ===== src/Shares/Tests.antt =====
-- Runs of the share services on a small world, and the theorems at it.
use securevault_backend.Prelude.{
  ℕ, ◌+◌, true, false, Option, none, some, List, [], ◌∷◌, ◌≡◌, refl, ◌↔◌, inr, arith, All, find_one,
  count_documents,
}
use securevault_backend.Schema.{
  SharePermission, ShareAction, ShareStatus, FileAccess, File, AccessLevel, User, Role,
  AuthenticatedUser,
}
use securevault_backend.World.{World, empty_world, forbidden, bad_request, gone, Result, ok, throw}
use securevault_backend.Shares.Permission.{has_permission_for_action}
use securevault_backend.Shares.Validation.{
  access_denied, by_id, validate_access, record_download, is_share_valid,
}
use securevault_backend.Shares.Validation.Access
use securevault_backend.Shares.Validation.Access.{
  Grants, validate_access-Grants_iff, validate_access-Leaves,
}
use securevault_backend.Shares.Service.{
  ShareFileRequest, ShareFileResponse, share_file, revoke_share, to_share_file_response,
}
use securevault_backend.Shares.Service.Sharing
use securevault_backend.Shares.Service.Sharing.{CanShare, share_file-Leaves, share_file-CanShare}
use securevault_backend.Shares.Change.{active_id}
use securevault_backend.Shares.Runs.{SharesInv, Op, run, run-Inv, run-closed}
use securevault_backend.Shares.Limits.{
  Within, fetch, fetch_closes, concurrent_downloads_exceed, Visit, visit_all, visit_all-Within,
}
use securevault_backend.Shares.Closing.{revoke_share_denies}

abbrev account : ℕ → Role → User
account id role = record {
  id = id;
  uuid = id + 100;
  email = id + 200;
  password_hash = 7;
  first_name = 1;
  last_name = 2;
  role = role;
  is_active = true;
  is_first_login = false;
  must_change_password = false;
  temporary_password = none;
  password_changed_at = none;
  failed_login_attempts = 0;
  lockout_until = none;
  last_login_at = none;
  last_login_ip = none;
  department = none;
  job_title = none;
  created_by = none;
  deleted_at = none;
  deleted_by = none;
}

abbrev report : File
report = record {
  id = 50;
  uuid = 150;
  original_name = 3;
  storage_path = [];
  mime_type = 5;
  size = 6;
  checksum = 7;
  encryption_key_id = 8;
  encrypted_dek = [];
  encryption_iv = [];
  encryption_auth_tag = [];
  uploaded_by = 1;
  access_level = AccessLevel.personal;
  department = none;
  description = none;
  is_deleted = false;
  deleted_at = none;
  deleted_by = none;
}

abbrev pub ann : AuthenticatedUser
ann = record { user_id = 1; uuid = 101; email = 201; role = Role.employee }

-- A download of the report for user 2, once, until time 90.
abbrev grant : FileAccess
grant = record {
  id = 60;
  file_id = 50;
  owner_id = 1;
  shared_with_user_id = 2;
  permission = SharePermission.edit;
  status = ShareStatus.active;
  shared_at = 5;
  expires_at = 90;
  max_downloads = some 3;
  download_count = 2;
  one_time_access = false;
  watermark_enabled = false;
  allowed_device_certificate_id = some 9;
  created_at = 5;
}

abbrev start : World
start = record empty_world {
  files = report ∷ [];
  users = account 1 Role.employee ∷ account 2 Role.viewer ∷ [];
  next_id = 61;
  now = 10;
}

abbrev pub shared_world : World
shared_world = record start { shares = grant ∷ [] }

abbrev request : ShareFileRequest
request = record {
  file_id = 150;
  shared_with_user_id = 2;
  spelled_as_id = true;
  permission = SharePermission.download;
  expires_at = some 40;
  max_downloads = some 1;
  one_time_access = none;
  watermark_enabled = none;
  allowed_device_certificate_id = none;
}

services : Unit {0}
unfolding validate_access record_download is_share_valid share_file revoke_share
    has_permission_for_action fetch
services = tt

validation_tests :
    ((validate_access 50 2 ShareAction.download (some 9) shared_world).0 ≡ ok grant)
    × ((validate_access 50 2 ShareAction.delete (some 9) shared_world).0 ≡ throw access_denied)
    × ((validate_access 50 2 ShareAction.view none shared_world).0
        ≡ throw (forbidden "Device not authorized for this share"))
    × ((validate_access 50 2 ShareAction.view none (record shared_world { now = 91 })).0
        ≡ throw (gone "Share has expired"))
    × ((validate_access 50 3 ShareAction.view none shared_world).0 ≡ throw access_denied)
unfolding services
validation_tests = (refl, refl, refl, refl, refl)

abbrev to_share_status : Result ShareFileResponse → Option ShareStatus
to_share_status (ok r) = some r.status
to_share_status (throw e) = none

sharing_tests :
    ((share_file (record request { shared_with_user_id = 1 }) ann 8 start).0
      ≡ throw (bad_request "Cannot share a file with yourself"))
    × ((share_file (record request { expires_at = some 10 }) ann 8 start).0
        ≡ throw (bad_request "Expiration date must be in the future"))
    × ((share_file (record request { file_id = 1 }) ann 8 start).0
        ≡ throw (bad_request "File not found"))
unfolding services
sharing_tests = (refl, refl, refl)

-- The identifier of the requesting user in another spelling passes the check, and the owner shares
-- the file with themselves.
shared_with_self :
    to_share_status
      (share_file (record request { shared_with_user_id = 1; spelled_as_id = false }) ann 8 start).0
    ≡ some ShareStatus.active
unfolding services
shared_with_self = refl

validate_access-Grants_iff_example :
    ((validate_access 50 2 ShareAction.download (some 9) shared_world).0 ≡ ok grant)
    ↔ Grants shared_world 50 2 ShareAction.download (some 9) grant
validate_access-Grants_iff_example =
    validate_access-Grants_iff 50 2 ShareAction.download (some 9) shared_world grant

validate_access-Leaves_example :
    Access.Leaves 50 2 ShareAction.view none shared_world
      (validate_access 50 2 ShareAction.view none shared_world)
validate_access-Leaves_example = validate_access-Leaves 50 2 ShareAction.view none shared_world

granted : Grants shared_world 50 2 ShareAction.download (some 9) grant
granted =
    (validate_access-Grants_iff 50 2 ShareAction.download (some 9) shared_world grant).0
      validation_tests.0

pub valid_world : SharesInv shared_world
valid_world = record {
  fresh = omega arith;
  distinct = λ i. ground arith;
  single = λ f u. ground arith;
}

valid_start : SharesInv start
valid_start = record { fresh = tt; distinct = λ i. omega arith; single = λ f u. omega arith }

share_file-Leaves_example : Sharing.Leaves request ann 8 start (share_file request ann 8 start)
share_file-Leaves_example = share_file-Leaves request ann 8 start

can_share : CanShare request ann 8 start report (account 2 Role.viewer) 40
can_share = record {
  file_found = refl;
  not_deleted = refl;
  owned = refl;
  target_found = refl;
  target_kept = refl;
  target_active = refl;
  not_self = λ spelled. omega arith;
  dated = refl;
  in_future = omega arith;
  no_duplicate = refl;
}

share_file-CanShare_example :
    (share_file request ann 8 start).0
    ≡ ok (to_share_file_response (Sharing.shared request ann 8 start report 40))
share_file-CanShare_example =
    share_file-CanShare request ann 8 start report (account 2 Role.viewer) 40 can_share

abbrev day : List Op
day =
    Op.request_share request ann 8
    ∷ Op.access 150 2 ShareAction.download none
    ∷ Op.count_download 61
    ∷ Op.wait 50
    ∷ Op.sweep
    ∷ []

run-Inv_example : SharesInv (run day start)
run-Inv_example = run-Inv day start valid_start

run-closed_example :
    count_documents
      (active_id 60)
      (run day
        (record start { shares = record grant { status = ShareStatus.revoked } ∷ [] })).shares
    ≡ 0
run-closed_example =
    run-closed day 60 (record start { shares = record grant { status = ShareStatus.revoked } ∷ [] })
      (omega arith) refl

abbrev visits : List Visit
visits =
    Visit.download 50 2 (some 9) ∷ Visit.request Op.sweep tt ∷ Visit.download 50 2 (some 9) ∷ []

visit_all-Within_example : All Within (visit_all visits shared_world).shares
visit_all-Within_example = visit_all-Within visits shared_world valid_world (omega arith)

fetch_closes_example :
    (validate_access 50 2 ShareAction.view (some 9) (fetch 50 2 (some 9) shared_world).1).0
    ≡ throw access_denied
fetch_closes_example =
    fetch_closes 50 2 (some 9) shared_world valid_world grant granted (inr refl) ShareAction.view
      (some 9)

concurrent_downloads_exceed_example :
    let (first, w1) = validate_access 50 2 ShareAction.download (some 9) shared_world in
    let (second, w2) = validate_access 50 2 ShareAction.download (some 9) w1 in
    let w4 = (record_download 60 (record_download 60 w2).1).1 in
    (first ≡ ok grant)
    × (second ≡ ok grant)
    × ((t : FileAccess) × (find_one (by_id 60) w4.shares ≡ some t) × (t.download_count ≡ 4))
concurrent_downloads_exceed_example =
    concurrent_downloads_exceed 50 2 (some 9) shared_world valid_world grant granted refl

revoke_share_denies_example :
    (validate_access 50 2 ShareAction.view (some 9) (revoke_share 60 ann 8 shared_world).1).0
    ≡ throw access_denied
revoke_share_denies_example =
    revoke_share_denies 60 ann 8 shared_world valid_world grant refl refl refl ShareAction.view
      (some 9)
