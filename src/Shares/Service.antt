-- ===== src/Shares/Service.antt =====
-- `ShareService` (src/modules/shares/services/share.service.ts) but for the listings, which stand in
-- Listings/SharedFiles, with the request, the response and the mapper between them
-- (src/modules/shares/dto, src/modules/shares/mappers). The unique index of the share collection
-- stands in `create_share`.
pub mod Sharing
use securevault_backend.Prelude.{
  ℕ, ◌+◌, Bool, true, false, ◌&&◌, ◌||◌, not, Option, none, some, List, [], ◌∷◌, ◌++◌,
  if◌then◌else◌, leb, ◌==◌, get_or, is_some, find_one,
}
use securevault_backend.Schema.{
  SharePermission, ShareStatus, same_status, FileAccess, File, User, AuthenticatedUser, AuditAction,
  Value, nullable, Outcome,
}
use securevault_backend.World.{
  World, Exception, bad_request, forbidden, not_found, duplicate_key, Action, ok, throw, pure,
  raise, raise_if, gets, modify, clock, new_id, or_raise, log, ◌>>=◌, ◌>>◌,
}
use securevault_backend.Shares.Validation.{by_id, active_for, save_status, access_denied}

-- `expires_at` is what `new Date(dto.expiresAt)` reads, `none` for an invalid date.
-- `shared_with_user_id` is the ObjectId that the request's text is cast to, and `spelled_as_id`
-- whether the text is the ObjectId's own spelling, in lower case, as the user's identifier is; the
-- cast takes other spellings too.
pub record ShareFileRequest : Type 0 where
  pub file_id : ℕ
  pub shared_with_user_id : ℕ
  pub spelled_as_id : Bool
  pub permission : SharePermission
  pub expires_at : Option ℕ
  pub max_downloads : Option ℕ
  pub one_time_access : Option Bool
  pub watermark_enabled : Option Bool
  pub allowed_device_certificate_id : Option ℕ

pub record ShareFileResponse : Type 0 where
  pub share_id : ℕ
  pub file_id : ℕ
  pub owner_id : ℕ
  pub shared_with_user_id : ℕ
  pub permission : SharePermission
  pub status : ShareStatus
  pub shared_at : ℕ
  pub expires_at : ℕ
  pub max_downloads : Option ℕ
  pub one_time_access : Bool
  pub watermark_enabled : Bool
  pub created_at : ℕ

-- `ShareMapper.toShareFileResponse`
abbrev pub to_share_file_response : FileAccess → ShareFileResponse
to_share_file_response doc = record {
  share_id = doc.id;
  file_id = doc.file_id;
  owner_id = doc.owner_id;
  shared_with_user_id = doc.shared_with_user_id;
  permission = doc.permission;
  status = doc.status;
  shared_at = doc.shared_at;
  expires_at = doc.expires_at;
  max_downloads = doc.max_downloads;
  one_time_access = doc.one_time_access;
  watermark_enabled = doc.watermark_enabled;
  created_at = doc.created_at;
}

abbrev pub or_else {ℓ} : {A : Type ℓ} → Option A → Option A → Option A
or_else none o = o
or_else (some a) _ = some a

-- `resolveFile`: by UUID, then by `_id`
abbrev pub resolve_file : ℕ → List File → Option File
resolve_file id files =
    or_else (find_one (λ f. f.uuid == id) files) (find_one (λ f. f.id == id) files)

-- `fileAccessModel.create(doc)`. The unique index on file, user and status, restricted to active
-- shares, refuses a second active share of a file with a user.
unfoldable pub create_share : FileAccess → Action FileAccess
create_share doc w =
    if same_status doc.status ShareStatus.active
      && is_some (find_one (active_for doc.file_id doc.shared_with_user_id) w.shares)
    then (throw duplicate_key, w)
    else (ok doc, record w { shares = w.shares ++ doc ∷ [] })

-- Validations 1 and 2: the file, and that the requesting user owns it.
pub owned_file : ℕ → AuthenticatedUser → Action File
owned_file file_id user = do
  found ← gets (λ w. resolve_file file_id w.files)
  file ← or_raise found (bad_request "File not found")
  raise_if file.is_deleted (bad_request "Cannot share a deleted file")
  raise_if (not (file.uploaded_by == user.user_id))
      (forbidden "Only the file owner can share this file")
  pure file

-- Validations 3 and 4: the target user, and that the request's text is not the owner's identifier.
pub target_user : ℕ → Bool → AuthenticatedUser → Action User
target_user target_id spelled_as_id user = do
  found ← gets (λ w. find_one (λ u. u.id == target_id) w.users)
  target ← or_raise found (bad_request "Target user not found")
  raise_if (is_some target.deleted_at) (bad_request "Target user not found")
  raise_if (not target.is_active) (bad_request "Target user account is not active")
  raise_if (spelled_as_id && (target_id == user.user_id))
      (bad_request "Cannot share a file with yourself")
  pure target

-- Validation 5: the expiration lies in the future.
pub future_date : Option ℕ → Action ℕ
future_date date = do
  expires_at ← or_raise date (bad_request "Invalid expiration date format")
  now ← clock
  raise_if (leb expires_at now) (bad_request "Expiration date must be in the future")
  pure expires_at

-- Validation 6: no active share of the file with the user.
pub no_active_share : ℕ → ℕ → Action (Unit {0})
no_active_share file_id user_id = do
  existing ← gets (λ w. find_one (active_for file_id user_id) w.shares)
  raise_if (is_some existing) (
      bad_request
        "An active share already exists for this file and user. Revoke the existing share first.")

-- The document that `shareFile` creates.
abbrev pub new_share : ShareFileRequest → ℕ → AuthenticatedUser → ℕ → ℕ → ℕ → FileAccess
new_share dto file_id user expires_at id now = record {
  id = id;
  file_id = file_id;
  owner_id = user.user_id;
  shared_with_user_id = dto.shared_with_user_id;
  permission = dto.permission;
  status = ShareStatus.active;
  shared_at = now;
  expires_at = expires_at;
  max_downloads = dto.max_downloads;
  download_count = 0;
  one_time_access = get_or dto.one_time_access false;
  watermark_enabled = get_or dto.watermark_enabled false;
  allowed_device_certificate_id = dto.allowed_device_certificate_id;
  created_at = now;
}

log_share_created :
    ShareFileRequest → File → User → FileAccess → AuthenticatedUser → ℕ → Action (Unit {0})
unfolding log
log_share_created dto file target share user ip = log (record {
  action = AuditAction.file_share;
  resource = "file_access";
  resource_id = some share.id;
  user_id = some user.user_id;
  user_email = some user.email;
  user_role = some user.role;
  ip_address = some ip;
  user_agent = none;
  metadata =
      ("event", Value.str "share_created")
      ∷ ("fileId", Value.num file.uuid)
      ∷ ("fileName", Value.num file.original_name)
      ∷ ("sharedWithUserId", Value.num dto.shared_with_user_id)
      ∷ ("sharedWithEmail", Value.num target.email)
      ∷ ("permission", Value.permission dto.permission)
      ∷ ("expiresAt", Value.num share.expires_at)
      ∷ ("maxDownloads", nullable dto.max_downloads)
      ∷ ("oneTimeAccess", Value.flag (get_or dto.one_time_access false))
      ∷ [];
  status = some Outcome.success;
})

-- The creation of the share, once the request is validated.
pub create_validated :
    ShareFileRequest → File → User → ℕ → AuthenticatedUser → ℕ → Action ShareFileResponse
unfolding log_share_created
create_validated dto file target expires_at user ip = do
  now ← clock
  id ← new_id
  share ← create_share (new_share dto file.id user expires_at id now)
  log_share_created dto file target share user ip
  pure (to_share_file_response share)

-- `shareFile`
unfoldable pub share_file : ShareFileRequest → AuthenticatedUser → ℕ → Action ShareFileResponse
unfolding owned_file target_user future_date no_active_share create_share create_validated
share_file dto user ip = do
  file ← owned_file dto.file_id user
  target ← target_user dto.shared_with_user_id dto.spelled_as_id user
  expires_at ← future_date dto.expires_at
  no_active_share file.id dto.shared_with_user_id
  create_validated dto file target expires_at user ip

log_share_revoked : FileAccess → AuthenticatedUser → ℕ → Action (Unit {0})
unfolding log
log_share_revoked share user ip = log (record {
  action = AuditAction.file_share;
  resource = "file_access";
  resource_id = some share.id;
  user_id = some user.user_id;
  user_email = some user.email;
  user_role = some user.role;
  ip_address = some ip;
  user_agent = none;
  metadata =
      ("event", Value.str "share_revoked")
      ∷ ("fileId", Value.num share.file_id)
      ∷ ("sharedWithUserId", Value.num share.shared_with_user_id)
      ∷ ("previousStatus", Value.status ShareStatus.active)
      ∷ [];
  status = some Outcome.success;
})

-- `revokeShare`
unfoldable pub revoke_share : ℕ → AuthenticatedUser → ℕ → Action (Unit {0})
unfolding log_share_revoked
revoke_share share_id user ip = do
  found ← gets (λ w. find_one (by_id share_id) w.shares)
  share ← or_raise found (not_found "Share not found")
  raise_if (not (share.owner_id == user.user_id))
      (forbidden "Only the file owner can revoke a share")
  raise_if (same_status share.status ShareStatus.revoked) (bad_request "Share is already revoked")
  save_status share_id ShareStatus.revoked
  log_share_revoked share user ip

-- `getShareById`, up to the response's form. The references are populated: an owner or a recipient
-- whose account is gone matches nobody.
abbrev is_populated : List User → ℕ → ℕ → Bool
is_populated users reference user_id =
    is_some (find_one (λ u. u.id == reference) users) && reference == user_id

unfoldable pub get_share_by_id : ℕ → AuthenticatedUser → Action FileAccess
get_share_by_id share_id user = do
  found ← gets (λ w. find_one (by_id share_id) w.shares)
  share ← or_raise found (not_found "Share not found")
  users ← gets (λ w. w.users)
  raise_if
      (not (is_populated users share.owner_id user.user_id)
        && not (is_populated users share.shared_with_user_id user.user_id))
      access_denied
  pure share
