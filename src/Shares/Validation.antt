-- ===== src/Shares/Validation.antt =====
-- `FileAccessValidationService` (src/modules/shares/services/file-access-validation.service.ts):
-- the checks on an access to a shared file, the download counter and the expiry of
-- shares. A document's `save` writes the fields that were changed.
pub mod Access
use Prim.Native.String
use securevault_backend.Prelude.{
  ℕ, ◌+◌, Bool, true, false, ◌&&◌, ◌||◌, not, Option, none, some, String, List, [], ◌∷◌,
  if◌then◌else◌, ltb, leb, ◌==◌, truthy, is_text, find_one, update_one, update_many,
  count_documents,
}
use securevault_backend.Schema.{
  SharePermission, ShareAction, ShareStatus, same_status, FileAccess, AuditAction, AuditEvent,
  Value, Outcome,
}
use securevault_backend.World.{
  World, Exception, forbidden, gone, Action, ok, throw, pure, raise, raise_if, gets, modify, clock,
  log, ◌>>=◌, ◌>>◌,
}
use securevault_backend.Shares.Permission.{has_permission_for_action}

-- `new AccessDeniedException()` and `new ShareExpiredException()`
abbrev pub access_denied : Exception
access_denied = forbidden "ACCESS_DENIED"

abbrev pub share_expired : Exception
share_expired = gone "Share has expired"

-- `{ _id: id }`
abbrev pub by_id : ℕ → FileAccess → Bool
by_id id s = s.id == id

-- `{ fileId, sharedWithUserId, status: ACTIVE }`
abbrev pub active_for : ℕ → ℕ → FileAccess → Bool
active_for file_id user_id s =
    s.file_id == file_id
    && (s.shared_with_user_id == user_id && same_status s.status ShareStatus.active)

abbrev pub set_status : ShareStatus → FileAccess → FileAccess
set_status status s = record s { status = status }

-- `share.status = status; share.save()`
abbrev pub save_status : ℕ → ShareStatus → Action (Unit {0})
save_status id status =
    modify λ w. record w { shares = update_one (by_id id) (set_status status) w.shares }

abbrev permission_name : SharePermission → String
permission_name SharePermission.view = "VIEW"
permission_name SharePermission.download = "DOWNLOAD"
permission_name SharePermission.edit = "EDIT"
permission_name SharePermission.full_access = "FULL_ACCESS"

log_access_denied : ℕ → ℕ → ShareAction → String → Action (Unit {0})
unfolding log
log_access_denied file_id user_id action reason = log (record {
  action = AuditAction.file_share;
  resource = "file_access";
  resource_id = none;
  user_id = some user_id;
  user_email = none;
  user_role = none;
  ip_address = none;
  user_agent = none;
  metadata =
      ("event", Value.str "access_denied")
      ∷ ("fileId", Value.num file_id)
      ∷ ("requestedAction", Value.action action)
      ∷ ("reason", Value.str reason)
      ∷ [];
  status = some Outcome.failure;
})

-- `logAccessDenied(…); throw e`
deny : {A : Type 0} → ℕ → ℕ → ShareAction → String → Exception → Action A
unfolding log_access_denied
deny file_id user_id action reason e = do log_access_denied file_id user_id action reason; raise e

-- The lazy expiration: the share is saved as expired and the event is logged.
expire_lazily : FileAccess → ℕ → ℕ → Action FileAccess
unfolding log
expire_lazily share file_id user_id = do
  save_status share.id ShareStatus.expired
  log (record {
    action = AuditAction.file_share;
    resource = "file_access";
    resource_id = some share.id;
    user_id = some user_id;
    user_email = none;
    user_role = none;
    ip_address = none;
    user_agent = none;
    metadata =
        ("event", Value.str "share_expired")
        ∷ ("fileId", Value.num file_id)
        ∷ ("expiredAt", Value.num share.expires_at)
        ∷ [];
    status = some Outcome.success;
  })
  raise share_expired

abbrev pub is_download : ShareAction → Bool
is_download ShareAction.download = true
is_download _ = false

-- `maxDownloads !== null && downloadCount >= maxDownloads`
abbrev pub reaches : Option ℕ → ℕ → Bool
reaches none count = false
reaches (some m) count = leb m count

-- `if (allowed) { if (!given || given !== allowed) … }`
abbrev pub wrong_device : Option ℕ → Option ℕ → Bool
wrong_device none given = false
wrong_device (some allowed) given =
    not (allowed == 0) && (not (truthy given) || not (is_text given allowed))

-- The checks on the share that was found, in their order.
check_share : FileAccess → ℕ → ℕ → ShareAction → Option ℕ → ℕ → Action FileAccess
unfolding deny expire_lazily
check_share share file_id user_id action device now =
    if ltb share.expires_at now
    then expire_lazily share file_id user_id
    else if not (has_permission_for_action share.permission action)
    then deny file_id user_id action
        (String.◌++◌ "Insufficient permission: has " (permission_name share.permission))
        access_denied
    else if is_download action && reaches share.max_downloads share.download_count
    then deny file_id user_id action "Download limit reached" (forbidden "Download limit reached")
    else if wrong_device share.allowed_device_certificate_id device
    then deny file_id user_id action "Device certificate mismatch"
        (forbidden "Device not authorized for this share")
    else pure share

check_found : Option FileAccess → ℕ → ℕ → ShareAction → Option ℕ → ℕ → Action FileAccess
unfolding deny check_share
check_found none file_id user_id action device now =
    deny file_id user_id action "No active share record" access_denied
check_found (some share) file_id user_id action device now =
    check_share share file_id user_id action device now

-- `validateAccess`
unfoldable pub validate_access : ℕ → ℕ → ShareAction → Option ℕ → Action FileAccess
unfolding check_found
validate_access file_id user_id action device = do
  found ← gets (λ w. find_one (active_for file_id user_id) w.shares)
  now ← clock
  check_found found file_id user_id action device now

-- The counter and the status that `recordDownload` saves.
abbrev pub after_download : FileAccess → FileAccess
after_download share =
    let count = share.download_count + 1 in
    let once = if share.one_time_access then ShareStatus.revoked else share.status in
    let status = if reaches share.max_downloads count then ShareStatus.expired else once in
    record share { download_count = count; status = status }

abbrev pub record_found : Option FileAccess → ℕ → Action (Unit {0})
record_found none share_id = pure tt
record_found (some share) share_id =
    modify
      λ w. record w { shares = update_one (by_id share_id) (λ _. after_download share) w.shares }

-- `recordDownload`
unfoldable pub record_download : ℕ → Action (Unit {0})
record_download share_id = do
  found ← gets (λ w. find_one (by_id share_id) w.shares)
  record_found found share_id

valid_found : Option FileAccess → ℕ → Action Bool
valid_found none now = pure false
valid_found (some share) now =
    if not (same_status share.status ShareStatus.active)
    then pure false
    else if ltb share.expires_at now
    then (do save_status share.id ShareStatus.expired; pure false)
    else pure true

-- `isShareValid`
unfoldable pub is_share_valid : ℕ → Action Bool
unfolding valid_found
is_share_valid share_id = do
  found ← gets (λ w. find_one (by_id share_id) w.shares)
  valid_found found (← clock)

-- `{ status: ACTIVE, expiresAt: { $lt: now } }`
abbrev pub overdue : ℕ → FileAccess → Bool
overdue now s = same_status s.status ShareStatus.active && ltb s.expires_at now

-- `expireOverdueShares`; what it returns is the number of shares that it modified.
unfoldable pub expire_overdue_shares : Action ℕ
expire_overdue_shares = do
  now ← clock
  count ← gets (λ w. count_documents (overdue now) w.shares)
  modify
      λ w. record w { shares = update_many (overdue now) (set_status ShareStatus.expired) w.shares }
  pure count
