-- ===== src/Schema/ShareRecord.antt =====
-- The share record and its enumerations (src/modules/shares/enums, src/modules/shares/schemas).
use securevault_backend.Prelude.{ℕ, Bool, true, false, Option}

pub data SharePermission : Type 0 where
  view download edit full_access : SharePermission

pub data ShareAction : Type 0 where
  view download edit delete share : ShareAction

pub data ShareStatus : Type 0 where
  active expired revoked : ShareStatus

-- `===` on statuses
abbrev pub same_status : ShareStatus → ShareStatus → Bool
same_status ShareStatus.active ShareStatus.active = true
same_status ShareStatus.expired ShareStatus.expired = true
same_status ShareStatus.revoked ShareStatus.revoked = true
same_status _ _ = false

-- `created_at` is the timestamp that Mongoose adds.
pub record FileAccess : Type 0 where
  pub id : ℕ
  pub file_id : ℕ
  pub owner_id : ℕ
  pub shared_with_user_id : ℕ
  pub permission : SharePermission
  pub status : ShareStatus
  pub shared_at : ℕ
  pub expires_at : ℕ
  pub max_downloads : Option ℕ
  pub download_count : ℕ
  pub one_time_access : Bool
  pub watermark_enabled : Bool
  pub allowed_device_certificate_id : Option ℕ
  pub created_at : ℕ
