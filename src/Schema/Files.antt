-- ===== src/Schema/Files.antt =====
-- File metadata (src/modules/files/schemas). The storage path and the encryption metadata are texts by their code points; other texts are
-- numbered.
use securevault_backend.Prelude.{ℕ, Bool, Option, Text}

pub data AccessLevel : Type 0 where
  personal internal department everyone : AccessLevel

-- `personal` is the source's 'private', `everyone` its 'public'.
pub record File : Type 0 where
  pub id : ℕ
  pub uuid : ℕ
  pub original_name : ℕ
  pub storage_path : Text
  pub mime_type : ℕ
  pub size : ℕ
  pub checksum : ℕ
  pub encryption_key_id : ℕ
  pub encrypted_dek : Text
  pub encryption_iv : Text
  pub encryption_auth_tag : Text
  pub uploaded_by : ℕ
  pub access_level : AccessLevel
  pub department : Option ℕ
  pub description : Option ℕ
  pub is_deleted : Bool
  pub deleted_at : Option ℕ
  pub deleted_by : Option ℕ
