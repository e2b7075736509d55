-- ===== src/Files/Transfer.antt =====
-- Uploading and downloading files: `uploadFile` and `downloadFile` (src/modules/files/files.service.ts).
pub mod RoundTrip
mod Tests
use securevault_backend.Prelude.{
  ℕ, Bool, false, not, Option, none, some, List, [], ◌∷◌, ◌==◌, if◌then◌else◌, or_null, get_or,
  Bytes, Text, to_hex, from_hex, String, ◌++◌,
}
use securevault_backend.Schema.{
  File, AccessLevel, AuthenticatedUser, AuditAction, Value, AuditEvent, Outcome,
}
use securevault_backend.World.{
  World, Action, bad_request, pure, raise_if, modify, clock, new_id, log, ◌>>=◌, ◌>>◌,
}
use securevault_backend.Vault.{Vault}
use securevault_backend.Encryption.Cipher.{Crypto}
use securevault_backend.Encryption.{
  EncryptionResult, GeneratedKey, generate_key, encrypt, decrypt, decrypt_key,
}
use securevault_backend.Storage.{Disk, upload, download}
use securevault_backend.Storage.Paths.{joined}
use securevault_backend.Files.Names.{
  is_allowed_mime_type, get_extension, sanitize_filename, storage_segments,
}
use securevault_backend.Files.{find_file_with_access_check}

-- What multer gives for the uploaded file.
pub record UploadedFile : Type 0 where
  pub original_name : Text
  pub mime_type : Text
  pub buffer : Bytes
  pub size : ℕ

pub record UploadFileDto : Type 0 where
  pub description : Option ℕ
  pub access_level : Option AccessLevel
  pub department : Option ℕ

-- `uuid n` is the text of the `n`th UUID, `number` numbers the texts, and `local_date` is the year,
-- month and day of a time.
pub record Host : Type 0 where
  pub uuid : ℕ → Text
  pub number : Text → ℕ
  pub local_date : ℕ → ℕ × ℕ × ℕ

module _ (host : Host) (crypto : Crypto) (vault : Vault) (disk : Disk) where
  abbrev pub new_file :
      UploadedFile
      → UploadFileDto
      → AuthenticatedUser
      → GeneratedKey
      → EncryptionResult
      → Text
      → Text
      → ℕ
      → File
  new_file file dto user key sealed uuid storage_path id = record {
    id = id;
    uuid = host.number uuid;
    original_name = host.number (sanitize_filename file.original_name);
    storage_path = storage_path;
    mime_type = host.number file.mime_type;
    size = file.size;
    checksum = crypto.sha256 file.buffer;
    encryption_key_id = key.key_id;
    encrypted_dek = to_hex key.encrypted_key;
    encryption_iv = to_hex sealed.iv;
    encryption_auth_tag = to_hex sealed.auth_tag;
    uploaded_by = user.user_id;
    access_level = get_or dto.access_level AccessLevel.personal;
    department = or_null dto.department;
    description = or_null dto.description;
    is_deleted = false;
    deleted_at = none;
    deleted_by = none;
  }

  abbrev pub file_event :
      AuditAction → AuthenticatedUser → ℕ → File → List (String × Value) → AuditEvent
  file_event action user ip file metadata = record {
    action = action;
    resource = "file";
    resource_id = some file.uuid;
    user_id = some user.user_id;
    user_email = some user.email;
    user_role = some user.role;
    ip_address = some ip;
    user_agent = none;
    metadata = metadata;
    status = some Outcome.success;
  }

  -- The save of the metadata and the audit event.
  abbrev pub save_file : UploadedFile → AuthenticatedUser → ℕ → (ℕ → File) → Action File
  save_file file user ip make = do
    id ← new_id
    let saved = make id
    modify λ w. record w { files = w.files ++ saved ∷ [] }
    log (
        file_event AuditAction.file_upload user ip saved (
          ("fileName", Value.num (host.number file.original_name))
          ∷ ("mimeType", Value.num saved.mime_type)
          ∷ ("size", Value.num file.size)
          ∷ ("accessLevel", Value.level saved.access_level)
          ∷ []))
    pure saved

  -- From the encrypted data on: the storage path, the stored bytes and the metadata.
  unfoldable pub store_sealed :
      UploadedFile
      → UploadFileDto
      → AuthenticatedUser
      → ℕ
      → GeneratedKey
      → EncryptionResult
      → Action File
  store_sealed file dto user ip key sealed = do
    n ← new_id
    now ← clock
    let uuid = host.uuid n
    let ext = get_extension file.original_name
    let storage_path = joined (storage_segments (host.local_date now) uuid ext)
    upload disk crypto.sha256 storage_path sealed.encrypted_data >>= λ _.
        save_file file user ip (new_file file dto user key sealed uuid storage_path)

  unfoldable pub seal_and_store :
      UploadedFile → UploadFileDto → AuthenticatedUser → ℕ → GeneratedKey → Action File
  seal_and_store file dto user ip key =
      encrypt crypto file.buffer (some key.key) >>= store_sealed file dto user ip key

  unfoldable pub upload_file : UploadedFile → UploadFileDto → AuthenticatedUser → ℕ → Action File
  upload_file file dto user ip = do
    raise_if (not (is_allowed_mime_type file.mime_type)) (bad_request "File type is not allowed")
    key ← generate_key crypto vault
    seal_and_store file dto user ip key

  -- From the decrypted data on
  abbrev pub checked : File → AuthenticatedUser → ℕ → Bytes → Action (Bytes × File)
  checked file user ip plain = do
    raise_if (not (crypto.sha256 plain == file.checksum))
        (bad_request "File integrity check failed")
    log (
        file_event AuditAction.file_download user ip file
          (("fileName", Value.num file.original_name) ∷ []))
    pure (plain, file)

  abbrev pub open_file : File → AuthenticatedUser → ℕ → Bytes → Bytes → Action (Bytes × File)
  open_file file user ip sealed dek =
      decrypt crypto sealed (some dek) (some (from_hex file.encryption_iv))
        (some (from_hex file.encryption_auth_tag))
      >>= checked file user ip

  -- What is read of a file that the user may read
  abbrev pub fetch : AuthenticatedUser → ℕ → File → Action (Bytes × File)
  fetch user ip file = do
    sealed ← download disk file.storage_path
    dek ← decrypt_key crypto (from_hex file.encrypted_dek)
    open_file file user ip sealed dek

  unfoldable pub download_file : ℕ → AuthenticatedUser → ℕ → Action (Bytes × File)
  download_file file_id user ip = find_file_with_access_check file_id user false >>= fetch user ip

unfoldable pub get_file_metadata : ℕ → AuthenticatedUser → Action File
get_file_metadata file_id user = find_file_with_access_check file_id user false
