-- ===== src/Schema/Secrets.antt =====
-- The secrets that the services keep in Vault, and their paths.
use securevault_backend.Prelude.{ℕ, ◌+◌, ◌*◌, Option, Text, Bool, true, ◌==◌, ◌≡◌, refl, ap, arith}

-- `master-encryption-key`, `file-keys/<id>`, and every other path
pub data SecretPath : Type 0 where
  master_encryption_key : SecretPath
  file_key other : ℕ → SecretPath

abbrev path_number : SecretPath → ℕ
path_number SecretPath.master_encryption_key = 0
path_number (SecretPath.file_key id) = 2 * id + 1
path_number (SecretPath.other name) = 2 * name + 2

abbrev pub same_path : SecretPath → SecretPath → Bool
same_path p q = path_number p == path_number q

-- The fields of a secret that the services read; its algorithm and times are left out.
pub record Secret : Type 0 where
  pub key : Option Text
  pub encrypted_key : Option Text

pub same_path_sound : (p q : SecretPath) → same_path p q ≡ true → p ≡ q
same_path_sound SecretPath.master_encryption_key SecretPath.master_encryption_key h = refl
same_path_sound SecretPath.master_encryption_key (SecretPath.file_key j) h = absurd (ground arith)
same_path_sound SecretPath.master_encryption_key (SecretPath.other j) h = absurd (ground arith)
same_path_sound (SecretPath.file_key i) SecretPath.master_encryption_key h = absurd (ground arith)
same_path_sound (SecretPath.file_key i) (SecretPath.file_key j) h =
    ap SecretPath.file_key (ground arith)
same_path_sound (SecretPath.file_key i) (SecretPath.other j) h = absurd (ground arith)
same_path_sound (SecretPath.other i) SecretPath.master_encryption_key h = absurd (ground arith)
same_path_sound (SecretPath.other i) (SecretPath.file_key j) h = absurd (ground arith)
same_path_sound (SecretPath.other i) (SecretPath.other j) h = ap SecretPath.other (ground arith)

pub same_path_self : (p : SecretPath) → same_path p p ≡ true
same_path_self p = ground arith
