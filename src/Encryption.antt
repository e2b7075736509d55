-- ===== src/Encryption.antt =====
-- Envelope encryption: src/modules/encryption/encryption.service.ts. A file is encrypted by its own
-- data key (DEK), and the data key by the master key (KEK), which is part of the state.
pub mod Cipher
pub mod Envelope
pub mod DataKeys
pub mod KeyStore
pub mod MasterKey
pub mod Tests
use securevault_backend.Prelude.{
  ℕ, Bool, true, false, ◌&&◌, not, Option, none, some, List, [], ◌∷◌, ◌++◌, ◌+◌, length, take, drop,
  if◌then◌else◌, Bytes, Text, to_hex, from_hex, get_or,
}
use securevault_backend.Schema.{SecretPath, Secret}
use securevault_backend.World.{
  World, Action, Result, ok, throw, failure, pure, raise, or_raise, gets, modify, new_id, clock,
  attempt, ◌>>=◌, ◌>>◌,
}
use securevault_backend.Vault.{Vault, read_secret, write_secret, delete_secret, health_check}
use securevault_backend.Encryption.Cipher.{Crypto}

pub record EncryptionResult : Type 0 where
  pub encrypted_data : Bytes
  pub iv : Bytes
  pub auth_tag : Bytes

pub record GeneratedKey : Type 0 where
  pub key_id : ℕ
  pub key : Bytes
  pub encrypted_key : Bytes

-- `key || this.masterKey`
abbrev pub given_or : Option Bytes → Option Bytes → Option Bytes
given_or none master = master
given_or (some key) master = some key

-- A text that is there and not empty
abbrev pub present : Option Text → Option Text
present (some (c ∷ cs)) = some (c ∷ cs)
present _ = none

abbrev pub secret_key : Option Secret → Option Text
secret_key none = none
secret_key (some s) = present s.key

abbrev pub secret_encrypted_key : Option Secret → Option Text
secret_encrypted_key none = none
secret_encrypted_key (some s) = present s.encrypted_key

module _ (crypto : Crypto) where
  -- `crypto.randomBytes(length)`, a new draw each time
  abbrev pub random_bytes : ℕ → Action Bytes
  random_bytes len = new_id >>= λ n. pure (crypto.random n len)

  -- `createCipheriv` with a fresh vector, and what it makes of the plaintext.
  abbrev pub seal_with : Bytes → Bytes → Action EncryptionResult
  seal_with key plain = do
    iv ← random_bytes crypto.iv_length
    sealed ← or_raise (crypto.seal key iv plain) (failure "Invalid key length")
    pure (record { encrypted_data = sealed.0; iv = iv; auth_tag = sealed.1 })

  unfoldable pub encrypt : Bytes → Option Bytes → Action EncryptionResult
  encrypt plain key = do
    master ← gets (λ w. w.master_key)
    encryption_key ← or_raise (given_or key master) (failure "Encryption key not initialized")
    seal_with encryption_key plain

  abbrev pub unseal_with : Bytes → Bytes → Bytes → Bytes → Action Bytes
  unseal_with key iv tag sealed =
      or_raise (crypto.unseal key iv tag sealed)
        (failure "Unsupported state or unable to authenticate data")

  abbrev pub both_given : Option Bytes → Option Bytes → Option (Bytes × Bytes)
  both_given (some iv) (some tag) = some (iv, tag)
  both_given _ _ = none

  unfoldable pub decrypt : Bytes → Option Bytes → Option Bytes → Option Bytes → Action Bytes
  decrypt sealed key iv auth_tag = do
    master ← gets (λ w. w.master_key)
    decryption_key ← or_raise (given_or key master) (failure "Decryption key not initialized")
    parts ← or_raise (both_given iv auth_tag) (failure "IV and authTag are required for decryption")
    unseal_with decryption_key parts.0 parts.1 sealed

  -- Packed as the vector, the tag and the encrypted key.
  abbrev pub pack : EncryptionResult → Bytes
  pack r = r.iv ++ (r.auth_tag ++ r.encrypted_data)

  unfoldable pub encrypt_key : Bytes → Action Bytes
  encrypt_key key = do
    found ← gets (λ w. w.master_key)
    master ← or_raise found (failure "Master key not initialized")
    sealed ← seal_with master key
    pure (pack sealed)

  unfoldable pub decrypt_key : Bytes → Action Bytes
  decrypt_key packed = do
    found ← gets (λ w. w.master_key)
    master ← or_raise found (failure "Master key not initialized")
    unseal_with master (take crypto.iv_length packed)
        (take crypto.auth_tag_length (drop crypto.iv_length packed))
        (drop (crypto.iv_length + crypto.auth_tag_length) packed)

  module _ (vault : Vault) where
    abbrev pub sealed_secret : Bytes → Secret
    sealed_secret encrypted = record { key = none; encrypted_key = some (to_hex encrypted) }

    abbrev pub master_secret : Bytes → Secret
    master_secret key = record { key = some (to_hex key); encrypted_key = none }

    -- The rest of `generateKey`: the write to Vault, whose errors are caught, and the result.
    abbrev pub keep_key : ℕ → Bytes → Bytes → Action GeneratedKey
    keep_key id key encrypted = do
      attempt (write_secret vault (SecretPath.file_key id) (sealed_secret encrypted))
      pure (record { key_id = id; key = key; encrypted_key = encrypted })

    unfoldable pub generate_key : Action GeneratedKey
    generate_key = do
      now ← clock
      n ← new_id
      let id = crypto.key_id now n
      key ← random_bytes crypto.key_length
      encrypt_key key >>= keep_key id key

    abbrev pub set_master_key : Option Bytes → Action (Unit {0})
    set_master_key key = modify λ w. record w { master_key = key }

    abbrev pub reverted : Option Bytes → Result (Unit {0}) × World → Result (Unit {0}) × World
    reverted old (ok done, w) = (ok done, w)
    reverted old (throw e, w) = (throw e, record w { master_key = old })

    unfoldable pub rotate_key : Action (Unit {0})
    rotate_key = do
      new ← random_bytes crypto.key_length
      old ← gets (λ w. w.master_key)
      set_master_key (some new)
      λ w. reverted old (write_secret vault SecretPath.master_encryption_key (master_secret new) w)

    -- What follows the read of a secret in `getKey`
    abbrev pub open_secret : Option Secret → Action (Option Bytes)
    open_secret secret = elim (secret_encrypted_key secret) [
      | none ↦ pure none
      | some text ↦ decrypt_key (from_hex text) >>= λ key. pure (some key)
    ]

    -- `decryptKey` is returned without `await`, so what it throws is not caught.
    abbrev pub open_read : Result (Option Secret) × World → Result (Option Bytes) × World
    open_read (ok secret, w) = open_secret secret w
    open_read (throw e, w) = (ok none, w)

    unfoldable pub get_key : ℕ → Action (Option Bytes)
    get_key id w = open_read (read_secret vault (SecretPath.file_key id) w)

    unfoldable pub store_key : ℕ → Bytes → Action (Unit {0})
    store_key id key = do
      encrypted ← encrypt_key key
      write_secret vault (SecretPath.file_key id) (sealed_secret encrypted)

    unfoldable pub delete_key : ℕ → Action (Unit {0})
    delete_key id = delete_secret vault (SecretPath.file_key id)

    -- A new master key, written to Vault
    abbrev pub new_master_key : Action Bool
    new_master_key = do
      key ← random_bytes crypto.key_length
      set_master_key (some key)
      write_secret vault SecretPath.master_encryption_key (master_secret key)
      pure true

    abbrev pub load_text : Option Text → Action Bool
    load_text (some text) w = (ok true, record w { master_key = some (from_hex text) })
    load_text none w = if health_check vault w then new_master_key w else (ok false, w)

    -- The `try` block: whether the master key is set
    abbrev pub load_master_key : Action Bool
    load_master_key = read_secret vault SecretPath.master_encryption_key >>= λ secret.
        load_text (secret_key secret)

    -- What follows it, also where it threw
    abbrev pub fall_back : Result Bool × World → Result (Unit {0}) × World
    fall_back (ok true, w) = (ok tt, w)
    fall_back (ok false, w) = set_master_key (some crypto.derived_key) w
    fall_back (throw e, w) = set_master_key (some crypto.derived_key) w

    unfoldable pub initialize_master_key : Action (Unit {0})
    initialize_master_key w = fall_back (load_master_key w)
