-- ===== src/Encryption/Cipher.antt =====
-- What the encryption service takes from Node's `crypto`: AES-256-GCM, random bytes and SHA-256.
use securevault_backend.Prelude.{ℕ, Option, some, ◌<◌, ◌≡◌, length, All, Bytes, IsByte}

-- `random n length` is the `n`th draw of random bytes. `seal key iv plaintext` is the ciphertext with
-- its authentication tag, or none where the cipher cannot be made with that key; `unseal` checks the
-- tag and decrypts, or throws. `key_id now n` is the text that `generateKeyId` makes at a time of the
-- `n`th draw, and `derived_key` the SHA-256 digest of the secret for access tokens.
pub record Crypto : Type 0 where
  pub key_length : ℕ
  pub iv_length : ℕ
  pub auth_tag_length : ℕ
  pub random : ℕ → ℕ → Bytes
  pub key_id : ℕ → ℕ → ℕ
  pub seal : Bytes → Bytes → Bytes → Option (Bytes × Bytes)
  pub unseal : Bytes → Bytes → Bytes → Bytes → Option Bytes
  pub sha256 : Bytes → ℕ
  pub derived_key : Bytes

-- What the services rely on: random bytes of the length asked for; a cipher that takes every key of
-- the configured length, gives bytes and a tag of the configured length, and takes back with the
-- same key, vector and tag what it encrypted. GCM takes no empty vector.
pub record CryptoLaws (crypto : Crypto) : Type 0 where
  pub iv-positive : 0 < crypto.iv_length
  pub random-length : (n len : ℕ) → length (crypto.random n len) ≡ len
  pub random-bytes : (n len : ℕ) → All IsByte (crypto.random n len)
  pub seals :
      (key iv plain : Bytes)
      → length key ≡ crypto.key_length
      → length iv ≡ crypto.iv_length
      → (sealed : Bytes) × (tag : Bytes) × (crypto.seal key iv plain ≡ some (sealed, tag))
  pub unseals :
      (key iv plain sealed tag : Bytes)
      → crypto.seal key iv plain ≡ some (sealed, tag)
      → crypto.unseal key iv tag sealed ≡ some plain
  pub sealed-bytes :
      (key iv plain sealed tag : Bytes)
      → All IsByte key
      → All IsByte plain
      → crypto.seal key iv plain ≡ some (sealed, tag)
      → All IsByte sealed × All IsByte tag × (length tag ≡ crypto.auth_tag_length)
