-- ===== src/Encryption/DataKeys.antt =====
-- New data keys: `generateKey` (src/modules/encryption/encryption.service.ts).
use securevault_backend.Prelude.{◌+◌, some, List, ◌≡◌, ap, ◌∙◌, All, Bytes, IsByte}
use securevault_backend.Schema.{SecretPath, Secret}
use securevault_backend.World.{World, ok}
use securevault_backend.World.Laws.{bind-ok}
use securevault_backend.Vault.{Vault}
use securevault_backend.Vault.Laws.{write_secret-secrets}
use securevault_backend.Encryption.Cipher.{Crypto, CryptoLaws}
use securevault_backend.Encryption.{
  GeneratedKey, generate_key, encrypt_key, sealed_secret, keep_key,
}
use securevault_backend.Encryption.Envelope.{Wraps, IsKey, drawn, encrypt_key-Wraps}

module _ (crypto : Crypto) (vault : Vault) (laws : CryptoLaws crypto) where
  -- Whatever Vault does, a generated key is wrapped by the master key.
  pub generate_key-Wraps :
      (master : Bytes) (w : World)
      → w.master_key ≡ some master
      → IsKey crypto master
      → (k : GeneratedKey) × (secrets : List (SecretPath × Secret)) × (generate_key crypto vault w
          ≡ (ok k, record w { next_id = w.next_id + 1 + 1 + 1; secrets = secrets }))
        × IsKey crypto k.key
        × Wraps crypto master k.encrypted_key k.key
        × All IsByte k.encrypted_key
  unfolding generate_key
  generate_key-Wraps master w held good =
      let id = crypto.key_id w.now w.next_id in
      let n = w.next_id + 1 in
      let key = crypto.random n crypto.key_length in
      let key_bytes = laws.random-bytes n crypto.key_length in
      let v = record w { next_id = w.next_id + 1 + 1 } in
      let (packed, made, opens, small, _) =
        encrypt_key-Wraps crypto laws master key v held good key_bytes in
      let (secrets, written) =
        write_secret-secrets vault (SecretPath.file_key id) (drawn crypto v)
          (sealed_secret crypto vault packed) in
      (
        record { key_id = id; key = key; encrypted_key = packed },
        secrets,
        bind-ok (encrypt_key crypto key) (keep_key crypto vault id key) v (drawn crypto v) packed
              made
            ∙ ap (λ u. (ok (record { key_id = id; key = key; encrypted_key = packed }), u)) written,
        (laws.random-length n crypto.key_length, key_bytes),
        opens,
        small,
      )
