-- ===== src/Encryption/MasterKey.antt =====
-- The master key over restarts and rotations: `initializeMasterKey` and `rotateKey`
-- (src/modules/encryption/encryption.service.ts).
use securevault_backend.Prelude.{
  ℕ, ◌+◌, ◌<◌, true, Option, none, some, [], ◌∷◌, ◌≡◌, refl, ap, ◌∙◌, sym, arith, length, Bytes,
  Text, to_hex, from_hex, from_hex-to_hex, lookup, insert, Option-cases, inl, inr,
}
use securevault_backend.Schema.{SecretPath, Secret, same_path}
use securevault_backend.World.{World, ok, pure}
use securevault_backend.World.Laws.{bind-ok}
use securevault_backend.Vault.{Vault, read_secret, write_secret, health_check}
use securevault_backend.Vault.Laws.{Available, read_secret-Available, write_secret-Available}
use securevault_backend.Encryption.Cipher.{Crypto, CryptoLaws}
use securevault_backend.Encryption.{
  secret_key, master_secret, initialize_master_key, load_text, new_master_key, fall_back,
}

module _ (crypto : Crypto) (vault : Vault) (up : Available vault) where
  -- The text of the master key that Vault keeps
  abbrev pub kept_key : World → Option Text
  kept_key w = secret_key (lookup same_path SecretPath.master_encryption_key w.secrets)

  initialize-kept :
      (text : Text) (w : World)
      → kept_key w ≡ some text
      → initialize_master_key crypto vault w
        ≡ (ok tt, record w { master_key = some (from_hex text) })
  unfolding initialize_master_key
  initialize-kept text w kept =
      let read = read_secret-Available vault SecretPath.master_encryption_key w up in
      let load = λ (secret : Option Secret). load_text crypto vault (secret_key secret) in
      ap (fall_back crypto vault) (
        bind-ok (read_secret vault SecretPath.master_encryption_key) load w w _ read
        ∙ ap (λ t. load_text crypto vault t w) kept)

  -- The master key is set, and Vault keeps its text.
  abbrev pub Kept : World → Type 0
  Kept w = (text : Text) × (kept_key w ≡ some text) × (w.master_key ≡ some (from_hex text))

  module _ (laws : CryptoLaws crypto) (positive : 0 < crypto.key_length) where
    kept_key-written :
        (key : Bytes) (w : World)
        → length key ≡ crypto.key_length
        → kept_key (record w {
          secrets =
              insert same_path SecretPath.master_encryption_key
                (master_secret crypto vault key)
                w.secrets;
        })
          ≡ some (to_hex key)
    kept_key-written [] w len = absurd (omega arith)
    kept_key-written (b ∷ bs) w len = refl

    load_text-new :
        (w : World)
        → health_check vault w ≡ true
        → load_text crypto vault none w ≡ new_master_key crypto vault w
    load_text-new w healthy = rw healthy refl

    -- A new key, in Vault and in the state
    new_key-Kept :
        (n : ℕ) (w : World)
        → let key = crypto.random n crypto.key_length in
          Kept (record w {
            master_key = some key;
            secrets =
                insert same_path SecretPath.master_encryption_key
                  (master_secret crypto vault key)
                  w.secrets;
          })
    new_key-Kept n w =
        let key = crypto.random n crypto.key_length in
        (
          to_hex key,
          kept_key-written key (record w { master_key = some key })
              (laws.random-length n crypto.key_length),
          ap some (sym (from_hex-to_hex key (laws.random-bytes n crypto.key_length))),
        )

    initialize-Kept :
        (w : World)
        → health_check vault w ≡ true
        → (w' : World) × (initialize_master_key crypto vault w ≡ (ok tt, w')) × Kept w'
    unfolding initialize_master_key
    initialize-Kept w healthy = elim (Option-cases (kept_key w)) [
      | inr (text, kept) ↦ (
        record w { master_key = some (from_hex text) },
        initialize-kept text w kept,
        (text, kept, refl),
      )
      | inl missing ↦
          let read = read_secret-Available vault SecretPath.master_encryption_key w up in
          let load = λ (secret : Option Secret). load_text crypto vault (secret_key secret) in
          let key = crypto.random w.next_id crypto.key_length in
          let v = record w { next_id = w.next_id + 1; master_key = some key } in
          let written =
            write_secret-Available vault SecretPath.master_encryption_key v up
              (master_secret crypto vault key) in
          (
            _,
            ap (fall_back crypto vault) (
                bind-ok (read_secret vault SecretPath.master_encryption_key) load w w _ read
                ∙ ap (λ t. load_text crypto vault t w) missing
                ∙ load_text-new w healthy
                ∙ bind-ok
                    (write_secret vault SecretPath.master_encryption_key
                      (master_secret crypto vault key))
                    (λ _. pure true) v _ tt written),
            new_key-Kept w.next_id (record w { next_id = w.next_id + 1 }),
          )
    ]

    -- Where Vault is available and healthy, initialization leaves a master key that Vault keeps,
    -- and every later initialization, whatever master key the service then holds, finds that key
    -- again as long as Vault's secrets stay: a restart keeps the master key.
    pub initialize_master_key-restart :
        (w : World)
        → health_check vault w ≡ true
        → (w' : World) × (master : Bytes) × (initialize_master_key crypto vault w ≡ (ok tt, w'))
          × (w'.master_key ≡ some master)
          × ((v : World)
              → v.secrets ≡ w'.secrets
              → initialize_master_key crypto vault v
                ≡ (ok tt, record v { master_key = some master }))
    initialize_master_key-restart w healthy =
        let (w', done, (text, kept, held)) = initialize-Kept w healthy in
        (
          w',
          from_hex text,
          done,
          held,
          λ v same. initialize-kept text v (
              ap (λ s. secret_key (lookup same_path SecretPath.master_encryption_key s)) same
              ∙ kept),
        )
