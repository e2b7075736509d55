-- ===== src/Encryption/KeyStore.antt =====
-- The data keys kept in Vault (`getKey`, `storeKey` and `deleteKey`) and the abstract store that
-- they implement: a function from identifiers to keys.
use securevault_backend.Prelude.{
  ℕ, ◌<◌, Option, none, some, List, [], ◌∷◌, ◌≡◌, refl, ap, ◌∙◌, arith, ◌==◌, if◌then◌else◌,
  Bool-cases, inl, inr, length, Bytes, Text, IsByte, All, to_hex, from_hex, from_hex-to_hex, lookup,
  remove, lookup-remove,
}
use securevault_backend.Schema.{SecretPath, Secret, same_path, same_path_sound, same_path_self}
use securevault_backend.World.{World, Action, ok, pure, ◌>>=◌, ◌>>◌}
use securevault_backend.World.Laws.{bind-ok}
use securevault_backend.Vault.{Vault, write_secret}
use securevault_backend.Vault.Laws.{
  Available, read_secret-Available, write_secret-Available, delete_secret-Available,
}
use securevault_backend.Encryption.Cipher.{Crypto, CryptoLaws}
use securevault_backend.Encryption.{
  secret_encrypted_key, sealed_secret, encrypt_key, decrypt_key, open_secret, open_read, get_key,
  store_key, delete_key,
}
use securevault_backend.Encryption.Envelope.{
  Wraps, IsKey, drawn, encrypt_key-Wraps, decrypt_key-Wraps,
}

-- What a client asks of the store.
pub data KeyCommand : Type 0 where
  get delete : ℕ → KeyCommand
  store : ℕ → Bytes → KeyCommand

-- The abstract store
abbrev pub Keys : Type 0
Keys = ℕ → Option Bytes

abbrev pub set_key : ℕ → Option Bytes → Keys → Keys
set_key id key keys j = if j == id then key else keys j

abbrev pub answer : KeyCommand → Keys → Option Bytes
answer (KeyCommand.get id) keys = keys id
answer (KeyCommand.delete id) keys = none
answer (KeyCommand.store id key) keys = none

abbrev pub next : KeyCommand → Keys → Keys
next (KeyCommand.get id) keys = keys
next (KeyCommand.delete id) keys = set_key id none keys
next (KeyCommand.store id key) keys = set_key id (some key) keys

abbrev pub answers : List KeyCommand → Keys → List (Option Bytes)
answers [] keys = []
answers (c ∷ cs) keys = answer c keys ∷ answers cs (next c keys)

abbrev pub after : List KeyCommand → Keys → Keys
after [] keys = keys
after (c ∷ cs) keys = after cs (next c keys)

-- A key to store is made of bytes.
abbrev pub WellFormed : KeyCommand → Type 0
WellFormed (KeyCommand.store id key) = All IsByte key
WellFormed _ = Unit

file_key-same : (j id : ℕ) → same_path (SecretPath.file_key j) (SecretPath.file_key id) ≡ (j == id)
file_key-same j id = ground arith

module _ (crypto : Crypto) (vault : Vault) where
  -- One command, with what it answers.
  unfoldable pub run_command : KeyCommand → Action (Option Bytes)
  run_command (KeyCommand.get id) = get_key crypto vault id
  run_command (KeyCommand.delete id) = delete_key crypto vault id >> pure none
  run_command (KeyCommand.store id key) = store_key crypto vault id key >> pure none

  unfoldable pub run_commands : List KeyCommand → Action (List (Option Bytes))
  run_commands [] = pure []
  run_commands (c ∷ cs) = do first ← run_command c; rest ← run_commands cs; pure (first ∷ rest)

  module _ (master : Bytes) where
    -- The secret that stands for a key, or for none.
    abbrev pub Entry : Option Secret → Option Bytes → Type 0
    Entry secret none = secret_encrypted_key secret ≡ none
    Entry secret (some key) =
        (text : Text) × (secret_encrypted_key secret ≡ some text)
        × Wraps crypto master (from_hex text) key

    abbrev pub Represents : World → Keys → Type 0
    Represents w keys =
        (w.master_key ≡ some master)
        × ((id : ℕ) → Entry (lookup same_path (SecretPath.file_key id) w.secrets) (keys id))

    module _ (laws : CryptoLaws crypto) (up : Available vault) (good : IsKey crypto master) where
      -- Where a command leads: it answers as the abstract store does, and the state stands for
      -- the abstract store's.
      abbrev Refines : KeyCommand → World → Keys → Type 0
      Refines c w keys =
          (w' : World) × (run_command c w ≡ (ok (answer c keys), w')) × Represents w' (next c keys)

      Entry-at :
          (id j : ℕ) (secret before : Option Secret) (key : Option Bytes) (keys : Keys)
          → Entry secret key
          → Entry before (keys j)
          → Entry (if j == id then secret else before) (set_key id key keys j)
      Entry-at id j secret before key keys here there = elim (Bool-cases (j == id)) [
        | inl same ↦ rw same here
        | inr other ↦ rw other there
      ]

      open_secret-Entry :
          (secret : Option Secret) (key : Option Bytes) (w : World)
          → w.master_key ≡ some master
          → Entry secret key
          → open_secret crypto vault secret w ≡ (ok key, w)
      open_secret-Entry secret none w held empty = rw (empty, open_secret) refl
      open_secret-Entry secret (some key) w held (text, found, opens) =
          rw (found, open_secret)
            (bind-ok (decrypt_key crypto (from_hex text)) (λ k. pure (some k)) w w key
              (decrypt_key-Wraps crypto master (from_hex text) key w held opens))

      get-Refines :
          (id : ℕ) (w : World) (keys : Keys)
          → Represents w keys
          → Refines (KeyCommand.get id) w keys
      unfolding run_command get_key
      get-Refines id w keys (held, entries) =
          let opened = open_secret-Entry _ (keys id) w held (entries id) in
          let read = read_secret-Available vault (SecretPath.file_key id) w up in
          (w, ap (open_read crypto vault) read ∙ opened, (held, entries))

      delete-Refines :
          (id : ℕ) (w : World) (keys : Keys)
          → Represents w keys
          → Refines (KeyCommand.delete id) w keys
      unfolding run_command delete_key
      delete-Refines id w keys (held, entries) =
          let gone = lookup-remove same_path same_path_sound same_path_self in
          (
            record w { secrets = remove same_path (SecretPath.file_key id) w.secrets },
            bind-ok (delete_key crypto vault id) (λ _. pure none) w _ tt
                (delete_secret-Available vault (SecretPath.file_key id) w up),
            (
              held,
              λ j.
                  rw
                    (
                      gone (SecretPath.file_key j) (SecretPath.file_key id) w.secrets,
                      file_key-same j id,
                    )
                    (Entry-at id j none _ none keys refl (entries j)),
            ),
          )

      sealed-Entry :
          (packed key : Bytes)
          → Wraps crypto master packed key
          → All IsByte packed
          → 0 < length packed
          → Entry (some (sealed_secret crypto vault packed)) (some key)
      sealed-Entry [] key opens small long = absurd (omega arith)
      sealed-Entry (b ∷ bs) key opens small long =
          (to_hex (b ∷ bs), refl, rw (from_hex-to_hex (b ∷ bs) small) opens)

      store-Refines :
          (id : ℕ) (key : Bytes) (w : World) (keys : Keys)
          → All IsByte key
          → Represents w keys
          → Refines (KeyCommand.store id key) w keys
      unfolding run_command store_key
      store-Refines id key w keys small (held, entries) =
          let (packed, made, opens, packed_small, long) =
            encrypt_key-Wraps crypto laws master key w held good small in
          let write = λ (p : Bytes).
            write_secret vault (SecretPath.file_key id) (sealed_secret crypto vault p) in
          (
            _,
            bind-ok (store_key crypto vault id key) (λ _. pure none) w _ tt
                (bind-ok (encrypt_key crypto key) write w (drawn crypto w) packed made
                  ∙ write_secret-Available vault (SecretPath.file_key id) (drawn crypto w) up
                      (sealed_secret crypto vault packed)),
            (
              held,
              λ j. rw (file_key-same j id) (
                  Entry-at id j _ _ (some key) keys
                    (sealed-Entry packed key opens packed_small long) (entries j)),
            ),
          )

      command-Refines :
          (c : KeyCommand) (w : World) (keys : Keys)
          → WellFormed c
          → Represents w keys
          → Refines c w keys
      command-Refines (KeyCommand.get id) w keys well = get-Refines id w keys
      command-Refines (KeyCommand.delete id) w keys well = delete-Refines id w keys
      command-Refines (KeyCommand.store id key) w keys well = store-Refines id key w keys well

      -- Where Vault is available and the master key has the configured length, the stored data
      -- keys are a map from identifiers to keys: any sequence of getKey, storeKey and deleteKey
      -- succeeds with the answers of the map, and leaves a state that stands for the map's.
      pub run_commands-Refines :
          (cs : List KeyCommand) (w : World) (keys : Keys)
          → All WellFormed cs
          → Represents w keys
          → (w' : World) × (run_commands cs w ≡ (ok (answers cs keys), w'))
            × Represents w' (after cs keys)
      unfolding run_commands
      run_commands-Refines [] w keys well stands = (w, refl, stands)
      run_commands-Refines (c ∷ cs) w keys well stands =
          let (v, ran, there) = command-Refines c w keys well.0 stands in
          let (u, rest, last) = run_commands-Refines cs v (next c keys) well.1 there in
          let and_rest = λ (first : Option Bytes). run_commands cs >>= λ r. pure (first ∷ r) in
          let join = λ (r : List (Option Bytes)). pure (answer c keys ∷ r) in
          (
            u,
            bind-ok (run_command c) and_rest w v (answer c keys) ran
                ∙ bind-ok (run_commands cs) join v u (answers cs (next c keys)) rest,
            last,
          )
