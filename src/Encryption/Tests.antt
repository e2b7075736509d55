-- ===== src/Encryption/Tests.antt =====
-- A small cipher that keeps the laws, and the theorems on keys at concrete states.
pub mod Toy
use securevault_backend.Prelude.{
  ◌<◌, true, Option, none, some, List, [], ◌∷◌, ◌≡◌, ◌≢◌, refl, arith, Bytes, length,
}
use securevault_backend.World.{World, empty_world, ok, throw, failure}
use securevault_backend.Encryption.{
  EncryptionResult, encrypt, decrypt, encrypt_key, initialize_master_key,
}
use securevault_backend.Encryption.Envelope.{drawn, decrypt_key-encrypt_key, decrypt-encrypt}
use securevault_backend.Encryption.KeyStore.{
  KeyCommand, Keys, answers, after, Represents, run_commands, run_commands-Refines,
}
use securevault_backend.Encryption.MasterKey.{initialize_master_key-restart}
use securevault_backend.Encryption.Tests.Toy.{
  toy, toy-Laws, open_vault, open_vault-Available, open_vault-healthy,
}

abbrev ready : World
ready = record empty_world { master_key = some (7 ∷ 9 ∷ []); next_id = 3 }

abbrev commands : List KeyCommand
commands =
    KeyCommand.store 1 (4 ∷ 5 ∷ [])
    ∷ KeyCommand.get 1
    ∷ KeyCommand.store 1 (6 ∷ [])
    ∷ KeyCommand.get 1
    ∷ KeyCommand.delete 1
    ∷ KeyCommand.get 1
    ∷ []

abbrev no_keys : Keys
no_keys id = none

commands-answers :
    answers commands no_keys ≡ none ∷ some (4 ∷ 5 ∷ []) ∷ none ∷ some (6 ∷ []) ∷ none ∷ none ∷ []
commands-answers = refl

run_commands-Refines_example :
    (w' : World) × (run_commands toy open_vault commands ready
      ≡ (ok (answers commands no_keys), w'))
    × Represents toy open_vault (7 ∷ 9 ∷ []) w' (after commands no_keys)
run_commands-Refines_example =
    run_commands-Refines toy open_vault (7 ∷ 9 ∷ []) toy-Laws open_vault-Available
      (refl, omega arith) commands ready no_keys (omega arith) (refl, λ id. refl)

initialize_master_key-restart_example :
    (w' : World) × (master : Bytes) × (initialize_master_key toy open_vault empty_world
      ≡ (ok tt, w'))
    × (w'.master_key ≡ some master)
    × ((v : World)
        → v.secrets ≡ w'.secrets
        → initialize_master_key toy open_vault v ≡ (ok tt, record v { master_key = some master }))
initialize_master_key-restart_example =
    initialize_master_key-restart toy open_vault open_vault-Available toy-Laws (omega arith)
      empty_world (open_vault-healthy empty_world)
