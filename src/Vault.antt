-- ===== src/Vault.antt =====
-- The secrets in HashiCorp Vault: src/modules/vault/vault.service.ts. What the server answers, and
-- when it refuses, are parameters; its key-value engine keeps the last value written to a path.
pub mod Connection
pub mod Laws
mod Tests
use securevault_backend.Prelude.{
  Bool, true, false, Option, lookup, insert, remove, if◌then◌else◌, not, none,
}
use securevault_backend.Schema.{SecretPath, Secret, same_path}
use securevault_backend.World.{World, Action, ok, throw, failure, raise_if, gets, modify, ◌>>◌}

-- `connected` is that Vault is enabled and the client made; the rest is what the server does with a
-- request in the world given.
pub record Vault : Type 0 where
  pub connected : Bool
  pub refuses_read : SecretPath → World → Bool
  pub refuses_write : SecretPath → World → Bool
  pub refuses_delete : SecretPath → World → Bool
  pub sealed : World → Bool
  pub unreachable : World → Bool

module _ (vault : Vault) where
  unfoldable pub read_secret : SecretPath → Action (Option Secret)
  read_secret path w =
      if vault.connected
      then (raise_if (vault.refuses_read path w) (failure "Vault")
            >> gets (λ v. lookup same_path path v.secrets))
          w
      else (ok none, w)

  unfoldable pub write_secret : SecretPath → Secret → Action (Unit {0})
  write_secret path secret w =
      if vault.connected
      then (raise_if (vault.refuses_write path w) (failure "Vault")
            >> modify (λ v. record v { secrets = insert same_path path secret v.secrets }))
          w
      else (ok tt, w)

  unfoldable pub delete_secret : SecretPath → Action (Unit {0})
  delete_secret path w =
      if vault.connected
      then (raise_if (vault.refuses_delete path w) (failure "Vault")
            >> modify (λ v. record v { secrets = remove same_path path v.secrets }))
          w
      else (ok tt, w)

  -- An unreachable server is not healthy.
  unfoldable pub health_check : World → Bool
  health_check w =
      if vault.connected then if vault.unreachable w then false else not (vault.sealed w) else false
