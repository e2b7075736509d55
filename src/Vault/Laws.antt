-- ===== src/Vault/Laws.antt =====
-- What the requests to Vault do where it is connected and refuses none of them, and what a refused
-- or skipped write leaves.
use securevault_backend.Prelude.{
  true, false, List, ◌≡◌, refl, lookup, insert, remove, Bool-cases, inl, inr,
}
use securevault_backend.Schema.{SecretPath, Secret, same_path}
use securevault_backend.World.{World, ok}
use securevault_backend.Vault.{Vault, read_secret, write_secret, delete_secret}

-- Vault is connected and refuses nothing.
pub record Available (vault : Vault) : Type 0 where
  pub connected : vault.connected ≡ true
  pub reads : (p : SecretPath) (w : World) → vault.refuses_read p w ≡ false
  pub writes : (p : SecretPath) (w : World) → vault.refuses_write p w ≡ false
  pub deletes : (p : SecretPath) (w : World) → vault.refuses_delete p w ≡ false

module _ (vault : Vault) (p : SecretPath) (w : World) where
  module _ (up : Available vault) where
    pub read_secret-Available : read_secret vault p w ≡ (ok (lookup same_path p w.secrets), w)
    unfolding read_secret
    read_secret-Available = rw (up.connected, up.reads p w) refl

    pub write_secret-Available :
        (s : Secret)
        → write_secret vault p s w ≡ (ok tt, record w { secrets = insert same_path p s w.secrets })
    unfolding write_secret
    write_secret-Available s = rw (up.connected, up.writes p w) refl

    pub delete_secret-Available :
        delete_secret vault p w ≡ (ok tt, record w { secrets = remove same_path p w.secrets })
    unfolding delete_secret
    delete_secret-Available = rw (up.connected, up.deletes p w) refl

  -- Whatever Vault does with a write, only the secrets can change.
  pub write_secret-secrets :
      (s : Secret)
      → (secrets : List (SecretPath × Secret)) × ((write_secret vault p s w).1
          ≡ record w { secrets = secrets })
  unfolding write_secret
  write_secret-secrets s = elim (Bool-cases vault.connected) [
    | inr off ↦ (w.secrets, rw off refl)
    | inl on ↦ elim (Bool-cases (vault.refuses_write p w)) [
      | inl refused ↦ (w.secrets, rw (on, refused) refl)
      | inr taken ↦ (insert same_path p s w.secrets, rw (on, taken) refl)
    ]
  ]
