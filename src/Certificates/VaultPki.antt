-- ===== src/Certificates/VaultPki.antt =====
-- What the certificate services take from outside: the numbering of texts, X.509 parsing, SHA-256
-- over base64 and Vault's PKI engine; with the calls of `VaultPkiService`
-- (src/modules/vault/vault-pki.service.ts).
use securevault_backend.Prelude.{ℕ, Bool, Option, List, if◌then◌else◌, Text, get_or, or_null, codes}
use securevault_backend.World.{World, Action, ok, failure, raise_if, or_raise}

pub record CertInfo : Type 0 where
  pub serial_number : ℕ
  pub valid_from : ℕ
  pub valid_to : ℕ

-- `expiration` is in seconds.
pub record SignResult : Type 0 where
  pub certificate : ℕ
  pub issuing_ca : ℕ
  pub ca_chain : List ℕ
  pub serial_number : ℕ
  pub expiration : ℕ

-- `chars` is a numbered text's code units, and `number` the number of a text. `digest_base64` is the
-- hash of what a base64 text decodes to. `connected` is that the PKI engine is enabled and the
-- client made; `sign csr common_name ttl` is what the engine answers in a world, if it does, and
-- `mock` the certificate made for development without it.
pub record Pki : Type 0 where
  pub chars : ℕ → Text
  pub number : Text → ℕ
  pub parse : ℕ → Option CertInfo
  pub digest_base64 : Text → ℕ
  pub connected : Bool
  pub sign : ℕ → ℕ → ℕ → World → Option SignResult
  pub mock : ℕ → ℕ → World → SignResult
  pub refuses_revoke : ℕ → World → Bool

module _ (pki : Pki) where
  -- A lifetime that is absent or empty is a year.
  unfoldable pub sign_csr : ℕ → ℕ → Option ℕ → Action SignResult
  sign_csr csr common_name ttl w =
      if pki.connected
      then or_raise (pki.sign csr common_name (get_or (or_null ttl) (pki.number (codes "8760h"))) w)
          (failure "Vault PKI CSR signing failed") w
      else (ok (pki.mock common_name csr w), w)

  unfoldable pub pki_revoke : ℕ → Action (Unit {0})
  pki_revoke serial w =
      if pki.connected
      then raise_if (pki.refuses_revoke serial w) (failure "Vault PKI revocation failed") w
      else (ok tt, w)
