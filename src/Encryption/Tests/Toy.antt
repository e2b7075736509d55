-- ===== src/Encryption/Tests/Toy.antt =====
-- A cipher of two-byte keys whose tag is the key, and a Vault that refuses nothing, for tests.
use securevault_backend.Prelude.{
  ℕ, zero, suc, ◌%◌, true, false, Option, none, some, [], ◌∷◌, ◌≡◌, refl, arith, Bytes, IsByte, All,
  length, same_text, same_text_iff, if◌then◌else◌,
}
use securevault_backend.World.{World}
use securevault_backend.Vault.{Vault, health_check}
use securevault_backend.Vault.Laws.{Available}
use securevault_backend.Encryption.Cipher.{Crypto, CryptoLaws}

abbrev pub copies : ℕ → ℕ → Bytes
copies n zero = []
copies n (suc len) = (n % 256) ∷ copies n len

abbrev pub toy_seal : Bytes → Bytes → Bytes → Option (Bytes × Bytes)
toy_seal (a ∷ b ∷ []) iv plain = some (plain, a ∷ b ∷ [])
toy_seal _ iv plain = none

abbrev pub toy_unseal : Bytes → Bytes → Bytes → Bytes → Option Bytes
toy_unseal key iv tag sealed = if same_text key tag then some sealed else none

abbrev pub toy : Crypto
toy = record {
  key_length = 2;
  iv_length = 1;
  auth_tag_length = 2;
  random = copies;
  key_id = λ now n. n;
  seal = toy_seal;
  unseal = toy_unseal;
  sha256 = λ bytes. length bytes;
  derived_key = 1 ∷ 2 ∷ [];
}

length-copies : (n len : ℕ) → length (copies n len) ≡ len
length-copies n zero = refl
length-copies n (suc len) = omega (arith, length-copies n len)

copies-bytes : (n len : ℕ) → All IsByte (copies n len)
copies-bytes n zero = tt
copies-bytes n (suc len) = (omega arith, copies-bytes n len)

toy-seals :
    (key iv plain : Bytes)
    → length key ≡ 2
    → (sealed : Bytes) × (tag : Bytes) × (toy_seal key iv plain ≡ some (sealed, tag))
toy-seals [] iv plain len = absurd (omega arith)
toy-seals (a ∷ []) iv plain len = absurd (omega arith)
toy-seals (a ∷ b ∷ []) iv plain len = (plain, a ∷ b ∷ [], refl)
toy-seals (a ∷ b ∷ c ∷ cs) iv plain len = absurd (omega arith)

toy-sealed :
    (key iv plain sealed tag : Bytes)
    → toy_seal key iv plain ≡ some (sealed, tag)
    → (sealed ≡ plain) × (tag ≡ key) × (length key ≡ 2)
toy-sealed [] iv plain sealed tag h = absurd cc
toy-sealed (a ∷ []) iv plain sealed tag h = absurd cc
toy-sealed (a ∷ b ∷ []) iv plain sealed tag h = (cc, cc, refl)
toy-sealed (a ∷ b ∷ c ∷ cs) iv plain sealed tag h = absurd cc

toy-unseals :
    (key iv plain sealed tag : Bytes)
    → toy_seal key iv plain ≡ some (sealed, tag)
    → toy_unseal key iv tag sealed ≡ some plain
toy-unseals key iv plain sealed tag h =
    let (same, tagged, _) = toy-sealed key iv plain sealed tag h in
    rw (same, tagged, (same_text_iff key key).1 refl) refl

toy-bytes :
    (key iv plain sealed tag : Bytes)
    → All IsByte key
    → All IsByte plain
    → toy_seal key iv plain ≡ some (sealed, tag)
    → All IsByte sealed × All IsByte tag × (length tag ≡ 2)
toy-bytes key iv plain sealed tag key_small small h =
    let (same, tagged, len) = toy-sealed key iv plain sealed tag h in
    rw (same, tagged) (small, key_small, len)

pub toy-Laws : CryptoLaws toy
toy-Laws = record {
  iv-positive = omega arith;
  random-length = length-copies;
  random-bytes = copies-bytes;
  seals = λ key iv plain len iv_len. toy-seals key iv plain len;
  unseals = toy-unseals;
  sealed-bytes = toy-bytes;
}

abbrev pub open_vault : Vault
open_vault = record {
  connected = true;
  refuses_read = λ p w. false;
  refuses_write = λ p w. false;
  refuses_delete = λ p w. false;
  sealed = λ w. false;
  unreachable = λ w. false;
}

pub open_vault-Available : Available open_vault
open_vault-Available = record {
  connected = refl;
  reads = λ p w. refl;
  writes = λ p w. refl;
  deletes = λ p w. refl;
}

pub open_vault-healthy : (w : World) → health_check open_vault w ≡ true
unfolding health_check
open_vault-healthy w = refl
