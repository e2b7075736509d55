-- ===== src/Encryption/Envelope.antt =====
-- What the cipher's laws give for data keys wrapped by the master key, and for data encrypted with
-- a key.
use securevault_backend.Prelude.{
  ◌+◌, some, ◌++◌, ◌≡◌, refl, ap, ◌∙◌, sym, length, take, drop, Bytes, IsByte, All, All-append,
  length-append, arith, ◌<◌, take-append, drop-append, drop-drop,
}
use securevault_backend.World.{World, ok, failure, pure, ◌>>=◌}
use securevault_backend.World.Laws.{bind-ok, or_raise-some}
use securevault_backend.Encryption.Cipher.{Crypto, CryptoLaws}
use securevault_backend.Encryption.{
  EncryptionResult, seal_with, unseal_with, pack, encrypt, decrypt, encrypt_key, decrypt_key,
}

module _ (crypto : Crypto) where
  -- Under the master key, the packed bytes open to the key.
  abbrev pub Wraps : Bytes → Bytes → Bytes → Type 0
  Wraps master packed key =
      crypto.unseal master (take crypto.iv_length packed)
        (take crypto.auth_tag_length (drop crypto.iv_length packed))
        (drop (crypto.iv_length + crypto.auth_tag_length) packed)
      ≡ some key

  abbrev pub drawn : World → World
  drawn w = record w { next_id = w.next_id + 1 }

  -- A key of the configured length
  abbrev pub IsKey : Bytes → Type 0
  IsKey key = (length key ≡ crypto.key_length) × All IsByte key

  pub decrypt_key-Wraps :
      (master packed key : Bytes) (w : World)
      → w.master_key ≡ some master
      → Wraps master packed key
      → decrypt_key crypto packed w ≡ (ok key, w)
  unfolding decrypt_key
  decrypt_key-Wraps master packed key w held opens =
      or_raise-some w.master_key master (failure "Master key not initialized")
        (λ k.
          unseal_with crypto k (take crypto.iv_length packed)
            (take crypto.auth_tag_length (drop crypto.iv_length packed))
            (drop (crypto.iv_length + crypto.auth_tag_length) packed))
        w held
      ∙ rw opens refl

  seal_with-ok :
      (key plain sealed tag : Bytes) (w : World)
      → crypto.seal key (crypto.random w.next_id crypto.iv_length) plain ≡ some (sealed, tag)
      → seal_with crypto key plain w ≡ (
        ok (record {
          encrypted_data = sealed;
          iv = crypto.random w.next_id crypto.iv_length;
          auth_tag = tag;
        }),
        drawn w,
      )
  seal_with-ok key plain sealed tag w made = rw made refl

  module _ (laws : CryptoLaws crypto) where
    -- The parts of a packed key.
    pub unpacked :
        (iv tag sealed : Bytes)
        → length iv ≡ crypto.iv_length
        → length tag ≡ crypto.auth_tag_length
        → let packed = iv ++ (tag ++ sealed) in
          (take crypto.iv_length packed ≡ iv)
          × (take crypto.auth_tag_length (drop crypto.iv_length packed) ≡ tag)
          × (drop (crypto.iv_length + crypto.auth_tag_length) packed ≡ sealed)
    unpacked iv tag sealed iv_len tag_len =
        let packed = iv ++ (tag ++ sealed) in
        let rest : drop crypto.iv_length packed ≡ tag ++ sealed =
          rw (sym iv_len) (drop-append iv _) in
        (
          rw (sym iv_len) (take-append iv _),
          ap (take crypto.auth_tag_length) rest ∙ rw (sym tag_len) (take-append tag _),
          sym (drop-drop crypto.iv_length crypto.auth_tag_length packed)
              ∙ ap (drop crypto.auth_tag_length) rest
              ∙ rw (sym tag_len) (drop-append tag sealed),
        )

    packed-Wraps :
        (master iv tag sealed key : Bytes)
        → length iv ≡ crypto.iv_length
        → length tag ≡ crypto.auth_tag_length
        → crypto.seal master iv key ≡ some (sealed, tag)
        → Wraps master (iv ++ (tag ++ sealed)) key
    packed-Wraps master iv tag sealed key iv_len tag_len made =
        let (first, second, last) = unpacked iv tag sealed iv_len tag_len in
        rw (first, second, last) (laws.unseals master iv key sealed tag made)

    -- Wrapping draws one vector, and never fails under a master key of the configured length.
    pub encrypt_key-Wraps :
        (master key : Bytes) (w : World)
        → w.master_key ≡ some master
        → IsKey master
        → All IsByte key
        → (packed : Bytes) × (encrypt_key crypto key w ≡ (ok packed, drawn w))
          × Wraps master packed key
          × All IsByte packed
          × (0 < length packed)
    unfolding encrypt_key
    encrypt_key-Wraps master key w held (len, bytes) small =
        let iv = crypto.random w.next_id crypto.iv_length in
        let iv_len = laws.random-length w.next_id crypto.iv_length in
        let (sealed, tag, made) = laws.seals master iv key len iv_len in
        let (sealed_small, tag_small, tag_len) =
          laws.sealed-bytes master iv key sealed tag bytes small made in
        (
          iv ++ (tag ++ sealed),
          or_raise-some w.master_key master (failure "Master key not initialized")
                (λ k. seal_with crypto k key >>= λ r. pure (pack crypto r)) w held
              ∙ bind-ok (seal_with crypto master key) (λ r. pure (pack crypto r)) w (drawn w) _
                  (seal_with-ok master key sealed tag w made),
          packed-Wraps master iv tag sealed key iv_len tag_len made,
          All-append IsByte iv (tag ++ sealed) (laws.random-bytes w.next_id crypto.iv_length)
              (All-append IsByte tag sealed tag_small sealed_small),
          omega (arith, length-append iv (tag ++ sealed), iv_len, laws.iv-positive),
        )

    -- A key wrapped under the master key is taken back unchanged, as long as the master key stays.
    pub decrypt_key-encrypt_key :
        (master key : Bytes) (w : World)
        → w.master_key ≡ some master
        → IsKey master
        → All IsByte key
        → (packed : Bytes) × (encrypt_key crypto key w ≡ (ok packed, drawn w))
          × ((v : World) → v.master_key ≡ some master → decrypt_key crypto packed v ≡ (ok key, v))
    decrypt_key-encrypt_key master key w held good small =
        let (packed, made, opens, _, _) = encrypt_key-Wraps master key w held good small in
        (packed, made, λ v same. decrypt_key-Wraps master packed key v same opens)

    -- Data encrypted with a key of its own is decrypted by that key, whatever the master key is.
    pub decrypt-encrypt :
        (key plain : Bytes) (w : World)
        → IsKey key
        → All IsByte plain
        → (r : EncryptionResult) × (encrypt crypto plain (some key) w ≡ (ok r, drawn w))
          × ((v : World)
              → decrypt crypto r.encrypted_data (some key) (some r.iv) (some r.auth_tag) v
                ≡ (ok plain, v))
          × All IsByte r.iv
          × All IsByte r.auth_tag
    unfolding encrypt decrypt
    decrypt-encrypt key plain w (len, bytes) small =
        let iv = crypto.random w.next_id crypto.iv_length in
        let iv_len = laws.random-length w.next_id crypto.iv_length in
        let (sealed, tag, made) = laws.seals key iv plain len iv_len in
        let (_, tag_small, _) = laws.sealed-bytes key iv plain sealed tag bytes small made in
        (
          record { encrypted_data = sealed; iv = iv; auth_tag = tag },
          rw made refl,
          λ v. rw (laws.unseals key iv plain sealed tag made) refl,
          laws.random-bytes w.next_id crypto.iv_length,
          tag_small,
        )
