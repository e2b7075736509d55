-- ===== src/Files/Transfer/RoundTrip.antt =====
-- What is downloaded of an uploaded file.
use mathlib.Core.Path.{subst}
use securevault_backend.Prelude.{
  ℕ, ◌+◌, true, false, not, some, List, ◌∷◌, ◌++◌, ◌≡◌, refl, ap, ◌∙◌, sym, ◌==◌, arith, All, Bytes,
  Text, IsByte, same_text, same_text_iff, lookup, insert, from_hex-to_hex, from_hex,
}
use securevault_backend.Schema.{File, AuthenticatedUser}
use securevault_backend.World.{World, ok, bad_request, log, ◌>>=◌}
use securevault_backend.World.Laws.{bind-ok, raise_if-passes}
use securevault_backend.Vault.{Vault}
use securevault_backend.Encryption.Cipher.{Crypto, CryptoLaws}
use securevault_backend.Encryption.{
  EncryptionResult, GeneratedKey, generate_key, encrypt, decrypt, decrypt_key,
}
use securevault_backend.Encryption.DataKeys.{generate_key-Wraps}
use securevault_backend.Encryption.Envelope.{
  Wraps, IsKey, drawn, decrypt_key-Wraps, decrypt-encrypt,
}
use securevault_backend.Storage.{Disk, upload, download}
use securevault_backend.Storage.Laws.{upload-ok, download-ok}
use securevault_backend.Storage.Paths.{IsName, from_root, full_path, joined}
use securevault_backend.Files.Names.{is_allowed_mime_type, get_extension, storage_segments}
use securevault_backend.Files.Paths.{IsUuid, full_path-storage_segments}
use securevault_backend.Files.{find_file, find_file_with_access_check}
use securevault_backend.Files.Visibility.{MayRead, find_file_with_access_check-MayRead_iff}
use securevault_backend.Files.Transfer.{
  UploadedFile, UploadFileDto, Host, new_file, save_file, store_sealed, seal_and_store, upload_file,
  checked, open_file, fetch, download_file,
}

lookup_here :
    (path : Text) (bytes : Bytes) (m : List (Text × Bytes))
    → lookup same_text path (insert same_text path bytes m) ≡ some bytes
lookup_here path bytes m = rw ((same_text_iff path path).1 refl) refl

module _ (host : Host) (crypto : Crypto) (vault : Vault) (disk : Disk) where
  -- Storing writes the encrypted data under a path that a download reads.
  store_sealed-ok :
      (file : UploadedFile) (dto : UploadFileDto) (user : AuthenticatedUser) (ip : ℕ)
      (key : GeneratedKey) (sealed : EncryptionResult) (w : World) (full : Text)
      → let path = joined (
          storage_segments
            (host.local_date w.now)
            (host.uuid w.next_id)
            (get_extension file.original_name)) in
        full_path disk.base_path path ≡ some full
        → ((p : Text) (v : World) → disk.refuses_write p v ≡ false)
        → (f : File) × (w' : World) × (store_sealed host crypto vault disk file dto user ip key
              sealed w
            ≡ (ok f, w'))
          × (f
              ≡ new_file host crypto vault disk file dto user key sealed
                  (host.uuid w.next_id)
                  path
                  (w.next_id + 1))
          × (w'.master_key ≡ w.master_key)
          × (w'.storage ≡ insert same_text full sealed.encrypted_data w.storage)
  unfolding store_sealed log
  store_sealed-ok file dto user ip key sealed w full placed writable =
      let uuid = host.uuid w.next_id in
      let path =
        joined (storage_segments (host.local_date w.now) uuid (get_extension file.original_name)) in
      let v = record w { next_id = w.next_id + 1 } in
      let save =
        save_file host crypto vault disk file user ip
          (new_file host crypto vault disk file dto user key sealed uuid path) in
      let stored =
        upload-ok disk path full sealed.encrypted_data v placed crypto.sha256 (writable full v) in
      (
        _,
        _,
        bind-ok (upload disk crypto.sha256 path sealed.encrypted_data) (λ _. save) v _ _ stored,
        refl,
        refl,
        refl,
      )

  -- The file that an upload saved, and what is needed to read it.
  record Readable (file : UploadedFile) (master : Bytes) (f : File) (w : World) : Type 0 where
    full : Text
    key : Bytes
    sealed : Bytes
    placed : full_path disk.base_path f.storage_path ≡ some full
    stored : lookup same_text full w.storage ≡ some sealed
    wraps : Wraps crypto master (from_hex f.encrypted_dek) key
    opens :
        (v : World)
        → decrypt crypto sealed
            (some key)
            (some (from_hex f.encryption_iv))
            (some (from_hex f.encryption_auth_tag))
            v
          ≡ (ok file.buffer, v)
    intact : f.checksum ≡ crypto.sha256 file.buffer

  checked-intact :
      (file : UploadedFile) (f : File) (user : AuthenticatedUser) (ip : ℕ) (v : World)
      → f.checksum ≡ crypto.sha256 file.buffer
      → (checked host crypto vault disk f user ip file.buffer v).0 ≡ ok (file.buffer, f)
  unfolding log
  checked-intact file f user ip v intact =
      let same : (crypto.sha256 file.buffer == f.checksum) ≡ true = ground arith in rw same refl

  download_file-Readable :
      (file : UploadedFile) (master : Bytes) (f : File) (w v : World) (id ip : ℕ)
      (reader : AuthenticatedUser)
      → Readable file master f w
      → find_file id v ≡ some f
      → MayRead f reader
      → v.master_key ≡ some master
      → ((path : Text)
          → full_path disk.base_path f.storage_path ≡ some path
          → lookup same_text path v.storage ≡ lookup same_text path w.storage)
      → (download_file host crypto vault disk id reader ip v).0 ≡ ok (file.buffer, f)
  unfolding download_file
  download_file-Readable file master f w v id ip reader known found may held same =
      let open_with =
        λ (dek : Bytes). open_file host crypto vault disk f reader ip known.sealed dek in
      let unwrap = λ (sealed : Bytes).
        decrypt_key crypto (from_hex f.encrypted_dek)
        >>= open_file host crypto vault disk f reader ip sealed in
      let reads =
        bind-ok (find_file_with_access_check id reader false)
          (fetch host crypto vault disk reader ip) v v f
          ((find_file_with_access_check-MayRead_iff id reader v f).1 (found, may))
        ∙ bind-ok (download disk f.storage_path) unwrap v v known.sealed (
            download-ok disk f.storage_path known.full known.sealed v known.placed
              (same known.full known.placed ∙ known.stored))
        ∙ bind-ok (decrypt_key crypto (from_hex f.encrypted_dek)) open_with v v known.key (
            decrypt_key-Wraps crypto master (from_hex f.encrypted_dek) known.key v held known.wraps)
        ∙ bind-ok
            (decrypt crypto known.sealed (some known.key) (some (from_hex f.encryption_iv))
              (some (from_hex f.encryption_auth_tag)))
            (checked host crypto vault disk f reader ip) v v file.buffer (known.opens v) in
      ap (λ p. p.0) reads ∙ checked-intact file f reader ip v known.intact

  module _ (laws : CryptoLaws crypto) (d : Text) (dir : List Text) where
    upload_file-Readable :
        (file : UploadedFile) (dto : UploadFileDto) (user : AuthenticatedUser) (ip : ℕ)
        (master : Bytes) (w : World)
        → disk.base_path ≡ from_root (d ∷ dir)
        → All IsName (d ∷ dir)
        → ((n : ℕ) → IsUuid (host.uuid n))
        → ((p : Text) (v : World) → disk.refuses_write p v ≡ false)
        → is_allowed_mime_type file.mime_type ≡ true
        → All IsByte file.buffer
        → w.master_key ≡ some master
        → IsKey crypto master
        → (f : File) × (w' : World) × (upload_file host crypto vault disk file dto user ip w
            ≡ (ok f, w'))
          × (w'.master_key ≡ some master)
          × Readable file master f w'
    unfolding upload_file seal_and_store
    upload_file-Readable file dto user ip master w based named uuids writable allowed small held
          good =
        let (k, secrets, generated, key_good, wraps, packed_small) =
          generate_key-Wraps crypto vault laws master w held good in
        let w1 = record w { next_id = w.next_id + 1 + 1 + 1; secrets = secrets } in
        let (r, sealed, opens, iv_small, tag_small) =
          decrypt-encrypt crypto laws k.key file.buffer w1 key_good small in
        let w2 = drawn crypto w1 in
        let path = joined (
          storage_segments (host.local_date w2.now) (host.uuid w2.next_id)
            (get_extension file.original_name)) in
        let full : Text = from_root (d ∷ dir) ++ (47 ∷ path) in
        let placed : full_path disk.base_path path ≡ some full =
          ap (λ b. full_path b path) based
          ∙ full_path-storage_segments d dir (host.local_date w2.now) (host.uuid w2.next_id)
              file.original_name named (uuids w2.next_id) in
        let (f, w', saved, made, kept, stored) =
          store_sealed-ok file dto user ip k r w2 full placed writable in
        (
          f,
          w',
          raise_if-passes (not (is_allowed_mime_type file.mime_type))
                (bad_request "File type is not allowed")
                (generate_key crypto vault
                  >>= seal_and_store host crypto vault disk file dto user ip)
                w (rw allowed refl)
              ∙ bind-ok (generate_key crypto vault)
                  (seal_and_store host crypto vault disk file dto user ip) w w1 k generated
              ∙ bind-ok (encrypt crypto file.buffer (some k.key))
                  (store_sealed host crypto vault disk file dto user ip k) w1 w2 r sealed
              ∙ saved,
          kept ∙ held,
          subst (λ g. Readable file master g w') (sym made)
              (record {
                full = full;
                key = k.key;
                sealed = r.encrypted_data;
                placed = placed;
                stored =
                    ap (lookup same_text full) stored
                    ∙ lookup_here full r.encrypted_data w2.storage;
                wraps = rw (from_hex-to_hex k.encrypted_key packed_small) wraps;
                opens =
                    rw (from_hex-to_hex r.iv iv_small, from_hex-to_hex r.auth_tag tag_small) opens;
                intact = refl;
              }),
        )

    -- Where the disk takes every write and the master key has the configured length, an upload of
    -- bytes with an allowed type succeeds, whether or not Vault is there and whatever the file is
    -- called. As long as the master key and the stored bytes stay, everybody who may read the
    -- saved file and finds it by an identifier downloads exactly the bytes that were uploaded.
    pub download_file-upload_file :
        (file : UploadedFile) (dto : UploadFileDto) (user : AuthenticatedUser) (ip : ℕ)
        (master : Bytes) (w : World)
        → disk.base_path ≡ from_root (d ∷ dir)
        → All IsName (d ∷ dir)
        → ((n : ℕ) → IsUuid (host.uuid n))
        → ((p : Text) (v : World) → disk.refuses_write p v ≡ false)
        → is_allowed_mime_type file.mime_type ≡ true
        → All IsByte file.buffer
        → w.master_key ≡ some master
        → IsKey crypto master
        → (f : File) × (w' : World) × (upload_file host crypto vault disk file dto user ip w
            ≡ (ok f, w'))
          × ((v : World) (id ip' : ℕ) (reader : AuthenticatedUser)
              → find_file id v ≡ some f
              → MayRead f reader
              → v.master_key ≡ w'.master_key
              → ((path : Text)
                  → full_path disk.base_path f.storage_path ≡ some path
                  → lookup same_text path v.storage ≡ lookup same_text path w'.storage)
              → (download_file host crypto vault disk id reader ip' v).0 ≡ ok (file.buffer, f))
    download_file-upload_file file dto user ip master w based named uuids writable allowed small
          held good =
        let (f, w', uploaded, kept, known) =
          upload_file-Readable file dto user ip master w based named uuids writable allowed small
            held good in
        (
          f,
          w',
          uploaded,
          λ v id ip' reader found may same there.
              download_file-Readable file master f w' v id ip' reader known found may (same ∙ kept)
                there,
        )
