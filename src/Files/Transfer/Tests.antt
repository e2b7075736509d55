-- ===== src/Files/Transfer/Tests.antt =====
-- A concrete upload, and the theorem on what is downloaded of it.
use securevault_backend.Prelude.{
  ℕ, true, false, none, some, [], ◌∷◌, ◌≡◌, refl, arith, Text, All, codes, same_text, lookup,
  length,
}
use securevault_backend.Schema.{File, Role, AuthenticatedUser}
use securevault_backend.World.{World, empty_world, ok}
use securevault_backend.Encryption.Tests.Toy.{toy, toy-Laws, open_vault}
use securevault_backend.Storage.{Disk}
use securevault_backend.Storage.Paths.{IsName, full_path}
use securevault_backend.Files.{find_file}
use securevault_backend.Files.Names.{is_allowed_mime_type, sanitize_filename, get_extension}
use securevault_backend.Files.Paths.{IsUuid}
use securevault_backend.Files.Visibility.{MayRead}
use securevault_backend.Files.Transfer.{
  UploadedFile, UploadFileDto, Host, upload_file, download_file,
}
use securevault_backend.Files.Transfer.RoundTrip.{download_file-upload_file}

abbrev host : Host
host = record { uuid = λ n. 97 ∷ []; number = λ t. length t; local_date = λ now. (2026, 1, 12) }

abbrev disk : Disk
disk = record {
  base_path = codes "/d/up";
  refuses_write = λ p w. false;
  refuses_unlink = λ p w. false;
}

abbrev report : UploadedFile
report = record {
  original_name = codes "../Q1 plan.TXT";
  mime_type = codes "text/plain";
  buffer = 1 ∷ 255 ∷ [];
  size = 2;
}

report-name : sanitize_filename report.original_name ≡ codes "Q1_plan.TXT"
unfolding sanitize_filename
report-name = refl

report-extension : get_extension report.original_name ≡ codes ".txt"
unfolding get_extension
report-extension = refl

report-allowed : is_allowed_mime_type report.mime_type ≡ true
unfolding is_allowed_mime_type
report-allowed = refl

abbrev no_fields : UploadFileDto
no_fields = record { description = none; access_level = none; department = none }

abbrev owner : AuthenticatedUser
owner = record { user_id = 2; uuid = 12; email = 22; role = Role.employee }

abbrev ready : World
ready = record empty_world { master_key = some (7 ∷ 9 ∷ []) }

uuids-Uuid : (n : ℕ) → IsUuid (host.uuid n)
uuids-Uuid n = ((refl, refl), tt)

base-Names : All IsName (codes "d" ∷ codes "up" ∷ [])
base-Names = ((refl, refl, refl, (refl, tt)), ((refl, refl, refl, (refl, (refl, tt))), tt))

download_file-upload_file_example :
    (f : File) × (w' : World) × (upload_file host toy open_vault disk report no_fields owner 9 ready
      ≡ (ok f, w'))
    × ((v : World) (id ip' : ℕ) (reader : AuthenticatedUser)
        → find_file id v ≡ some f
        → MayRead f reader
        → v.master_key ≡ w'.master_key
        → ((path : Text)
            → full_path disk.base_path f.storage_path ≡ some path
            → lookup same_text path v.storage ≡ lookup same_text path w'.storage)
        → (download_file host toy open_vault disk id reader ip' v).0 ≡ ok (1 ∷ 255 ∷ [], f))
download_file-upload_file_example =
    download_file-upload_file host toy open_vault disk toy-Laws (codes "d") (codes "up" ∷ []) report
      no_fields owner 9 (7 ∷ 9 ∷ []) ready refl base-Names uuids-Uuid (λ p v. refl) report-allowed
      (omega arith) refl (refl, omega arith)
