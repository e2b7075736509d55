-- ===== src/Certificates/Pem.antt =====
-- The text functions on PEM files and serial numbers (src/shared/utils/certificate.util.ts). Line
-- ends are the code 10, colons 58.
use securevault_backend.Prelude.{
  Bool, true, false, ◌&&◌, ◌||◌, not, List, [], ◌∷◌, map, ◌==◌, if◌then◌else◌, Text, codes,
  starts_with, text_includes, keep_if, lower, trim, split_on, keep_lines, join_with,
}

abbrev is_empty : Text → Bool
is_empty [] = true
is_empty _ = false

abbrev includes_both : Text → Text → Text → Bool
includes_both first last text = text_includes first text && text_includes last text

unfoldable pub is_valid_certificate_pem : Text → Bool
is_valid_certificate_pem pem =
    not (is_empty pem)
    && includes_both (codes "-----BEGIN CERTIFICATE-----") (codes "-----END CERTIFICATE-----")
        (trim pem)

unfoldable pub is_valid_csr_pem : Text → Bool
is_valid_csr_pem pem =
    not (is_empty pem)
    && (includes_both (codes "-----BEGIN CERTIFICATE REQUEST-----")
          (codes "-----END CERTIFICATE REQUEST-----") (trim pem)
        || includes_both (codes "-----BEGIN NEW CERTIFICATE REQUEST-----")
            (codes "-----END NEW CERTIFICATE REQUEST-----") (trim pem))

abbrev is_body : Text → Bool
is_body line =
    not (starts_with (codes "-----") line)
    && (not (starts_with (codes "#") line) && not (is_empty (trim line)))

-- The base64 text that `pemToDer` decodes
unfoldable pub pem_body : Text → Text
pem_body pem = join_with [] (keep_lines is_body (split_on 10 pem))

-- Pairs of characters, of which `match(/.{2}/g)` drops a last single one.
abbrev pairs : Text → List Text
pairs [] = []
pairs (c ∷ []) = []
pairs (c ∷ d ∷ cs) = (c ∷ d ∷ []) ∷ pairs cs

abbrev or_text : List Text → Text → Text
or_text [] serial = serial
or_text (l ∷ ls) serial = map lower (join_with (58 ∷ []) (l ∷ ls))

-- Of a serial number without line ends.
unfoldable pub format_serial_number : Text → Text
format_serial_number serial =
    if text_includes (58 ∷ []) serial then serial else or_text (pairs serial) serial

unfoldable pub normalize_serial_number : Text → Text
normalize_serial_number serial = map lower (keep_if (λ c. not (c == 58)) serial)
