-- ===== src/Files/Names.antt =====
-- File names and storage paths (src/shared/utils/file.util.ts), with what Node's `path` module makes
-- of a name.
use securevault_backend.Prelude.{
  ℕ, zero, suc, ◌+◌, ◌/◌, ◌%◌, Bool, true, false, ◌&&◌, ◌||◌, Option, none, some, List, [], ◌∷◌,
  ◌++◌, map, ◌==◌, leb, ltb, if◌then◌else◌, Text, codes, same_text, split_on, lower,
}

-- The MIME types of `ALLOWED_MIME_TYPES`
unfoldable pub allowed_mime_types : List Text
allowed_mime_types =
    codes "application/pdf"
    ∷ codes "application/msword"
    ∷ codes "application/vnd.openxmlformats-officedocument.wordprocessingml.document"
    ∷ codes "application/vnd.ms-excel"
    ∷ codes "application/vnd.openxmlformats-officedocument.spreadsheetml.sheet"
    ∷ codes "application/vnd.ms-powerpoint"
    ∷ codes "application/vnd.openxmlformats-officedocument.presentationml.presentation"
    ∷ codes "text/plain"
    ∷ codes "text/csv"
    ∷ codes "image/jpeg"
    ∷ codes "image/png"
    ∷ codes "image/gif"
    ∷ codes "image/webp"
    ∷ codes "image/svg+xml"
    ∷ codes "application/zip"
    ∷ codes "application/x-7z-compressed"
    ∷ codes "application/x-rar-compressed"
    ∷ codes "video/mp4"
    ∷ codes "audio/mpeg"
    ∷ codes "audio/wav"
    ∷ []

abbrev includes_text : Text → List Text → Bool
includes_text t [] = false
includes_text t (s ∷ ss) = same_text s t || includes_text t ss

unfoldable pub is_allowed_mime_type : Text → Bool
unfolding allowed_mime_types
is_allowed_mime_type mime_type = includes_text mime_type allowed_mime_types

-- Without the slashes at its end
abbrev pub strip_slashes : Text → Text
strip_slashes [] = []
strip_slashes (c ∷ cs) =
    let rest = strip_slashes cs in
    elim rest [ [] ↦ if c == 47 then [] else c ∷ [] | d ∷ ds ↦ c ∷ d ∷ ds ]

abbrev pub last_of : List Text → Text
last_of [] = []
last_of (s ∷ []) = s
last_of (s ∷ t ∷ ss) = last_of (t ∷ ss)

-- `path.basename(name)`
abbrev pub basename : Text → Text
basename name = last_of (split_on 47 (strip_slashes name))

-- The text from its last dot on
abbrev pub from_last_dot : Text → Option Text
from_last_dot [] = none
from_last_dot (c ∷ cs) =
    let rest = from_last_dot cs in
    elim rest [ some ext ↦ some ext | none ↦ if c == 46 then some (c ∷ cs) else none ]

abbrev pub or_empty : Option Text → Text
or_empty none = []
or_empty (some t) = t

-- The extension of a last segment, whose first dot begins no extension; `..` has none.
abbrev pub ext_of : Text → Text
ext_of [] = []
ext_of (c ∷ cs) = if same_text (c ∷ cs) (46 ∷ 46 ∷ []) then [] else or_empty (from_last_dot cs)

-- `path.extname(name)`
abbrev pub extname : Text → Text
extname name = ext_of (basename name)

unfoldable pub get_extension : Text → Text
get_extension filename = map lower (extname filename)

-- `[a-zA-Z0-9.\-_]`
abbrev pub is_plain : ℕ → Bool
is_plain c =
    (leb 97 c && leb c 122)
    || ((leb 65 c && leb c 90)
        || ((leb 48 c && leb c 57) || ((c == 46) || ((c == 45) || (c == 95)))))

abbrev pub plain : ℕ → ℕ
plain c = if is_plain c then c else 95

unfoldable pub sanitize_filename : Text → Text
sanitize_filename filename = map plain (basename filename)

-- The decimal digits of a number, of at most `fuel + 1` of them
unfoldable pub digits : ℕ → ℕ → Text
digits zero n = (n % 10 + 48) ∷ []
digits (suc fuel) n = elim (ltb n 10) [
  | true ↦ (n % 10 + 48) ∷ []
  | false ↦ digits fuel (n / 10) ++ ((n % 10 + 48) ∷ [])
]

-- `String(n)`
abbrev pub show_number : ℕ → Text
show_number n = digits n n

-- `text.padStart(2, '0')`
abbrev pub pad_two : Text → Text
pad_two [] = 48 ∷ 48 ∷ []
pad_two (c ∷ []) = 48 ∷ c ∷ []
pad_two (c ∷ d ∷ cs) = c ∷ d ∷ cs

-- The segments of `generateStoragePath`, which joins them by slashes, from the year, month and day
-- of the local date.
abbrev pub storage_segments : ℕ × ℕ × ℕ → Text → Text → List Text
storage_segments (year, month, day) uuid ext =
    show_number year ∷ pad_two (show_number month) ∷ pad_two (show_number day) ∷ (uuid ++ ext) ∷ []
