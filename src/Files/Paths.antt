-- ===== src/Files/Paths.antt =====
-- The storage path of an upload (`generateStoragePath`, src/shared/utils/file.util.ts) and the
-- sanitized file name.
use securevault_backend.Prelude.{
  ℕ, zero, suc, ◌+◌, ◌/◌, ◌%◌, false, List, [], ◌∷◌, ◌++◌, map, ◌==◌, ltb, ◌≡◌, refl, ap, ◌≤◌,
  arith, Text, lower, same_text, split_on, before_line, Option-cases, All, All-append, All-mono,
  Bool-cases, inl, inr, some,
}
use securevault_backend.Storage.Paths.{IsName, from_root, joined, full_path, full_path-names}
use securevault_backend.Files.Names.{
  digits, show_number, pad_two, storage_segments, get_extension, extname, ext_of, basename, last_of,
  or_empty, from_last_dot, strip_slashes,
}

abbrev NoSlash : ℕ → Type 0
NoSlash c = (c == 47) ≡ false

abbrev IsDigit : ℕ → Type 0
IsDigit c = (48 ≤ c) × (c ≤ 57)

digits-Digits : (fuel n : ℕ) → All IsDigit (digits fuel n)
unfolding digits
digits-Digits zero n = ((omega arith, omega arith), tt)
digits-Digits (suc fuel) n = elim (Bool-cases (ltb n 10)) [
  | inl small ↦
      let e : digits (suc fuel) n ≡ (n % 10 + 48) ∷ [] = rw (small, digits) refl in
      rw e ((omega arith, omega arith), tt)
  | inr large ↦
      let e : digits (suc fuel) n ≡ digits fuel (n / 10) ++ ((n % 10 + 48) ∷ []) =
        rw (large, digits) refl in
      rw e (
        All-append IsDigit (digits fuel (n / 10)) ((n % 10 + 48) ∷ []) (digits-Digits fuel (n / 10))
          ((omega arith, omega arith), tt))
]

digits-long : (fuel n : ℕ) → (c : ℕ) × (cs : Text) × (digits fuel n ≡ c ∷ cs)
unfolding digits
digits-long zero n = (n % 10 + 48, [], refl)
digits-long (suc fuel) n = elim (Bool-cases (ltb n 10)) [
  | inl small ↦ (n % 10 + 48, [], rw (small, digits) refl)
  | inr large ↦
      let (c, cs, e) = digits-long fuel (n / 10) in
      (c, cs ++ ((n % 10 + 48) ∷ []), rw (large, digits) (ap (λ t. t ++ ((n % 10 + 48) ∷ [])) e))
]

-- A text that begins with neither a dot nor a slash, and has no slash, names a file.
begins-Name : (c : ℕ) (cs : Text) → (c == 46) ≡ false → All NoSlash (c ∷ cs) → IsName (c ∷ cs)
begins-Name c cs first clean = (refl, ground arith, ground arith, clean)

digits-Name : (c : ℕ) (cs : Text) → All IsDigit (c ∷ cs) → IsName (c ∷ cs)
digits-Name c cs all =
    let first = all.0 in
    begins-Name c cs (ground arith) (All-mono (c ∷ cs) (λ d (h : IsDigit d). ground arith) all)

show_number-Name : (n : ℕ) → IsName (show_number n)
show_number-Name n =
    let (c, cs, e) = digits-long n n in
    let all = digits-Digits n n in rw e (digits-Name c cs (rw e at all))

pad_two-Name : (c : ℕ) (cs : Text) → All IsDigit (c ∷ cs) → IsName (pad_two (c ∷ cs))
pad_two-Name c [] all = digits-Name 48 (c ∷ []) ((omega arith, omega arith), all)
pad_two-Name c (d ∷ cs) all = digits-Name c (d ∷ cs) all

padded-Name : (n : ℕ) → IsName (pad_two (show_number n))
padded-Name n =
    let (c, cs, e) = digits-long n n in
    let all = digits-Digits n n in rw e (pad_two-Name c cs (rw e at all))

All-before_line :
    (c : ℕ) (ls : List Text)
    → NoSlash c
    → All (All NoSlash) ls
    → All (All NoSlash) (before_line c ls)
All-before_line c [] clean all = ((clean, tt), tt)
All-before_line c (l ∷ ls) clean all = ((clean, all.0), all.1)

All-split_on : (t : Text) → All (All NoSlash) (split_on 47 t)
All-split_on [] = (tt, tt)
All-split_on (c ∷ cs) = elim (Bool-cases (c == 47)) [
  | inl slash ↦ rw slash (tt, All-split_on cs)
  | inr other ↦ rw other (All-before_line c (split_on 47 cs) other (All-split_on cs))
]

All-last_of : (ls : List Text) → All (All NoSlash) ls → All NoSlash (last_of ls)
All-last_of [] all = tt
All-last_of (l ∷ []) all = all.0
All-last_of (l ∷ m ∷ ls) all = All-last_of (m ∷ ls) all.1

pub basename-NoSlash : (name : Text) → All NoSlash (basename name)
basename-NoSlash name =
    All-last_of (split_on 47 (strip_slashes name)) (All-split_on (strip_slashes name))

All-from_last_dot : (t : Text) → All NoSlash t → All NoSlash (or_empty (from_last_dot t))
All-from_last_dot [] all = tt
All-from_last_dot (c ∷ cs) all =
    let rest = All-from_last_dot cs all.1 in
    elim (Option-cases (from_last_dot cs)) [
      | inl missing ↦ elim (Bool-cases (c == 46)) [
        | inl dot ↦ rw (missing, dot) all
        | inr other ↦ rw (missing, other) tt
      ]
      | inr (ext, found) ↦ rw found (rw found at rest)
    ]

All-ext_of : (t : Text) → All NoSlash t → All NoSlash (ext_of t)
All-ext_of [] all = tt
All-ext_of (c ∷ cs) all = elim (Bool-cases (same_text (c ∷ cs) (46 ∷ 46 ∷ []))) [
  | inl dots ↦ rw dots tt
  | inr other ↦ rw other (All-from_last_dot cs all.1)
]

All-lower : (t : Text) → All NoSlash t → All NoSlash (map lower t)
All-lower [] all = tt
All-lower (c ∷ cs) all = (let h = all.0 in ground arith, All-lower cs all.1)

get_extension-NoSlash : (filename : Text) → All NoSlash (get_extension filename)
unfolding get_extension
get_extension-NoSlash filename =
    All-lower (extname filename) (All-ext_of (basename filename) (basename-NoSlash filename))

-- A UUID is a text of hexadecimal digits and hyphens that is not empty.
abbrev pub IsUuid : Text → Type 0
IsUuid [] = ⊥
IsUuid (c ∷ cs) = All (λ d. ((d == 46) ≡ false) × ((d == 47) ≡ false)) (c ∷ cs)

uuid-Name : (uuid ext : Text) → IsUuid uuid → All NoSlash ext → IsName (uuid ++ ext)
uuid-Name [] ext bad clean = absurd bad
uuid-Name (c ∷ cs) ext hex clean =
    begins-Name c (cs ++ ext) hex.0.0
      (All-append NoSlash (c ∷ cs) ext (All-mono (c ∷ cs) (λ d h. h.1) hex) clean)

-- Whatever the name of an uploaded file is, its storage path is below the base directory, under
-- the year, month, day and UUID.
pub full_path-storage_segments :
    (d : Text) (dir : List Text) (date : ℕ × ℕ × ℕ) (uuid filename : Text)
    → All IsName (d ∷ dir)
    → IsUuid uuid
    → full_path (from_root (d ∷ dir)) (joined (storage_segments date uuid (get_extension filename)))
      ≡ some (
          from_root (d ∷ dir)
          ++ (47 ∷ joined (storage_segments date uuid (get_extension filename))))
full_path-storage_segments d dir (year, month, day) uuid filename base_named hex =
    full_path-names d dir (show_number year)
      (pad_two (show_number month)
        ∷ pad_two (show_number day)
        ∷ (uuid ++ get_extension filename)
        ∷ [])
      base_named
      (
        show_number-Name year,
        (
          padded-Name month,
          (
            padded-Name day,
            (uuid-Name uuid (get_extension filename) hex (get_extension-NoSlash filename), tt),
          ),
        ),
      )
