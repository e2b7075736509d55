-- ===== src/Storage/Paths.antt =====
-- Paths as Node's `path` module reads them, and `getFullPath`
-- (src/modules/storage/providers/local-storage.provider.ts).
use mathlib.Core.List.{append_assoc, append-nil}
use securevault_backend.Prelude.{
  Bool, true, false, Option, none, some, List, [], ◌∷◌, ◌++◌, ◌≡◌, refl, ap, ◌∙◌, sym, arith, ◌==◌,
  ◌||◌, if◌then◌else◌, Text, same_text, starts_with, split_on, join_with, All,
}

abbrev is_empty : Text → Bool
is_empty [] = true
is_empty _ = false

-- `.` and `..`
abbrev is_dot : Text → Bool
is_dot segment = same_text segment (46 ∷ [])

abbrev is_dots : Text → Bool
is_dots segment = same_text segment (46 ∷ 46 ∷ [])

-- Drops the last segment; at the root there is none.
abbrev drop_last : List Text → List Text
drop_last [] = []
drop_last (s ∷ []) = []
drop_last (s ∷ t ∷ ss) = s ∷ drop_last (t ∷ ss)

-- The segments of a directory, with a path's segments followed from it.
abbrev pub follow : List Text → List Text → List Text
follow dir [] = dir
follow dir (s ∷ ss) =
    let up = if is_dots s then drop_last dir else dir ++ (s ∷ []) in
    follow (if is_empty s || is_dot s then dir else up) ss

abbrev pub from_root : List Text → Text
from_root segments = 47 ∷ join_with (47 ∷ []) segments

-- Where a path begins with a slash, it is followed from the root.
abbrev is_absolute : Text → Bool
is_absolute [] = false
is_absolute (c ∷ cs) = c == 47

-- `path.resolve(base, file_path)`, of a base that is absolute
abbrev pub resolve : Text → Text → Text
resolve base file_path =
    let start = if is_absolute file_path then [] else follow [] (split_on 47 base) in
    from_root (follow start (split_on 47 file_path))

unfoldable pub full_path : Text → Text → Option Text
full_path base file_path =
    let resolved = resolve base file_path in
    if starts_with base resolved then some resolved else none

-- A segment that names a file or directory
abbrev pub IsName : Text → Type 0
IsName s =
    (is_empty s ≡ false) × (is_dot s ≡ false) × (is_dots s ≡ false) × All (λ c. (c == 47) ≡ false) s

follow-names : (dir ss : List Text) → All IsName ss → follow dir ss ≡ dir ++ ss
follow-names dir [] named = sym (append-nil dir)
follow-names dir (s ∷ ss) named =
    let (full, one, two, _) = named.0 in
    rw (full, one, two) (follow-names (dir ++ (s ∷ [])) ss named.1 ∙ append_assoc dir (s ∷ []) ss)

split_on-name : (s : Text) → All (λ c. (c == 47) ≡ false) s → split_on 47 s ≡ s ∷ []
split_on-name [] h = refl
split_on-name (c ∷ cs) h = rw (h.0, split_on-name cs h.1) refl

split_on-slash :
    (s t : Text) → All (λ c. (c == 47) ≡ false) s → split_on 47 (s ++ (47 ∷ t)) ≡ s ∷ split_on 47 t
split_on-slash [] t h = refl
split_on-slash (c ∷ cs) t h = rw (h.0, split_on-slash cs t h.1) refl

-- The path of one or more segments
abbrev pub joined : List Text → Text
joined ss = join_with (47 ∷ []) ss

split_on-joined :
    (s : Text) (ss : List Text) → All IsName (s ∷ ss) → split_on 47 (joined (s ∷ ss)) ≡ s ∷ ss
split_on-joined s [] named = split_on-name s named.0.3
split_on-joined s (t ∷ ss) named =
    split_on-slash s (joined (t ∷ ss)) named.0.3 ∙ ap (λ r. s ∷ r) (split_on-joined t ss named.1)

joined-append :
    (d : Text) (dir : List Text) (s : Text) (ss : List Text)
    → joined ((d ∷ dir) ++ (s ∷ ss)) ≡ joined (d ∷ dir) ++ (47 ∷ joined (s ∷ ss))
joined-append d [] s ss = refl
joined-append d (e ∷ dir) s ss =
    ap (λ r. d ++ (47 ∷ r)) (joined-append e dir s ss)
    ∙ sym (append_assoc d (47 ∷ joined (e ∷ dir)) (47 ∷ joined (s ∷ ss)))

starts_with-append : (s t : Text) → starts_with s (s ++ t) ≡ true
starts_with-append [] t = refl
starts_with-append (c ∷ cs) t =
    let same : (c == c) ≡ true = ground arith in rw same (starts_with-append cs t)

name-relative : (s : Text) (ss : List Text) → IsName s → is_absolute (joined (s ∷ ss)) ≡ false
name-relative [] ss named = absurd (let wrong = named.0 in cc)
name-relative (c ∷ cs) [] named = named.3.0
name-relative (c ∷ cs) (t ∷ ss) named = named.3.0

guarded :
    (base r p : Text)
    → r ≡ p
    → starts_with base p ≡ true
    → (if starts_with base r then some r else none) ≡ some p
guarded base r p same below = rw (same, below) refl

-- Below a base directory, a relative path of names is accepted, and resolves to the base, a slash
-- and the path itself.
pub full_path-names :
    (d : Text) (dir : List Text) (s : Text) (ss : List Text)
    → All IsName (d ∷ dir)
    → All IsName (s ∷ ss)
    → full_path (from_root (d ∷ dir)) (joined (s ∷ ss))
      ≡ some (from_root (d ∷ dir) ++ (47 ∷ joined (s ∷ ss)))
unfolding full_path
full_path-names d dir s ss base_named named =
    let base = from_root (d ∷ dir) in
    let relative = name-relative s ss named.0 in
    let at_base : follow [] (split_on 47 base) ≡ d ∷ dir =
      rw (split_on-joined d dir base_named) (follow-names [] (d ∷ dir) base_named) in
    let below : resolve base (joined (s ∷ ss)) ≡ base ++ (47 ∷ joined (s ∷ ss)) =
      rw (relative, at_base, split_on-joined s ss named)
        (ap from_root (follow-names (d ∷ dir) (s ∷ ss) named)
          ∙ ap (λ r. 47 ∷ r) (joined-append d dir s ss)) in
    guarded base _ _ below (starts_with-append base (47 ∷ joined (s ∷ ss)))
