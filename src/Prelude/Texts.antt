-- ===== src/Prelude/Texts.antt =====
-- Texts as lists of code points, with the operations on strings that the services use.
use Prim.Native.Char.{code}
use Prim.Native.String.{String}
use Prim.Native.Nat.{ℕ, ◌+◌}
use mathlib.Core.Path.{◌≡◌}
use mathlib.Core.Logic.{◌↔◌}
use mathlib.Core.Bool.{Bool, true, false, ◌&&◌, ◌||◌}
use mathlib.Core.List.{List, [], ◌∷◌, ◌++◌}
use native.Mathlib.Omega.{arith}
use securevault_backend.Prelude.Tests.{leb, ◌==◌, if◌then◌else◌}

abbrev pub Text : Type 0
Text = List ℕ

-- The code points of a literal
abbrev pub codes : String → Text
codes String.[] = []
codes (String.◌∷◌ c s) = code c ∷ codes s

-- `a === b`
abbrev pub same_text : Text → Text → Bool
same_text [] [] = true
same_text [] (_ ∷ _) = false
same_text (_ ∷ _) [] = false
same_text (a ∷ xs) (b ∷ ys) = (a == b) && same_text xs ys

pub same_text_iff : (s t : Text) → (same_text s t ≡ true) ↔ (s ≡ t)
same_text_iff [] [] = ground arith
same_text_iff [] (b ∷ ys) = (λ h. absurd cc, λ h. absurd cc)
same_text_iff (a ∷ xs) [] = (λ h. absurd cc, λ h. absurd cc)
same_text_iff (a ∷ xs) (b ∷ ys) = ground (arith, same_text_iff xs ys)

-- `text.startsWith(prefix)`
abbrev pub starts_with : Text → Text → Bool
starts_with [] text = true
starts_with (p ∷ ps) [] = false
starts_with (p ∷ ps) (c ∷ cs) = (p == c) && starts_with ps cs

-- `text.includes(pattern)`
abbrev pub text_includes : Text → Text → Bool
text_includes pattern [] = starts_with pattern []
text_includes pattern (c ∷ cs) = starts_with pattern (c ∷ cs) || text_includes pattern cs

-- `text.filter(…)` on the code points
abbrev pub keep_if : (ℕ → Bool) → Text → Text
keep_if p [] = []
keep_if p (c ∷ cs) = let rest = keep_if p cs in if p c then c ∷ rest else rest

-- `toLowerCase`, on the letters of ASCII
abbrev pub lower : ℕ → ℕ
lower c = if leb 65 c && leb c 90 then c + 32 else c

-- The white space of JavaScript's `trim`
abbrev pub is_space : ℕ → Bool
is_space c =
    (leb 9 c && leb c 13)
    || (c == 32)
    || (c == 160)
    || (c == 5760)
    || (leb 8192 c && leb c 8202)
    || (c == 8232)
    || (c == 8233)
    || (c == 8239)
    || (c == 8287)
    || (c == 12288)
    || (c == 65279)

abbrev pub trim_start : Text → Text
trim_start [] = []
trim_start (c ∷ cs) = let rest = trim_start cs in if is_space c then rest else c ∷ cs

abbrev pub is_blank : Text → Bool
is_blank [] = true
is_blank (c ∷ cs) = is_space c && is_blank cs

abbrev pub trim_end : Text → Text
trim_end [] = []
trim_end (c ∷ cs) = let rest = trim_end cs in if is_blank (c ∷ cs) then [] else c ∷ rest

-- `text.trim()`
abbrev pub trim : Text → Text
trim text = trim_end (trim_start text)

-- The first line of a text, put before the others.
abbrev pub before_line : ℕ → List Text → List Text
before_line c [] = (c ∷ []) ∷ []
before_line c (l ∷ ls) = (c ∷ l) ∷ ls

-- `text.split(separator)`, of one code point
abbrev pub split_on : ℕ → Text → List Text
split_on separator [] = [] ∷ []
split_on separator (c ∷ cs) =
    let rest = split_on separator cs in if c == separator then [] ∷ rest else before_line c rest

-- `lines.filter(…)`
abbrev pub keep_lines : (Text → Bool) → List Text → List Text
keep_lines p [] = []
keep_lines p (l ∷ ls) = let rest = keep_lines p ls in if p l then l ∷ rest else rest

-- `lines.join(separator)`
abbrev pub join_with : Text → List Text → Text
join_with separator [] = []
join_with separator (l ∷ []) = l
join_with separator (l ∷ m ∷ ls) = l ++ (separator ++ join_with separator (m ∷ ls))
