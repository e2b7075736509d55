-- ===== src/Auth/Expiration.antt =====
-- `parseExpiration` (src/modules/auth/auth.service.ts): a lifetime written as digits and a unit.
use securevault_backend.Prelude.{
  ℕ, ◌+◌, ◌-◌, ◌*◌, ◌<◌, Bool, true, ◌&&◌, Option, none, some, List, [], ◌∷◌, ◌++◌, ◌≡◌, refl,
  arith, map, ◌==◌, if◌then◌else◌, leb, get_or, All, ◌≤◌, ◌∙◌,
}
use securevault_backend.Env.{ExactDoubles}

-- The code points of `s`, `m`, `h` and `d`, and their milliseconds
abbrev pub multiplier : ℕ → Option ℕ
multiplier unit =
    if unit == 115
    then some 1000
    else if unit == 109
    then some 60000
    else if unit == 104
    then some 3600000
    else if unit == 100
    then some 86400000
    else none

abbrev is_digit : ℕ → Bool
is_digit c = leb 48 c && leb c 57

-- What follows the digits, of the value given: one unit and the end. `parseInt` and the product
-- give doubles.
abbrev with_unit : (ℕ → ℕ) → Option ℕ → List ℕ → Option ℕ
with_unit double (some value) (unit ∷ []) = elim (multiplier unit) [
  | none ↦ none
  | some m ↦ some (double (double value * m))
]
with_unit double _ _ = none

-- `/^(\d+)([smhd])$/` from the value of the digits read so far
read_expiration : (ℕ → ℕ) → Option ℕ → List ℕ → Option ℕ
read_expiration double value [] = none
read_expiration double value (c ∷ cs) =
    let rest = read_expiration double (some (get_or value 0 * 10 + (c - 48))) cs in
    if is_digit c then rest else with_unit double value (c ∷ cs)

-- Milliseconds; seven days for a text of another form
unfoldable pub parse_expiration : (ℕ → ℕ) → List ℕ → ℕ
unfolding read_expiration
parse_expiration double exp = get_or (read_expiration double none exp) (7 * 24 * 60 * 60 * 1000)

-- The value of decimal digits, most significant first, after a value read before them.
abbrev pub decimal : ℕ → List ℕ → ℕ
decimal value [] = value
decimal value (d ∷ ds) = decimal (value * 10 + d) ds

-- The text of decimal digits and a unit
abbrev pub lifetime : List ℕ → ℕ → List ℕ
lifetime ds unit = map (λ d. d + 48) ds ++ unit ∷ []

module _ (double : ℕ → ℕ) where
  digits-read :
      (value unit m : ℕ) (ds : List ℕ)
      → multiplier unit ≡ some m
      → All (λ d. d < 10) ds
      → read_expiration double (some value) (lifetime ds unit)
        ≡ some (double (double (decimal value ds) * m))
  unfolding read_expiration
  digits-read value unit m [] known small = ground arith
  digits-read value unit m (d ∷ ds) known small =
      let rest = digits-read (value * 10 + d) unit m ds known small.1 in
      let back : d + 48 - 48 ≡ d = omega arith in
      let digit : is_digit (d + 48) ≡ true = let h = small.0 in ground arith in
      rw (digit, back) rest

  parse_expiration-digits :
      (d unit m : ℕ) (ds : List ℕ)
      → multiplier unit ≡ some m
      → All (λ d. d < 10) (d ∷ ds)
      → parse_expiration double (lifetime (d ∷ ds) unit) ≡ double (double (decimal 0 (d ∷ ds)) * m)
  unfolding parse_expiration read_expiration
  parse_expiration-digits d unit m ds known small =
      let rest = digits-read (0 * 10 + d) unit m ds known small.1 in
      let back : d + 48 - 48 ≡ d = omega arith in
      let digit : is_digit (d + 48) ≡ true = let h = small.0 in ground arith in
      rw (digit, back, rest) refl

  module _ (exact : ExactDoubles double) where
    exact-product : (n m : ℕ) → 1 ≤ m → n * m ≤ 9007199254740992 → double (double n * m) ≡ n * m
    exact-product n m positive bounded =
        let below : n ≤ n * m = grind (arith, positive) in
        let whole : double n ≡ n = exact n (omega (arith, below, bounded)) in
        rw whole (exact (n * m) bounded)

    -- Where doubles are exact up to 2 ^ 53, a lifetime written as one or more decimal digits, of a
    -- number whose days have no more than 2 ^ 53 milliseconds, and a unit, is that number of seconds
    -- for `s`, of minutes for `m`, of hours for `h` and of days for `d`, in milliseconds.
    pub parse_expiration-decimal :
        (d : ℕ) (ds : List ℕ)
        → All (λ d. d < 10) (d ∷ ds)
        → let n = decimal 0 (d ∷ ds) in
          n * (24 * 60 * 60 * 1000) ≤ 9007199254740992
          → (parse_expiration double (lifetime (d ∷ ds) 115) ≡ n * 1000)
            × (parse_expiration double (lifetime (d ∷ ds) 109) ≡ n * (60 * 1000))
            × (parse_expiration double (lifetime (d ∷ ds) 104) ≡ n * (60 * 60 * 1000))
            × (parse_expiration double (lifetime (d ∷ ds) 100) ≡ n * (24 * 60 * 60 * 1000))
    parse_expiration-decimal d ds small bounded =
        let n = decimal 0 (d ∷ ds) in
        (
          parse_expiration-digits d 115 1000 ds refl small
              ∙ exact-product n 1000 (omega arith) (omega (arith, bounded)),
          parse_expiration-digits d 109 60000 ds refl small
              ∙ exact-product n 60000 (omega arith) (omega (arith, bounded)),
          parse_expiration-digits d 104 3600000 ds refl small
              ∙ exact-product n 3600000 (omega arith) (omega (arith, bounded)),
          parse_expiration-digits d 100 86400000 ds refl small
              ∙ exact-product n 86400000 (omega arith) (omega (arith, bounded)),
        )
