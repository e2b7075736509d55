-- ===== src/Prelude/Hex.antt =====
-- Node's `Buffer` as a list of bytes, with its hexadecimal text.
use Prim.Native.Nat.{ℕ, ◌+◌, ◌-◌, ◌*◌, ◌/◌, ◌%◌, ◌<◌}
use mathlib.Core.Path.{◌≡◌, refl, ap}
use mathlib.Core.Bool.{◌&&◌}
use mathlib.Core.Option.{Option, none, some}
use mathlib.Core.List.{List, [], ◌∷◌}
use native.Mathlib.Omega.{arith}
use securevault_backend.Prelude.Tests.{ltb, leb, if◌then◌else◌}
use securevault_backend.Prelude.Lists.{All}

abbrev pub Bytes : Type 0
Bytes = List ℕ

abbrev pub IsByte : ℕ → Type 0
IsByte b = b < 256

-- The code point of a digit below 16
abbrev pub hex_digit : ℕ → ℕ
hex_digit n = if ltb n 10 then n + 48 else n + 87

-- `buffer.toString('hex')`
abbrev pub to_hex : Bytes → List ℕ
to_hex [] = []
to_hex (b ∷ bs) = hex_digit (b / 16) ∷ hex_digit (b % 16) ∷ to_hex bs

abbrev pub hex_value : ℕ → Option ℕ
hex_value c =
    if leb 48 c && leb c 57
    then some (c - 48)
    else if leb 97 c && leb c 102
    then some (c - 87)
    else if leb 65 c && leb c 70
    then some (c - 55)
    else none

abbrev byte_before : Option ℕ → Option ℕ → Bytes → Bytes
byte_before (some h) (some l) rest = (h * 16 + l) ∷ rest
byte_before _ _ rest = []

-- `Buffer.from(text, 'hex')`, which stops at the first pair that is not two digits
abbrev pub from_hex : List ℕ → Bytes
from_hex [] = []
from_hex (c ∷ []) = []
from_hex (c ∷ d ∷ cs) = byte_before (hex_value c) (hex_value d) (from_hex cs)

hex_value-hex_digit : (n : ℕ) → n < 16 → hex_value (hex_digit n) ≡ some n
hex_value-hex_digit n small = ground arith

pub from_hex-to_hex : (bs : Bytes) → All IsByte bs → from_hex (to_hex bs) ≡ bs
from_hex-to_hex [] small = refl
from_hex-to_hex (b ∷ bs) small =
    let high = hex_value-hex_digit (b / 16) (let h = small.0 in omega arith) in
    let low = hex_value-hex_digit (b % 16) (omega arith) in
    let whole : b / 16 * 16 + b % 16 ≡ b = omega arith in
    rw (high, low, whole) (ap (λ r. b ∷ r) (from_hex-to_hex bs small.1))
