-- ===== src/Util/Hex.antt =====
-- src/util.h: `to_hex`. A byte is a number below 256, `x >> 4` is `x / 16` and `x & 0xf` is `x % 16`.
use chimera_ape.Base.{
  ℕ, ◌+◌, ◌-◌, ◌*◌, ◌/◌, ◌%◌, ◌<◌, ◌≡◌, refl, true, ◌&&◌, ◌||◌, Option, none, some, [], ◌∷◌, arith,
  leb, if◌then◌else◌, Bytes, length, All,
}

-- `k[x]` for the table "0123456789abcdef".
pub hex_digit : ℕ → ℕ
hex_digit x = if leb x 9 then b'0' + x else b'a' + (x - 10)

unfoldable pub to_hex : Bytes → Bytes
unfolding hex_digit
to_hex [] = []
to_hex (x ∷ xs) = hex_digit (x / 16) ∷ hex_digit (x % 16) ∷ to_hex xs

-- The value of a lower-case hexadecimal digit.
pub hex_value : ℕ → Option ℕ
hex_value c =
    if leb b'0' c && leb c b'9'
    then some (c - b'0')
    else if leb b'a' c && leb c b'f'
    then some (c - b'a' + 10)
    else none

abbrev hex_pair : Option ℕ → Option ℕ → Option Bytes → Option Bytes
hex_pair (some h) (some l) (some rest) = some ((h * 16 + l) ∷ rest)
hex_pair _ _ _ = none

-- The bytes that a hexadecimal text stands for.
pub from_hex : Bytes → Option Bytes
unfolding hex_value
from_hex [] = some []
from_hex (h ∷ []) = none
from_hex (h ∷ l ∷ s) = hex_pair (hex_value h) (hex_value l) (from_hex s)

pub hex_value-hex_digit : (x : ℕ) → x < 16 → hex_value (hex_digit x) ≡ some x
unfolding hex_value hex_digit
hex_value-hex_digit x h = ground arith

-- The hexadecimal text of a byte string stands for that byte string, and is twice as long.
pub from_hex-to_hex :
    (s : Bytes)
    → All (λ x. x < 256) s
    → (from_hex (to_hex s) ≡ some s) × (length (to_hex s) ≡ 2 * length s)
unfolding to_hex from_hex
from_hex-to_hex [] h = (refl, omega arith)
from_hex-to_hex (x ∷ xs) h =
    let (ih, len) = from_hex-to_hex xs h.1 in
    let e : x / 16 * 16 + x % 16 ≡ x = omega arith in
    (
      rw (
        hex_value-hex_digit (x / 16) (omega (arith, h.0)),
        hex_value-hex_digit (x % 16) (omega arith),
        ih,
        e,
      ),
      omega arith,
    )

abbrev pub IsHexDigit : ℕ → Type 0
IsHexDigit c = (leb b'0' c && leb c b'9' || leb b'a' c && leb c b'f') ≡ true

pub to_hex-IsHexDigit : (s : Bytes) → All (λ x. x < 256) s → All IsHexDigit (to_hex s)
unfolding to_hex hex_digit
to_hex-IsHexDigit [] h = tt
to_hex-IsHexDigit (x ∷ xs) h = (ground arith, (ground arith, to_hex-IsHexDigit xs h.1))
