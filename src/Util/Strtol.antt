-- ===== src/Util/Strtol.antt =====
-- `std::strtol`, `std::atoll` and `std::atoi`: spaces, a sign, for base 16 a `0x`, then digits. A
-- value out of range is cut to that of a 64-bit `long`; `atoi` then keeps the low 32 bits.
use chimera_ape.Base.{
  ℕ, zero, suc, ◌+◌, ◌-◌, ◌*◌, ◌%◌, ◌^◌, ◌&&◌, [], ◌∷◌, ltb, leb, ◌==◌, if◌then◌else◌, Bytes,
  isspace, isdigit, tolower,
}

pub data ℤ : Type 0 where
  pos : ℕ → ℤ
  negsuc : ℕ → ℤ

abbrev pub neg : ℕ → ℤ
neg zero = pos 0
neg (suc n) = negsuc n

-- The value of a digit, at least 36 for any other byte.
unfoldable pub digit_value : ℕ → ℕ
unfolding isdigit
digit_value c =
    if isdigit c
    then c - b'0'
    else if leb b'a' c && leb c b'z'
    then c - b'a' + 10
    else if leb b'A' c && leb c b'Z'
    then c - b'A' + 10
    else 36

unfoldable pub magnitude : ℕ → ℕ → Bytes → ℕ
unfolding digit_value
magnitude base acc [] = acc
magnitude base acc (c ∷ s) =
    let later = magnitude base (acc * base + digit_value c) s in
    if ltb (digit_value c) base then later else acc

unfoldable pub skip_spaces : Bytes → Bytes
unfolding isspace
skip_spaces [] = []
skip_spaces (c ∷ s) = let later = skip_spaces s in if isspace c then later else c ∷ s

-- The digits after a `0x`.
unfoldable pub unprefixed : ℕ → Bytes → Bytes
unfolding digit_value tolower
unprefixed base (z ∷ x ∷ c ∷ s) =
    if base == 16 && z == b'0' && tolower x == b'x' && ltb (digit_value c) 16
    then c ∷ s
    else z ∷ x ∷ c ∷ s
unprefixed base s = s

abbrev pub long_max : ℕ
long_max = 2 ^ 63 - 1

abbrev pub at_most : ℕ → ℕ → ℕ
at_most bound n = if leb n bound then n else bound

unfoldable pub signed : ℕ → Bytes → ℤ
unfolding magnitude unprefixed
signed base [] = pos 0
signed base (c ∷ s) =
    if c == b'-'
    then neg (at_most (long_max + 1) (magnitude base 0 (unprefixed base s)))
    else if c == b'+'
    then pos (at_most long_max (magnitude base 0 (unprefixed base s)))
    else pos (at_most long_max (magnitude base 0 (unprefixed base (c ∷ s))))

unfoldable pub strtol : ℕ → Bytes → ℤ
unfolding signed skip_spaces
strtol base s = signed base (skip_spaces s)

-- The low 32 bits, as an `int`.
abbrev pub wrap : ℕ → ℤ
wrap m = if ltb m (2 ^ 31) then pos m else negsuc (2 ^ 32 - 1 - m)

abbrev pub to_int : ℤ → ℤ
to_int (pos n) = wrap (n % 2 ^ 32)
to_int (negsuc n) = wrap (2 ^ 32 - 1 - n % 2 ^ 32)

unfoldable pub int_of_text : Bytes → ℤ
unfolding strtol
int_of_text s = to_int (strtol 10 s)
