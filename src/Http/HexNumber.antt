-- ===== src/Http/HexNumber.antt =====
-- `std::strtol` in base 16, on the digits of a size line.
use chimera_ape.Base.{
  ℕ, ◌+◌, ◌*◌, ◌≤◌, ◌<◌, ◌≡◌, ◌≢◌, refl, ◌∙◌, ap, arith, false, [], ◌∷◌, ◌++◌, ◌==◌, Bytes, isspace,
  isdigit, isupper, tolower, All,
}
use chimera_ape.Util.Strtol.{
  pos, strtol, magnitude, digit_value, unprefixed, signed, skip_spaces, long_max, at_most,
}

abbrev pub IsHex : ℕ → Type 0
IsHex c = digit_value c < 16

pub hex-plain :
    (c : ℕ)
    → IsHex c
    → (c ≢ 13)
      × (isspace c ≡ false)
      × ((c == b'-') ≡ false)
      × ((c == b'+') ≡ false)
      × ((tolower c == b'x') ≡ false)
unfolding digit_value isspace isdigit tolower isupper
hex-plain c h = (λ e. ground arith, ground arith, ground arith, ground arith, ground arith)

magnitude-stop :
    (acc stop : ℕ) (s rest : Bytes)
    → All IsHex s
    → 16 ≤ digit_value stop
    → magnitude 16 acc (s ++ stop ∷ rest) ≡ magnitude 16 acc s
unfolding magnitude
magnitude-stop acc stop [] rest h big = ground arith
magnitude-stop acc stop (c ∷ s) rest h big =
    ground (arith, h.0, magnitude-stop (acc * 16 + digit_value c) stop s rest h.1 big)

unprefixed-plain :
    (c x : ℕ) (s : Bytes) → (tolower x == b'x') ≡ false → unprefixed 16 (c ∷ x ∷ s) ≡ c ∷ x ∷ s
unfolding unprefixed
unprefixed-plain c x [] plain = refl
unprefixed-plain c x (d ∷ s) plain = ground arith

unprefixed-digits :
    (c : ℕ) (digits : Bytes) (stop : ℕ) (rest : Bytes)
    → All IsHex digits
    → (tolower stop == b'x') ≡ false
    → unprefixed 16 (c ∷ digits ++ stop ∷ rest) ≡ c ∷ digits ++ stop ∷ rest
unprefixed-digits c [] stop rest hex plain = unprefixed-plain c stop rest plain
unprefixed-digits c (d ∷ digits) stop rest hex plain =
    unprefixed-plain c d (digits ++ stop ∷ rest) (hex-plain d hex.0).4

signed-plain :
    (c : ℕ) (s : Bytes)
    → (c == b'-') ≡ false
    → (c == b'+') ≡ false
    → signed 16 (c ∷ s) ≡ pos (at_most long_max (magnitude 16 0 (unprefixed 16 (c ∷ s))))
unfolding signed
signed-plain c s minus plus = rw (minus, plus) refl

-- The digits of a size line, up to the byte that ends them.
pub strtol-digits :
    (digits : Bytes) (stop : ℕ) (rest : Bytes)
    → digits ≢ []
    → All IsHex digits
    → 16 ≤ digit_value stop
    → (tolower stop == b'x') ≡ false
    → magnitude 16 0 digits ≤ long_max
    → strtol 16 (digits ++ stop ∷ rest) ≡ pos (magnitude 16 0 digits)
unfolding strtol skip_spaces
strtol-digits [] stop rest some_digit hex big plain fits = absurd (some_digit refl)
strtol-digits (c ∷ digits) stop rest some_digit hex big plain fits =
    let (_, space, minus, plus, _) = hex-plain c hex.0 in
    let text = c ∷ digits ++ stop ∷ rest in
    let skipped : skip_spaces text ≡ text = rw space refl in
    let stops = magnitude-stop 0 stop (c ∷ digits) rest hex big in
    ap (signed 16) skipped
    ∙ signed-plain c (digits ++ stop ∷ rest) minus plus
    ∙ ap (λ t. pos (at_most long_max (magnitude 16 0 t)))
        (unprefixed-digits c digits stop rest hex.1 plain)
    ∙ ap (λ m. pos (at_most long_max m)) stops
    ∙ ap pos (ground arith)
