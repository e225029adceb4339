-- ===== src/Cli/Numbers.antt =====
-- src/main.cpp: `atoi` of the text of a number.
use chimera_ape.Base.{
  ℕ, ◌<◌, ◌+◌, ◌*◌, ◌-◌, ◌^◌, ◌%◌, inl, inr, ◌≤◌, ◌≡◌, ◌∙◌, refl, ap, arith, true, false, [], ◌∷◌,
  ◌==◌, ltb, Bytes, isdigit, isspace, All, Bool-cases,
}
use chimera_ape.Util.Decimal.{decimal, atoi, read_digits, decimal-isdigit, atoi-decimal}
use chimera_ape.Util.Strtol.{
  pos, strtol, signed, magnitude, digit_value, unprefixed, skip_spaces, int_of_text, long_max,
  at_most,
}

digit-value : (c : ℕ) → isdigit c ≡ true → (digit_value c ≡ c - b'0') × (digit_value c < 10)
unfolding digit_value isdigit
digit-value c h = (ground arith, ground arith)

other-value : (c : ℕ) → isdigit c ≡ false → ltb (digit_value c) 10 ≡ false
unfolding digit_value isdigit
other-value c h = ground arith

read_digits-magnitude : (acc : ℕ) (s : Bytes) → magnitude 10 acc s ≡ read_digits acc s
unfolding magnitude read_digits
read_digits-magnitude acc [] = refl
read_digits-magnitude acc (c ∷ s) = elim (Bool-cases (isdigit c)) [
  | inl d ↦
      let (e, lt) = digit-value c d in
      let small : ltb (digit_value c) 10 ≡ true = ground arith in
      rw (small, d) (read_digits-magnitude (acc * 10 + (c - b'0')) s)
  | inr d ↦ rw (other-value c d, d) refl
]

digit-plain :
    (c : ℕ) → isdigit c ≡ true → (isspace c ≡ false) × ((c == b'-') ≡ false) × ((c == b'+') ≡ false)
unfolding isdigit isspace
digit-plain c h = (ground arith, ground arith, ground arith)

unprefixed_ten : (s : Bytes) → unprefixed 10 s ≡ s
unfolding unprefixed
unprefixed_ten [] = refl
unprefixed_ten (x ∷ []) = refl
unprefixed_ten (x ∷ y ∷ []) = refl
unprefixed_ten (x ∷ y ∷ z ∷ s) = refl

signed_ten :
    (c : ℕ) (s : Bytes)
    → (c == b'-') ≡ false
    → (c == b'+') ≡ false
    → signed 10 (c ∷ s) ≡ pos (at_most long_max (magnitude 10 0 (c ∷ s)))
unfolding signed
signed_ten c s minus plus = rw (minus, plus, unprefixed_ten (c ∷ s)) refl

-- A number's text is read as the number.
strtol-digits :
    (s : Bytes)
    → All (λ c. isdigit c ≡ true) s
    → read_digits 0 s ≤ long_max
    → strtol 10 s ≡ pos (read_digits 0 s)
unfolding strtol skip_spaces
strtol-digits [] h fits = unfold signed read_digits in refl
strtol-digits (c ∷ s) h fits =
    let (space, minus, plus) = digit-plain c h.0 in
    let skipped : skip_spaces (c ∷ s) ≡ c ∷ s = rw space refl in
    ap (signed 10) skipped
    ∙ signed_ten c s minus plus
    ∙ ap (λ m. pos (at_most long_max m)) (read_digits-magnitude 0 (c ∷ s))
    ∙ ap pos (ground arith)

pub int_of_text-decimal : (n : ℕ) → n < 2 ^ 31 → int_of_text (decimal n) ≡ pos n
unfolding int_of_text atoi
int_of_text-decimal n h =
    let value = atoi-decimal n in
    rw (strtol-digits (decimal n) (decimal-isdigit n) (omega (arith, value)), value)
      (let low : n % 2 ^ 32 ≡ n = omega arith in rw low (ground arith))
