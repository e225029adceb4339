-- ===== src/Util/Decimal.antt =====
-- Decimal numbers: `std::to_string`, the `%d` of printf and `atoi`, on numbers that are not
-- negative and do not overflow the code's integer types.
use chimera_ape.Base.{
  ℕ, zero, suc, ◌+◌, ◌-◌, ◌*◌, ◌/◌, ◌%◌, ◌<◌, ◌≡◌, refl, ◌∙◌, true, inl, inr, [], ◌∷◌, ◌++◌, arith,
  ltb, ltb→lt, ltb→le, if◌then◌else◌, Bool-cases, Bytes, isdigit, All, All-append, if-cases,
}

-- The digits of `n`, the last first to be found; `n` itself bounds the rounds.
digits : ℕ → ℕ → Bytes
digits zero n = []
digits (suc f) n =
    let rest = digits f (n / 10) in (if ltb n 10 then [] else rest) ++ (b'0' + n % 10) ∷ []

unfoldable pub decimal : ℕ → Bytes
unfolding digits
decimal n = digits (n + 1) n

-- The value of the digits that a text begins with, after the value read so far.
unfoldable pub read_digits : ℕ → Bytes → ℕ
read_digits acc [] = acc
read_digits acc (c ∷ s) =
    let rest = read_digits (acc * 10 + (c - b'0')) s in if isdigit c then rest else acc

unfoldable pub atoi : Bytes → ℕ
unfolding read_digits isdigit
atoi = read_digits 0

read_digits-snoc :
    (s : Bytes) (acc d : ℕ)
    → All (λ c. isdigit c ≡ true) s
    → d < 10
    → read_digits acc (s ++ (b'0' + d) ∷ []) ≡ read_digits acc s * 10 + d
unfolding read_digits isdigit
read_digits-snoc [] acc d h lt = ground arith
read_digits-snoc (c ∷ s) acc d h lt = rw h.0 (read_digits-snoc s (acc * 10 + (c - b'0')) d h.1 lt)

digits-isdigit : (f n : ℕ) → All (λ c. isdigit c ≡ true) (digits f n)
unfolding digits isdigit
digits-isdigit zero n = tt
digits-isdigit (suc f) n =
    All-append (λ c. isdigit c ≡ true) (if ltb n 10 then [] else digits f (n / 10)) _
      (if-cases (All (λ c. isdigit c ≡ true)) (ltb n 10) _ _ (λ _. tt)
        (λ _. digits-isdigit f (n / 10)))
      (ground arith, tt)

read_digits-digits : (f n : ℕ) → n < f → read_digits 0 (digits f n) ≡ n
unfolding digits
read_digits-digits zero n h = absurd (omega arith)
read_digits-digits (suc f) n h =
    read_digits-snoc (if ltb n 10 then [] else digits f (n / 10)) 0 (n % 10)
      (if-cases (All (λ c. isdigit c ≡ true)) (ltb n 10) _ _ (λ _. tt)
        (λ _. digits-isdigit f (n / 10)))
      (omega arith)
    ∙ elim (Bool-cases (ltb n 10)) [
      | inl small ↦ rw small (unfold read_digits in omega (arith, ltb→lt n 10 small))
      | inr big ↦
          rw big (omega (arith, read_digits-digits f (n / 10) (omega (arith, ltb→le n 10 big))))
    ]

pub decimal-isdigit : (n : ℕ) → All (λ c. isdigit c ≡ true) (decimal n)
unfolding decimal
decimal-isdigit n = digits-isdigit (n + 1) n

-- Reading a number back from its decimal text gives the number.
pub atoi-decimal : (n : ℕ) → atoi (decimal n) ≡ n
unfolding atoi decimal
atoi-decimal n = read_digits-digits (n + 1) n (omega arith)

-- Leading zeros do not count.
pub atoi_zero : (s : Bytes) → atoi (b'0' ∷ s) ≡ atoi s
unfolding atoi
atoi_zero s = refl
