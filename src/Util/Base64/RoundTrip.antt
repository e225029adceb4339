-- ===== src/Util/Base64/RoundTrip.antt =====
-- Decoding, after RFC 4648, gives back what was encoded.
use chimera_ape.Base.{
  ℕ, zero, suc, ◌+◌, ◌*◌, ◌/◌, ◌%◌, ◌^◌, ◌<◌, ◌≡◌, refl, Bool, true, ◌&&◌, Option, none, some, [],
  ◌∷◌, ◌++◌, arith, ◌==◌, ==_iff, if◌then◌else◌, Bytes, leb, ◌-◌, All, false, ap, get_or, length,
  ◌∙◌,
}
use chimera_ape.Util.Base64.{table, digit, group, base64_encode}

-- The value of a character, after the table of RFC 4648: letters, digits, `+` and `/`.
value : ℕ → Option ℕ
value c =
    if leb b'A' c && leb c b'Z'
    then some (c - b'A')
    else if leb b'a' c && leb c b'z'
    then some (c - b'a' + 26)
    else if leb b'0' c && leb c b'9'
    then some (c - b'0' + 52)
    else if c == b'+'
    then some 62
    else if c == b'/'
    then some 63
    else none

-- What four characters stand for: three bytes, or fewer where the padding says so.
quad : Option ℕ → Option ℕ → ℕ → ℕ → Option Bytes
quad (some p) (some q) c d =
    let two = (p * 4 + q / 16) ∷ [] in
    elim (value c) [
      | none ↦ if c == b'=' && d == b'=' then some two else none
      | some r ↦ elim (value d) [
        | none ↦ if d == b'=' then some ((p * 4 + q / 16) ∷ (q % 16 * 16 + r / 4) ∷ []) else none
        | some s ↦ some ((p * 4 + q / 16) ∷ (q % 16 * 16 + r / 4) ∷ (r % 4 * 64 + s) ∷ [])
      ]
    ]
quad _ _ c d = none

abbrev join : Option Bytes → Option Bytes → Option Bytes
join (some a) (some b) = some (a ++ b)
join _ _ = none

pub base64_decode : Bytes → Option Bytes
base64_decode [] = some []
base64_decode (a ∷ b ∷ c ∷ d ∷ rest) = join (quad (value a) (value b) c d) (base64_decode rest)
base64_decode _ = none

-- Every digit has its own value: checked for all 64.
same : Option ℕ → ℕ → Bool
same none i = false
same (some k) i = k == i

-- The characters of a table have the values from `i` on.
counts_from : ℕ → Bytes → Bool
counts_from i [] = true
counts_from i (c ∷ cs) = same (value c) i && counts_from (i + 1) cs

value-get_or :
    (cs : Bytes) (i k : ℕ)
    → k < length cs
    → counts_from i cs ≡ true
    → same (value (get_or cs k 0)) (i + k) ≡ true
unfolding counts_from
value-get_or [] i k lt e = absurd (omega arith)
value-get_or (c ∷ cs) i zero lt e = let at : i + 0 ≡ i = omega arith in rw at (ground arith)
value-get_or (c ∷ cs) i (suc k) lt e =
    let at : i + suc k ≡ i + 1 + k = omega arith in
    rw at (value-get_or cs (i + 1) k (omega arith) (ground arith))

table_values : counts_from 0 table ≡ true
unfolding counts_from same value
table_values = refl

same-some : (o : Option ℕ) (i : ℕ) → same o i ≡ true → o ≡ some i
unfolding same
same-some none i e = cc
same-some (some k) i e = ap some ((==_iff k i).0 e)

value-digit : (i : ℕ) → i < 64 → value (digit i) ≡ some i
unfolding digit
value-digit i h =
    let at : 0 + i ≡ i = omega arith in
    same-some (value (digit i)) (0 + i) (value-get_or table 0 i h table_values) ∙ ap some at

value_pad : value b'=' ≡ none
unfolding value
value_pad = refl

-- The three bytes of a group's number.
abbrev bytes_of : ℕ → Bytes
bytes_of v = (v / 2 ^ 16) ∷ (v / 2 ^ 8 % 256) ∷ (v % 256) ∷ []

quad_three :
    (v : ℕ)
    → v < 2 ^ 24
    → quad
        (value (digit (v / 2 ^ 18)))
        (value (digit (v / 2 ^ 12 % 64)))
        (digit (v / 2 ^ 6 % 64))
        (digit (v % 64))
      ≡ some (bytes_of v)
unfolding quad
quad_three v h =
    let p = value-digit (v / 2 ^ 18) (omega arith) in
    let q = value-digit (v / 2 ^ 12 % 64) (omega arith) in
    let r = value-digit (v / 2 ^ 6 % 64) (omega arith) in
    let s = value-digit (v % 64) (omega arith) in
    let x : v / 2 ^ 18 * 4 + v / 2 ^ 12 % 64 / 16 ≡ v / 2 ^ 16 = omega arith in
    let y : v / 2 ^ 12 % 64 % 16 * 16 + v / 2 ^ 6 % 64 / 4 ≡ v / 2 ^ 8 % 256 = omega arith in
    let z : v / 2 ^ 6 % 64 % 4 * 64 + v % 64 ≡ v % 256 = omega arith in
    rw (p, q, r, s, quad, x, y, z)

quad_two :
    (v : ℕ)
    → v < 2 ^ 24
    → quad
        (value (digit (v / 2 ^ 18)))
        (value (digit (v / 2 ^ 12 % 64)))
        (digit (v / 2 ^ 6 % 64))
        b'='
      ≡ some ((v / 2 ^ 16) ∷ (v / 2 ^ 8 % 256) ∷ [])
unfolding quad
quad_two v h =
    let p = value-digit (v / 2 ^ 18) (omega arith) in
    let q = value-digit (v / 2 ^ 12 % 64) (omega arith) in
    let r = value-digit (v / 2 ^ 6 % 64) (omega arith) in
    let x : v / 2 ^ 18 * 4 + v / 2 ^ 12 % 64 / 16 ≡ v / 2 ^ 16 = omega arith in
    let y : v / 2 ^ 12 % 64 % 16 * 16 + v / 2 ^ 6 % 64 / 4 ≡ v / 2 ^ 8 % 256 = omega arith in
    rw (p, q, quad, r, value_pad, x, y)

quad_one :
    (v : ℕ)
    → v < 2 ^ 24
    → quad (value (digit (v / 2 ^ 18))) (value (digit (v / 2 ^ 12 % 64))) b'=' b'='
      ≡ some ((v / 2 ^ 16) ∷ [])
unfolding quad
quad_one v h =
    let p = value-digit (v / 2 ^ 18) (omega arith) in
    let q = value-digit (v / 2 ^ 12 % 64) (omega arith) in
    let x : v / 2 ^ 18 * 4 + v / 2 ^ 12 % 64 / 16 ≡ v / 2 ^ 16 = omega arith in
    rw (p, q, quad, value_pad, x)

-- Decoding the text of any byte string gives the byte string.
pub base64_decode-encode :
    (s : Bytes) → All (λ x. x < 256) s → base64_decode (base64_encode s) ≡ some s
unfolding base64_decode base64_encode
base64_decode-encode (a ∷ b ∷ c ∷ rest) h =
    let v = a * 2 ^ 16 + b * 2 ^ 8 + c in
    let x : v / 2 ^ 16 ≡ a = omega arith in
    let y : v / 2 ^ 8 % 256 ≡ b = omega arith in
    let z : v % 256 ≡ c = omega arith in
    unfold group in rw (quad_three v (omega arith), base64_decode-encode rest h.1.1.1, x, y, z)
base64_decode-encode (a ∷ b ∷ []) h =
    let v = a * 2 ^ 16 + b * 2 ^ 8 in
    let x : v / 2 ^ 16 ≡ a = omega arith in
    let y : v / 2 ^ 8 % 256 ≡ b = omega arith in rw (quad_two v (omega arith), x, y)
base64_decode-encode (a ∷ []) h =
    let v = a * 2 ^ 16 in let x : v / 2 ^ 16 ≡ a = omega arith in rw (quad_one v (omega arith), x)
base64_decode-encode [] h = refl
