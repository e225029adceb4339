-- ===== src/Http/Dechunk.antt =====
-- src/http.cpp: `dechunk`, on the bytes from `i` on.
use mathlib.Core.Path.{subst}
use chimera_ape.Base.{
  ℕ, zero, suc, ◌+◌, ◌≤◌, ◌≡◌, ◌≢◌, refl, sym, ◌∙◌, ap, arith, false, none, some, List, [], ◌∷◌,
  ◌++◌, append_assoc, append-nil, All-append, ltb, ◌==◌, if◌then◌else◌, Bytes, starts_with, find,
  length, take, drop, isdigit, isupper, tolower, All, length-append,
}
use chimera_ape.Util.Strtol.{pos, negsuc, strtol, magnitude, digit_value, long_max}
use chimera_ape.Http.{crlf}
use chimera_ape.Http.HexNumber.{IsHex, hex-plain, strtol-digits}

-- With the number of bytes as fuel.
unfoldable pub dechunk_from : ℕ → Bytes → Bytes
unfolding find starts_with strtol
dechunk_from zero s = []
dechunk_from (suc fuel) s = elim (find crlf s) [
  | none ↦ []
  | some nl ↦ elim (strtol 16 s) [
    | negsuc n ↦ []
    | pos len ↦
        let bytes = drop (nl + 2) s in
        let later = dechunk_from fuel (drop (len + 2) bytes) in
        if len == 0 then [] else if ltb (length bytes) len then [] else take len bytes ++ later
  ]
]

unfoldable pub dechunk : Bytes → Bytes
unfolding dechunk_from
dechunk body = dechunk_from (length body) body

abbrev IsExtension : Bytes → Type 0
IsExtension [] = Unit
IsExtension (c ∷ e) = (c ≡ b';') × All (λ x. x ≢ 13) e

-- A size line: digits in either case for the number, and perhaps an extension.
pub record SizeLine (n : ℕ) (line : Bytes) : Type 0 where
  pub digits : Bytes
  pub extension : Bytes
  pub is_line : line ≡ digits ++ extension
  pub has_digits : digits ≢ []
  pub are_hex : All IsHex digits
  pub value : magnitude 16 0 digits ≡ n
  pub one_line : IsExtension extension

-- The bodies that carry a payload in chunks: the last chunk has size 0, and what follows its size
-- line is not read.
pub data Chunked : Bytes → Bytes → Type 0 where
  last : {line : Bytes} (rest : Bytes) → SizeLine 0 line → Chunked [] (line ++ (crlf ++ rest))
  chunk :
      {line bytes payload body : Bytes}
      → SizeLine (length bytes) line
      → bytes ≢ []
      → length bytes ≤ long_max
      → Chunked payload body
      → Chunked (bytes ++ payload) (line ++ (crlf ++ (bytes ++ (crlf ++ body))))

find-crlf :
    (line rest : Bytes)
    → All (λ c. c ≢ 13) line
    → find crlf (line ++ (crlf ++ rest)) ≡ some (length line)
unfolding find starts_with
find-crlf [] rest h = refl
find-crlf (c ∷ line) rest h = ground (arith, find-crlf line rest h.1, h.0)

extended-size :
    (digits extension rest : Bytes)
    → digits ≢ []
    → All IsHex digits
    → IsExtension extension
    → magnitude 16 0 digits ≤ long_max
    → strtol 16 (digits ++ extension ++ (crlf ++ rest)) ≡ pos (magnitude 16 0 digits)
extended-size digits [] rest some_digit hex ext fits = rw (append-nil digits) (
    strtol-digits digits 13 (10 ∷ rest) some_digit hex (unfold digit_value isdigit in omega arith)
      (unfold tolower isupper in refl) fits)
extended-size digits (c ∷ extension) rest some_digit hex ext fits =
    rw (ext.0, append_assoc digits (b';' ∷ extension) (crlf ++ rest))
      (strtol-digits digits b';' (extension ++ (crlf ++ rest)) some_digit hex
        (unfold digit_value isdigit in omega arith) (unfold tolower isupper in refl) fits)

-- The size line as the code reads it.
line_size :
    (n : ℕ) (line rest : Bytes)
    → SizeLine n line
    → n ≤ long_max
    → strtol 16 (line ++ (crlf ++ rest)) ≡ pos n
line_size n line rest s fits = rw s.is_line (
    extended-size s.digits s.extension rest s.has_digits s.are_hex s.one_line
      (omega (arith, s.value))
    ∙ ap pos s.value)

hex-no_cr : (digits : Bytes) → All IsHex digits → All (λ c. c ≢ 13) digits
hex-no_cr [] h = tt
hex-no_cr (c ∷ digits) h = ((hex-plain c h.0).0, hex-no_cr digits h.1)

extension-no_cr : (e : Bytes) → IsExtension e → All (λ c. c ≢ 13) e
extension-no_cr [] h = tt
extension-no_cr (c ∷ e) h = (λ cr. ground (arith, h.0), h.1)

line-no_cr : (n : ℕ) (line : Bytes) → SizeLine n line → All (λ c. c ≢ 13) line
line-no_cr n line s = subst (All (λ c. c ≢ 13)) (sym s.is_line) (
    All-append _ s.digits s.extension (hex-no_cr s.digits s.are_hex)
      (extension-no_cr s.extension s.one_line))

-- Past the bytes of `a`.
drop-append : {A : Type 0} (a b : List A) (n : ℕ) → drop (length a + n) (a ++ b) ≡ drop n b
drop-append [] b n = ap (λ k. drop k b) (omega arith)
drop-append (x ∷ a) b n =
    let e : suc (length a) + n ≡ suc (length a + n) = omega arith in rw e (drop-append a b n)

take-append : {A : Type 0} (a b : List A) → take (length a) (a ++ b) ≡ a
take-append [] b = refl
take-append (x ∷ a) b = ap (◌∷◌ x) (take-append a b)

-- One round, where `bytes` follows the size line.
abbrev round : ℕ → ℕ → Bytes → Bytes
round fuel len bytes =
    if len == 0
    then []
    else if ltb (length bytes) len
    then []
    else take len bytes ++ dechunk_from fuel (drop (len + 2) bytes)

dechunk_round :
    (fuel : ℕ) (n : ℕ) (line rest : Bytes)
    → SizeLine n line
    → n ≤ long_max
    → dechunk_from (suc fuel) (line ++ (crlf ++ rest)) ≡ round fuel n rest
unfolding dechunk_from
dechunk_round fuel n line rest s fits =
    rw (find-crlf line rest (line-no_cr n line s), dechunk_from)
      (rw (line_size n line rest s fits) (rw (drop-append line (crlf ++ rest) 2) refl))

round-chunk :
    (fuel : ℕ) (bytes rest : Bytes)
    → bytes ≢ []
    → round fuel (length bytes) (bytes ++ (crlf ++ rest)) ≡ bytes ++ dechunk_from fuel rest
round-chunk fuel [] rest some_byte = absurd (some_byte refl)
round-chunk fuel (b ∷ bytes) rest some_byte =
    let size : length ((b ∷ bytes) ++ (crlf ++ rest)) ≡ length (b ∷ bytes) + length (crlf ++ rest) =
      length-append (b ∷ bytes) (crlf ++ rest) in
    let enough : ltb (length ((b ∷ bytes) ++ (crlf ++ rest))) (length (b ∷ bytes)) ≡ false =
      ground (arith, size) in
    let some_len : (length (b ∷ bytes) == 0) ≡ false = ground arith in
    rw
      (some_len, enough, take-append bytes (crlf ++ rest), drop-append (b ∷ bytes) (crlf ++ rest) 2)
      refl

dechunk_from-Chunked :
    (fuel : ℕ) {payload body : Bytes}
    → Chunked payload body
    → length body ≤ fuel
    → dechunk_from fuel body ≡ payload
dechunk_from-Chunked zero (last {line} rest s) h =
    absurd (omega (arith, length-append line (crlf ++ rest)))
dechunk_from-Chunked zero (chunk {line} {bytes} {payload} {body} s some_byte fits c) h =
    absurd (omega (arith, length-append line (crlf ++ (bytes ++ (crlf ++ body)))))
dechunk_from-Chunked (suc fuel) (last {line} rest s) h =
    dechunk_round fuel 0 line rest s (omega arith)
dechunk_from-Chunked (suc fuel) (chunk {line} {bytes} {payload} {body} s some_byte fits c) h =
    dechunk_round fuel (length bytes) line (bytes ++ (crlf ++ body)) s fits
    ∙ round-chunk fuel bytes body some_byte
    ∙ ap (◌++◌ bytes) (
        dechunk_from-Chunked fuel c (
          omega (
            arith,
            length-append line (crlf ++ (bytes ++ (crlf ++ body))),
            length-append bytes (crlf ++ body),
            h,
          )))

-- A chunked body decodes to its payload: any sizes in hexadecimal digits of either case, with
-- extensions of the size lines and anything after the last one.
pub dechunk-Chunked : {payload body : Bytes} → Chunked payload body → dechunk body ≡ payload
unfolding dechunk
dechunk-Chunked {body = body} c = dechunk_from-Chunked (length body) c (omega arith)
