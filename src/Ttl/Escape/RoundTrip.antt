-- ===== src/Ttl/Escape/RoundTrip.antt =====
-- Reading an escaped text as a Turtle string literal, up to its closing quote.
use chimera_ape.Base.{
  ℕ, ◌+◌, ◌-◌, ◌*◌, ◌/◌, ◌%◌, ◌<◌, ◌≡◌, ◌≢◌, refl, ◌∙◌, Bool, true, false, ◌&&◌, ◌||◌, Option, none,
  some, [], ◌∷◌, ◌++◌, append_assoc, arith, leb, ◌==◌, if◌then◌else◌, Bytes,
}
use chimera_ape.Ttl.Escape.{upper_hex, escape_byte, ttl_escape}

-- STRING_LITERAL_QUOTE of the Turtle grammar, as a machine: inside the text, behind a backslash,
-- or with `n` digits of a \u escape to come.
pub data Mode : Type 0 where
  plain : Mode
  behind : Mode
  digits : ℕ → ℕ → Mode

hex_digit_value : ℕ → Option ℕ
hex_digit_value c =
    if leb b'0' c && leb c b'9'
    then some (c - b'0')
    else if leb b'A' c && leb c b'F'
    then some (c - b'A' + 10)
    else if leb b'a' c && leb c b'f'
    then some (c - b'a' + 10)
    else none

-- The next mode and the characters read.
abbrev Read : Type 0
Read = Option (Mode × Bytes)

read_plain : ℕ → Read
read_plain c =
    if c == b'\\'
    then some (behind, [])
    else if c == b'\n' || c == b'\r'
    then none
    else some (plain, c ∷ [])

read_behind : ℕ → Read
read_behind c =
    if c == b'n'
    then some (plain, b'\n' ∷ [])
    else if c == b'r'
    then some (plain, b'\r' ∷ [])
    else if c == b't'
    then some (plain, b'\t' ∷ [])
    else if c == b'b'
    then some (plain, 8 ∷ [])
    else if c == b'f'
    then some (plain, 12 ∷ [])
    else if c == b'"' || c == b'\\' || c == 39
    then some (plain, c ∷ [])
    else if c == b'u'
    then some (digits 4 0, [])
    else if c == b'U'
    then some (digits 8 0, [])
    else none

read_digit : ℕ → ℕ → Option ℕ → Read
read_digit left acc none = none
read_digit left acc (some d) =
    if left == 1
    then some (plain, (acc * 16 + d) ∷ [])
    else some (digits (left - 1) (acc * 16 + d), [])

read_byte : Mode → ℕ → Read
read_byte plain c = read_plain c
read_byte behind c = read_behind c
read_byte (digits left acc) c = read_digit left acc (hex_digit_value c)

abbrev is_plain : Mode → Bool
is_plain plain = true
is_plain _ = false

-- The literal's text and what follows its closing quote.
abbrev prepend : Bytes → Option (Bytes × Bytes) → Option (Bytes × Bytes)
prepend cs none = none
prepend cs (some (text, rest)) = some (cs ++ text, rest)

pub literal : Mode → Bytes → Option (Bytes × Bytes)
literal m [] = none
literal m (c ∷ s) = elim (is_plain m && c == b'"') [
  | true ↦ some ([], s)
  | false ↦ elim (read_byte m c) [ none ↦ none | some (m', out) ↦ prepend out (literal m' s) ]
]

prepend-prepend :
    (a b : Bytes) (o : Option (Bytes × Bytes)) → prepend a (prepend b o) ≡ prepend (a ++ b) o
prepend-prepend a b none = refl
prepend-prepend a b (some (text, rest)) = rw append_assoc

literal_behind :
    (x c : ℕ) (s : Bytes)
    → read_behind x ≡ some (plain, c ∷ [])
    → literal plain (b'\\' ∷ x ∷ s) ≡ prepend (c ∷ []) (literal plain s)
unfolding literal read_byte read_plain
literal_behind x c s e = rw e (prepend-prepend [] (c ∷ []) (literal plain s))

hex_digit_value-upper_hex : (x : ℕ) → x < 16 → hex_digit_value (upper_hex x) ≡ some x
unfolding hex_digit_value upper_hex
hex_digit_value-upper_hex x h = ground arith

literal_verbatim :
    (c : ℕ) (s : Bytes)
    → c ≢ b'\\'
    → c ≢ b'"'
    → c ≢ b'\n'
    → c ≢ b'\r'
    → literal plain (c ∷ s) ≡ prepend (c ∷ []) (literal plain s)
unfolding literal read_byte read_plain
literal_verbatim c s h1 h2 h3 h4 = ground arith

-- One digit of a \u escape, and the last.
literal_digit :
    (left acc x d : ℕ) (s : Bytes)
    → (left == 1) ≡ false
    → hex_digit_value x ≡ some d
    → literal (digits left acc) (x ∷ s) ≡ prepend [] (literal (digits (left - 1) (acc * 16 + d)) s)
unfolding literal read_byte read_digit
literal_digit left acc x d s more e = ground arith

literal_last :
    (acc x d c : ℕ) (s : Bytes)
    → hex_digit_value x ≡ some d
    → acc * 16 + d ≡ c
    → literal (digits 1 acc) (x ∷ s) ≡ prepend (c ∷ []) (literal plain s)
unfolding literal read_byte read_digit
literal_last acc x d c s e f = ground arith

prepend_nil : (o : Option (Bytes × Bytes)) → prepend [] o ≡ o
prepend_nil none = refl
prepend_nil (some _) = refl

literal_control :
    (c : ℕ) (s : Bytes)
    → c < 0x20
    → literal plain (b'\\' ∷ b'u' ∷ b'0' ∷ b'0' ∷ upper_hex (c / 16) ∷ upper_hex (c % 16) ∷ s)
      ≡ prepend (c ∷ []) (literal plain s)
literal_control c s h =
    let hi = hex_digit_value-upper_hex (c / 16) (omega arith) in
    let lo = hex_digit_value-upper_hex (c % 16) (omega arith) in
    let z : hex_digit_value b'0' ≡ some 0 = unfold hex_digit_value in refl in
    let tail = upper_hex (c / 16) ∷ upper_hex (c % 16) ∷ s in
    begins (b'0' ∷ b'0' ∷ tail)
    ∙ literal_digit 4 0 b'0' 0 (b'0' ∷ tail) refl z
    ∙ prepend_nil _
    ∙ literal_digit 3 0 b'0' 0 tail refl z
    ∙ prepend_nil _
    ∙ literal_digit 2 0 _ (c / 16) (upper_hex (c % 16) ∷ s) refl hi
    ∙ prepend_nil _
    ∙ literal_last (0 * 16 + c / 16) _ (c % 16) c s lo (omega arith)
  where
    begins : (t : Bytes) → literal plain (b'\\' ∷ b'u' ∷ t) ≡ literal (digits 4 0) t
    begins t = unfold literal read_byte read_plain read_behind in prepend_nil _ ∙ prepend_nil _

-- Reading the escape of one byte is reading that byte.
literal-escape_byte :
    (c : ℕ) (s : Bytes) → literal plain (escape_byte c ++ s) ≡ prepend (c ∷ []) (literal plain s)
unfolding escape_byte
literal-escape_byte c s = ground (
  arith,
  literal_behind b'\\' b'\\' s (unfold read_behind in refl),
  literal_behind b'"' b'"' s (unfold read_behind in refl),
  literal_behind b'n' b'\n' s (unfold read_behind in refl),
  literal_behind b'r' b'\r' s (unfold read_behind in refl),
  literal_behind b't' b'\t' s (unfold read_behind in refl),
  literal_control c s,
  literal_verbatim c s,
)

-- An escaped text between quotes is one literal: its text is the text that was escaped, whatever
-- bytes that holds, and it ends at the quote that was put behind it.
pub literal-ttl_escape :
    (s rest : Bytes) → literal plain (ttl_escape s ++ b'"' ∷ rest) ≡ some (s, rest)
unfolding ttl_escape
literal-ttl_escape [] rest = unfold literal in refl
literal-ttl_escape (c ∷ s) rest = rw (
  append_assoc (escape_byte c) (ttl_escape s) (b'"' ∷ rest),
  literal-escape_byte c,
  literal-ttl_escape s rest,
)
