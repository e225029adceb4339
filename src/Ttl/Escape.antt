-- ===== src/Ttl/Escape.antt =====
-- src/ttl.cpp: `ttl_escape`, for the inside of a quoted Turtle literal.
pub mod RoundTrip
use chimera_ape.Base.{ℕ, ◌+◌, ◌-◌, ◌/◌, ◌%◌, List, [], ◌∷◌, ◌++◌, ltb, ◌==◌, if◌then◌else◌, Bytes}

-- A digit of `%04X`.
pub upper_hex : ℕ → ℕ
upper_hex x = if ltb x 10 then b'0' + x else b'A' + (x - 10)

abbrev pub escaped : ℕ → Bytes
escaped c = b'\\' ∷ c ∷ []

-- The cases of the `switch`. A control character below 0x20 has two zero digits in `%04X`.
pub escape_byte : ℕ → Bytes
escape_byte c =
    if c == b'\\'
    then escaped b'\\'
    else if c == b'"'
    then escaped b'"'
    else if c == b'\n'
    then escaped b'n'
    else if c == b'\r'
    then escaped b'r'
    else if c == b'\t'
    then escaped b't'
    else if ltb c 0x20
    then b'\\' ∷ b'u' ∷ b'0' ∷ b'0' ∷ upper_hex (c / 16) ∷ upper_hex (c % 16) ∷ []
    else c ∷ []

unfoldable pub ttl_escape : Bytes → Bytes
unfolding escape_byte upper_hex
ttl_escape [] = []
ttl_escape (c ∷ s) = escape_byte c ++ ttl_escape s
