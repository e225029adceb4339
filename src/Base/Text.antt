-- ===== src/Base/Text.antt =====
-- Byte strings: `std::string` is a list of numbers below 256, its bytes.
use Prim.Native.Nat.{ℕ, zero, suc, ◌+◌, ◌/◌, ◌%◌, ◌^◌, ◌<◌}
use Prim.Native.Char.{code}
use Prim.Native.String.{String}
use mathlib.Core.Path.{◌≡◌, refl}
use mathlib.Core.Logic.{◌↔◌}
use mathlib.Core.Bool.{Bool, true, false, ◌&&◌}
use mathlib.Core.List.{List, [], ◌∷◌, ◌++◌}
use mathlib.Core.Option
use mathlib.Core.Option.{Option, none, some}
use native.Mathlib.Omega.{arith}
use chimera_ape.Base.Tests.{ltb, ◌==◌, if◌then◌else◌}
use chimera_ape.Base.Lists.{length, take, drop}

abbrev pub Bytes : Type 0
Bytes = List ℕ

-- The code points of a text, which are its bytes where it is ASCII.
abbrev pub codes : String → Bytes
codes String.[] = []
codes (String.◌∷◌ c s) = code c ∷ codes s

-- `a == b` on strings.
unfoldable pub bytes_eq : Bytes → Bytes → Bool
bytes_eq [] [] = true
bytes_eq (x ∷ a) (y ∷ b) = x == y && bytes_eq a b
bytes_eq _ _ = false

pub bytes_eq_iff : (a b : Bytes) → (bytes_eq a b ≡ true) ↔ (a ≡ b)
unfolding bytes_eq
bytes_eq_iff (x ∷ a) (y ∷ b) = ground (arith, bytes_eq_iff a b)
bytes_eq_iff _ _ = ground arith

pub bytes_eq_refl : (a : Bytes) → bytes_eq a a ≡ true
bytes_eq_refl a = (bytes_eq_iff a a).1 refl

-- `s.empty()`
abbrev pub is_empty {ℓ} : {A : Type ℓ} → List A → Bool
is_empty [] = true
is_empty (_ ∷ _) = false

-- `s.compare(0, p.size(), p) == 0`
unfoldable pub starts_with : Bytes → Bytes → Bool
starts_with [] s = true
starts_with (p ∷ ps) [] = false
starts_with (p ∷ ps) (c ∷ s) = p == c && starts_with ps s

-- `s.substr(at, n)`, for `at` within the string.
abbrev pub substr : Bytes → ℕ → ℕ → Bytes
substr s at n = take n (drop at s)

-- The position of the first byte `c`: `s.find(c)`, with `none` for npos.
unfoldable pub index_of : ℕ → Bytes → Option ℕ
index_of c [] = none
index_of c (x ∷ xs) = if x == c then some 0 else Option.map suc (index_of c xs)

-- `s.find(c, at)`
unfoldable pub find_byte : Bytes → ℕ → ℕ → Option ℕ
find_byte s c at = Option.map (λ k. at + k) (index_of c (drop at s))

pub index_of-lt : (c : ℕ) (s : Bytes) {k : ℕ} → index_of c s ≡ some k → k < length s
unfolding index_of
index_of-lt c [] h = ground arith
index_of-lt c (x ∷ xs) {k = zero} h = omega arith
index_of-lt c (x ∷ xs) {k = suc k} h = ground (arith, index_of-lt c xs {k = k})

-- The first occurrence of a whole string: `s.find(p)`.
unfoldable pub find : Bytes → Bytes → Option ℕ
unfolding starts_with
find p [] = if starts_with p [] then some 0 else none
find p (c ∷ s) = if starts_with p (c ∷ s) then some 0 else Option.map suc (find p s)

-- What a stream holds after `o << a << b << …`.
abbrev pub stream : List Bytes → Bytes
stream [] = []
stream (a ∷ as') = a ++ stream as'

-- The bytes of a code point in UTF-8.
abbrev utf8_char : ℕ → Bytes
utf8_char c =
    if ltb c 0x80
    then c ∷ []
    else if ltb c 0x800
    then (0xc0 + c / 2 ^ 6) ∷ (0x80 + c % 2 ^ 6) ∷ []
    else if ltb c 0x10000
    then (0xe0 + c / 2 ^ 12) ∷ (0x80 + c / 2 ^ 6 % 2 ^ 6) ∷ (0x80 + c % 2 ^ 6) ∷ []
    else (0xf0 + c / 2 ^ 18)
      ∷ (0x80 + c / 2 ^ 12 % 2 ^ 6)
      ∷ (0x80 + c / 2 ^ 6 % 2 ^ 6)
      ∷ (0x80 + c % 2 ^ 6)
      ∷ []

abbrev encode : Bytes → Bytes
encode [] = []
encode (c ∷ cs) = utf8_char c ++ encode cs

-- The bytes of a text.
abbrev pub utf8 : String → Bytes
utf8 s = encode (codes s)
