-- ===== src/Util/Base64.antt =====
-- src/util.h: `base64_encode`. A byte is a number below 256; a shift to the left is a product, to
-- the right a quotient, `& 63` a remainder, and `|` a sum, since the operands share no bit.
pub mod RoundTrip
use chimera_ape.Base.{ℕ, ◌+◌, ◌*◌, ◌/◌, ◌%◌, List, [], ◌∷◌, ◌++◌, Bytes, codes, get_or, ◌^◌}

abbrev pub table : Bytes
table = codes "ABCDEFGHIJKLMNOPQRSTUVWXYZabcdefghijklmnopqrstuvwxyz0123456789+/"

pub digit : ℕ → ℕ
digit v = get_or table v 0

-- The four characters of a 24-bit group.
pub group : ℕ → Bytes
group v =
    digit (v / 2 ^ 18) ∷ digit (v / 2 ^ 12 % 64) ∷ digit (v / 2 ^ 6 % 64) ∷ digit (v % 64) ∷ []

unfoldable pub base64_encode : Bytes → Bytes
unfolding digit group
base64_encode (a ∷ b ∷ c ∷ rest) = group (a * 2 ^ 16 + b * 2 ^ 8 + c) ++ base64_encode rest
base64_encode (a ∷ b ∷ []) =
    let v = a * 2 ^ 16 + b * 2 ^ 8 in
    digit (v / 2 ^ 18) ∷ digit (v / 2 ^ 12 % 64) ∷ digit (v / 2 ^ 6 % 64) ∷ codes "="
base64_encode (a ∷ []) =
    let v = a * 2 ^ 16 in digit (v / 2 ^ 18) ∷ digit (v / 2 ^ 12 % 64) ∷ codes "=="
base64_encode [] = []
