-- ===== src/Search/Rank/Order.antt =====
-- The order of strings, `<` of std::string.
use chimera_ape.Base.{◌≡◌, refl, arith, true, false, [], ◌∷◌, Bytes, bytes_eq}
use chimera_ape.Search.Rank.{bytes_lt}

pub bytes_lt_irrefl : (a : Bytes) → bytes_lt a a ≡ false
unfolding bytes_lt
bytes_lt_irrefl [] = refl
bytes_lt_irrefl (x ∷ a) = ground (arith, bytes_lt_irrefl a)

pub bytes_lt_trans :
    (a b c : Bytes) → bytes_lt a b ≡ true → bytes_lt b c ≡ true → bytes_lt a c ≡ true
unfolding bytes_lt
bytes_lt_trans a b [] p q = ground arith
bytes_lt_trans a [] (z ∷ c) p q = absurd (ground arith)
bytes_lt_trans [] (y ∷ b) (z ∷ c) p q = refl
bytes_lt_trans (x ∷ a) (y ∷ b) (z ∷ c) p q = ground (arith, bytes_lt_trans a b c)

pub bytes_lt_total :
    (a b : Bytes) → bytes_eq a b ≡ false → bytes_lt a b ≡ false → bytes_lt b a ≡ true
unfolding bytes_lt bytes_eq
bytes_lt_total [] [] p q = absurd (ground arith)
bytes_lt_total [] (y ∷ b) p q = absurd (ground arith)
bytes_lt_total (x ∷ a) [] p q = refl
bytes_lt_total (x ∷ a) (y ∷ b) p q = ground (arith, bytes_lt_total a b)
