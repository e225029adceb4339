-- ===== src/Tests/Hashing.antt =====
-- Runs of src/hash.cpp, with sums in place of the hashes.
use chimera_ape.Base.{
  ℕ, zero, suc, ◌+◌, ◌%◌, ◌<◌, ◌≡◌, refl, arith, false, some, List, [], ◌∷◌, Bytes, codes, length,
  All, take, drop, ◌/◌, ◌-◌, ◌≤◌,
}
use chimera_ape.Hash.{Hashes, whole_limit, samples, triple_tap}
use chimera_ape.Hash.Taps.{samples-Apart}

abbrev pub sum : Bytes → ℕ
sum [] = 0
sum (c ∷ s) = c + sum s

abbrev pub sums : List Bytes → ℕ
sums [] = 0
sums (b ∷ bs) = sum b + sums bs

abbrev pub sample_hashes : Hashes
sample_hashes = record {
  blake3 = λ ps. sums ps % 256 ∷ [];
  xxh3_high64 = λ ps. sums ps;
  xxh3_64 = λ b. sum b;
}

sample_hashes-blake3 : (ps : List Bytes) → All (λ x. x < 256) (sample_hashes.blake3 ps)
sample_hashes-blake3 ps = (omega arith, tt)

triple_tap_run :
    triple_tap sample_hashes false (some (codes "ab")) ≡ some (codes "00000000000000c5")
unfolding triple_tap
triple_tap_run = refl

zeros : ℕ → Bytes
zeros zero = []
zeros (suc n) = 0 ∷ zeros n

length-zeros : (n : ℕ) → length (zeros n) ≡ n
unfolding zeros
length-zeros zero = refl
length-zeros (suc n) = omega (arith, length-zeros n)

-- One byte over the limit.
abbrev large : Bytes
large = zeros (whole_limit + 1)

large-length : whole_limit < length large
large-length = omega (arith, length-zeros (whole_limit + 1))

samples-Apart_example :
    (samples large
      ≡ some (
          take 65536 large
          ∷ take 65536 (drop (length large / 2 - 32768) large)
          ∷ take 65536 (drop (length large - 65536) large)
          ∷ []))
    × (65536 ≤ length large / 2 - 32768)
    × (length large / 2 - 32768 + 65536 ≤ length large - 65536)
samples-Apart_example = samples-Apart large large-length
