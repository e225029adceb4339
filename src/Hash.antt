-- ===== src/Hash.antt =====
-- src/hash.cpp: document identity. The two hash libraries are parameters: what each returns for the
-- pieces that it is fed one after another.
pub mod Taps
use mathlib.Core.Option
use chimera_ape.Base.{
  ℕ, zero, suc, ◌+◌, ◌-◌, ◌*◌, ◌/◌, ◌%◌, ◌^◌, Bool, Option, none, some, List, [], ◌∷◌, ltb, leb,
  if◌then◌else◌, Bytes, length, take, drop,
}
use chimera_ape.Util.Hex.{to_hex}

-- The first 8 bytes of BLAKE3, the high 64 bits of XXH3-128, and XXH3-64.
pub record Hashes : Type 0 where
  pub blake3 : List Bytes → Bytes
  pub xxh3_high64 : List Bytes → ℕ
  pub xxh3_64 : Bytes → ℕ

-- `kTap`, `kWholeLimit`
abbrev pub tap : ℕ
tap = 64 * 1024

abbrev pub whole_limit : ℕ
whole_limit = 3 * tap

-- `none` is a short read.
unfoldable pub read_at : Bytes → ℕ → ℕ → Option Bytes
read_at f off n = if ltb (length (drop off f)) n then none else some (take n (drop off f))

-- A `uint64_t` in memory, least byte first.
pub le_bytes : ℕ → ℕ → Bytes
le_bytes zero v = []
le_bytes (suc n) v = v % 2 ^ 8 ∷ le_bytes n (v / 2 ^ 8)

-- Bytes `8 - n` and on of `h >> (56 - 8 * i)`.
pub be_bytes : ℕ → ℕ → Bytes
be_bytes zero h = []
be_bytes (suc n) h = h / 2 ^ (8 * n) % 2 ^ 8 ∷ be_bytes n h

-- `fread` of at most 64 KiB until it returns 0, with the file's length as fuel.
pub blocks : ℕ → Bytes → List Bytes
blocks fuel [] = []
blocks zero (c ∷ f) = []
blocks (suc fuel) (c ∷ f) = take (2 ^ 16) (c ∷ f) ∷ blocks fuel (drop (2 ^ 16) (c ∷ f))

-- `for (long long off : offs)`
pub taps : Bytes → List ℕ → Option (List Bytes)
unfolding read_at
taps f [] = some []
taps f (off ∷ offs) = elim (read_at f off tap) [
  | none ↦ none
  | some piece ↦ Option.map (◌∷◌ piece) (taps f offs)
]

unfoldable pub offsets : ℕ → List ℕ
offsets size = 0 ∷ (size / 2 - tap / 2) ∷ (size - tap) ∷ []

-- What is fed to XXH3 after the size.
pub samples : Bytes → Option (List Bytes)
unfolding taps offsets
samples f = if leb (length f) whole_limit then some (f ∷ []) else taps f (offsets (length f))

-- The file's contents, or `none` where it cannot be opened.
unfoldable pub triple_tap : Hashes → Bool → Option Bytes → Option Bytes
unfolding blocks samples le_bytes be_bytes to_hex
triple_tap h paranoid none = none
triple_tap h paranoid (some f) =
    if paranoid
    then some (to_hex (h.blake3 (blocks (length f) f)))
    else Option.map (λ ps. to_hex (be_bytes 8 (h.xxh3_high64 (le_bytes 8 (length f) ∷ ps))))
        (samples f)

abbrev pub vec_key : Hashes → Bytes → ℕ
vec_key h chunk_id = h.xxh3_64 chunk_id
