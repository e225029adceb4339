-- ===== src/Walk/Sniff.antt =====
-- src/walk.cpp: `looks_binary`, a scan of the first bytes of a file.
pub mod Utf8
use chimera_ape.Base.{
  ℕ, zero, suc, ◌/◌, Bool, true, false, ◌&&◌, ◌||◌, Option, none, some, [], ◌∷◌, ltb, leb, ◌==◌,
  if◌then◌else◌, Bytes, length, drop, ◌^◌,
}

-- The number of continuation bytes that a lead byte wants; `none` for SIZE_MAX.
pub need : ℕ → Option ℕ
need c =
    if ltb c 0x80
    then some 0
    else if c / 2 ^ 5 == 0x6
    then some 1
    else if c / 2 ^ 4 == 0xe
    then some 2
    else if c / 2 ^ 3 == 0x1e
    then some 3
    else none

-- The next `n` bytes are continuation bytes.
pub all_continue : ℕ → Bytes → Bool
all_continue zero s = true
all_continue (suc n) [] = false
all_continue (suc n) (c ∷ s) = c / 2 ^ 6 == 0x2 && all_continue n s

-- `i + need >= n && need > 0`, for the bytes from `i` on.
pub is_cut : ℕ → Bytes → Bool
is_cut k rest = leb (length rest) k && ltb 0 k

-- The scan from a position on. Every round reads a byte, so the length bounds the rounds.
pub scan : ℕ → Bytes → Bool
scan f [] = false
scan zero (c ∷ s) = false
scan (suc f) (c ∷ s) = elim (need c) [
  | none ↦ true
  | some k ↦
      if is_cut k (c ∷ s)
      then false
      else elim (all_continue k s) [ true ↦ scan f (drop k s) | false ↦ true ]
]

pub has_nul : Bytes → Bool
has_nul [] = false
has_nul (c ∷ s) = c == 0 || has_nul s

unfoldable pub looks_binary : Bytes → Bool
unfolding has_nul scan is_cut all_continue need
looks_binary bytes = if has_nul bytes then true else scan (length bytes) bytes
