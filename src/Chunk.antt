-- ===== src/Chunk.antt =====
-- src/chunk.h and src/chunk.cpp: the data of structure-aware chunking. Offsets are `size_t` and
-- `int64_t` in the code; all of them stay within the text's length, so no sum wraps, and each
-- difference is taken of a larger and a smaller offset.
pub mod Segment
pub mod Units
pub mod Assemble
pub mod Html
use chimera_ape.Base.{ℕ, ◌*◌, ◌/◌, ◌≡◌, ◌<◌, List, [], ◌∷◌, Bytes}

-- A byte span, end exclusive.
pub record Span : Type 0 where
  pub begin : ℕ
  pub end : ℕ

pub record Chunk : Type 0 where
  pub ordinal : ℕ
  pub byte_start : ℕ
  pub byte_end : ℕ
  pub text : Bytes

-- `overlap` is a double in the code; here it is a whole number of hundredths.
pub record ChunkOptions : Type 0 where
  pub target_tokens : ℕ
  pub max_tokens : ℕ
  pub overlap_percent : ℕ

abbrev pub default_options : ChunkOptions
default_options = record { target_tokens = 768; max_tokens = 1024; overlap_percent = 15 }

abbrev pub bytes_per_token : ℕ
bytes_per_token = 4

abbrev pub target_bytes : ChunkOptions → ℕ
target_bytes o = o.target_tokens * bytes_per_token

abbrev pub max_bytes : ChunkOptions → ℕ
max_bytes o = o.max_tokens * bytes_per_token

abbrev pub overlap_bytes : ChunkOptions → ℕ
overlap_bytes o = target_bytes o * o.overlap_percent / 100

-- Nonempty spans that follow one another without a gap, from `a` to `b`.
abbrev pub Tiles : ℕ → List Span → ℕ → Type 0
Tiles a [] b = a ≡ b
Tiles a (s ∷ ss) b = (s.begin ≡ a) × (s.begin < s.end) × Tiles s.end ss b
