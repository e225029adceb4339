-- ===== src/Chunk/Units.antt =====
-- src/chunk.cpp: segments longer than the maximum are cut, at a sentence's end where there is one.
pub mod Bounds
use chimera_ape.Base.{
  ℕ, zero, suc, ◌+◌, ◌-◌, Bool, ◌&&◌, ◌||◌, Option, none, some, List, [], ◌∷◌, ◌++◌, ltb, leb, ◌==◌,
  if◌then◌else◌, Bytes, length, get_or, isspace, while,
}
use chimera_ape.Chunk.{Span}

-- Byte `k - 1` ends a sentence, and a space or the text's end follows.
pub is_break : Bytes → ℕ → Bool
is_break t k =
    let c = get_or t (k - 1) 0 in
    (c == b'.' || c == b'!' || c == b'?' || c == b'\n')
    && (leb (length t) k || isspace (get_or t k 0))

-- `for (k = hi; k > lo + 1; --k)`, with `none` for npos.
pub sentence_break : Bytes → ℕ → ℕ → Option ℕ
sentence_break t lo zero = none
sentence_break t lo (suc k) =
    let rest = sentence_break t lo k in
    if ltb (lo + 1) (suc k) then (if is_break t (suc k) then some (suc k) else rest) else none

pub record SplitState : Type 0 where
  pub b : ℕ
  pub units : List Span

pub cut_at : Bytes → ℕ → ℕ → ℕ
cut_at t max b = elim (sentence_break t b (b + max)) [
  | none ↦ b + max
  | some cut ↦ if leb cut b then b + max else cut
]

pub cut_unit : Bytes → ℕ → SplitState → SplitState
cut_unit t max st =
    let cut = cut_at t max st.b in
    record { b = cut; units = st.units ++ record { begin = st.b; end = cut } ∷ [] }

-- Every round moves `b` forward, so the segment's length bounds the rounds.
pub split_loop : Bytes → ℕ → Span → List Span → SplitState
split_loop t max s units =
    while (s.end - s.begin + 1) (λ st. ltb max (s.end - st.b)) (cut_unit t max)
      (record { b = s.begin; units = units })

pub split_segment : Bytes → ℕ → Span → List Span → List Span
split_segment t max s units =
    let st = split_loop t max s units in
    if ltb st.b s.end then st.units ++ record { begin = st.b; end = s.end } ∷ [] else st.units

unfoldable pub split_segments : Bytes → ℕ → List Span → List Span → List Span
unfolding split_segment split_loop cut_unit cut_at sentence_break is_break while isspace
split_segments t max [] units = units
split_segments t max (s ∷ segs) units = split_segments t max segs (split_segment t max s units)
