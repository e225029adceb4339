-- ===== src/Chunk/Units/Bounds.antt =====
-- The units cover what the segments cover, and none is longer than the maximum.
use chimera_ape.Base.{
  ℕ, zero, suc, ◌+◌, ◌-◌, ◌≤◌, ◌<◌, ◌≡◌, Bool, true, false, inl, inr, none, some, List, [], ◌∷◌,
  arith, ◌⊎◌, get_or, length, isspace, ltb, ltb→lt, ltb→le, Bool-cases, Option, Option-cases, Bytes,
  All, All-append, while_inv,
}
use chimera_ape.Chunk.{Span, Tiles}
use chimera_ape.Chunk.Segment.Boundaries.{Tiles-snoc}
use chimera_ape.Chunk.Units.{
  is_break, sentence_break, SplitState, cut_at, cut_unit, split_loop, split_segment, split_segments,
}

-- A property of the numbers up to `n`, and of the next.
below-suc :
    (p : ℕ → Bool) (lo n : ℕ)
    → ((k : ℕ) → lo < k → k ≤ n → p k ≡ false)
    → p (suc n) ≡ false
    → (k : ℕ) → lo < k
    → k ≤ suc n
    → p k ≡ false
below-suc p lo n f last k h h' = elim (Bool-cases (ltb k (suc n))) [
  | inl e ↦ f k h (omega (arith, ltb→lt k (suc n) e))
  | inr e ↦ let same : k ≡ suc n = omega (arith, ltb→le k (suc n) e) in rw same last
]

-- What the search returns for the range `(lo + 1, hi]`, by the code's own test.
abbrev Found : Bytes → ℕ → ℕ → Option ℕ → Type 0
Found t lo hi none = (k : ℕ) → lo + 1 < k → k ≤ hi → is_break t k ≡ false
Found t lo hi (some cut) =
    (lo + 1 < cut)
    × (cut ≤ hi)
    × (is_break t cut ≡ true)
    × ((k : ℕ) → cut < k → k ≤ hi → is_break t k ≡ false)

Found-suc :
    (t : Bytes) (lo n : ℕ) (o : Option ℕ)
    → lo + 1 < suc n
    → is_break t (suc n) ≡ false
    → Found t lo n o
    → Found t lo (suc n) o
Found-suc t lo n none lt no_break h = below-suc (is_break t) (lo + 1) n h no_break
Found-suc t lo n (some cut) lt no_break h =
    (h.0, omega arith, h.2, below-suc (is_break t) cut n h.3 no_break)

sentence_break-Found : (t : Bytes) (lo hi : ℕ) → Found t lo hi (sentence_break t lo hi)
unfolding sentence_break
sentence_break-Found t lo zero = λ k h h'. absurd (omega arith)
sentence_break-Found t lo (suc n) = elim (Bool-cases (ltb (lo + 1) (suc n))) [
  | inl more ↦ rw more (elim (Bool-cases (is_break t (suc n))) [
    | inl found ↦
        rw found (ltb→lt (lo + 1) (suc n) more, omega arith, found, λ k h h'. absurd (omega arith))
    | inr no_break ↦
        rw no_break
          (Found-suc t lo n _ (ltb→lt (lo + 1) (suc n) more) no_break (sentence_break-Found t lo n))
  ])
  | inr stop ↦ rw stop (λ k h h'. absurd (omega (arith, ltb→le (lo + 1) (suc n) stop)))
]

-- A sentence ends before position `k`: with a period, an exclamation or question mark or a newline,
-- at the end of the text or where white space follows.
abbrev pub EndsAt : Bytes → ℕ → Type 0
EndsAt t k =
    ((get_or t (k - 1) 0 ≡ b'.')
      ⊎ (get_or t (k - 1) 0 ≡ b'!')
      ⊎ (get_or t (k - 1) 0 ≡ b'?')
      ⊎ (get_or t (k - 1) 0 ≡ b'\n'))
    × ((length t ≤ k) ⊎ (isspace (get_or t k 0) ≡ true))

is_break-EndsAt : (t : Bytes) (k : ℕ) → is_break t k ≡ true → EndsAt t k
unfolding is_break
is_break-EndsAt t k e = ground arith

EndsAt-is_break : (t : Bytes) (k : ℕ) → EndsAt t k → is_break t k ≡ true
unfolding is_break
EndsAt-is_break t k e = ground arith

not-EndsAt : (t : Bytes) (k : ℕ) → is_break t k ≡ false → ¬ EndsAt t k
not-EndsAt t k no_break e = let found = EndsAt-is_break t k e in ground (arith, no_break, found)

-- The last end of a sentence in `(lo + 1, hi]`.
abbrev pub LastBreak : Bytes → ℕ → ℕ → Option ℕ → Type 0
LastBreak t lo hi none = (k : ℕ) → lo + 1 < k → k ≤ hi → ¬ EndsAt t k
LastBreak t lo hi (some cut) =
    (lo + 1 < cut) × (cut ≤ hi) × EndsAt t cut × ((k : ℕ) → cut < k → k ≤ hi → ¬ EndsAt t k)

Found-LastBreak : (t : Bytes) (lo hi : ℕ) (o : Option ℕ) → Found t lo hi o → LastBreak t lo hi o
Found-LastBreak t lo hi none h = λ k a b. not-EndsAt t k (h k a b)
Found-LastBreak t lo hi (some cut) h =
    (h.0, h.1, is_break-EndsAt t cut h.2, λ k a b. not-EndsAt t k (h.3 k a b))

-- The break found is the last end of a sentence at or below `hi`, and lies beyond `lo + 1`; when none
-- is returned, there is none in that range.
pub sentence_break-LastBreak : (t : Bytes) (lo hi : ℕ) → LastBreak t lo hi (sentence_break t lo hi)
sentence_break-LastBreak t lo hi =
    Found-LastBreak t lo hi (sentence_break t lo hi) (sentence_break-Found t lo hi)

cut_at_bounds :
    (t : Bytes) (max b : ℕ) → 0 < max → (b < cut_at t max b) × (cut_at t max b ≤ b + max)
unfolding cut_at
cut_at_bounds t max b h = elim (Option-cases (sentence_break t b (b + max))) [
  | inl e ↦ rw (e, cut_at) (omega arith, omega arith)
  | inr (cut, e) ↦
      let l = rw e at (sentence_break-Found t b (b + max)) in rw (e, cut_at) (ground arith)
]

abbrev IsSmall : ℕ → Span → Type 0
IsSmall max u = u.end - u.begin ≤ max

module _ (a : ℕ) (t : Bytes) (max : ℕ) (s : Span) (pos : 0 < max) where
  record Inv (st : SplitState) : Type 0 where
    tiles : Tiles a st.units st.b
    small : All (IsSmall max) st.units
    within : st.b ≤ s.end

  cut_unit-Inv :
      (st : SplitState)
      → Inv st
      → ltb max (s.end - st.b) ≡ true
      → Inv (cut_unit t max st) × (s.end - (cut_unit t max st).b < s.end - st.b)
  unfolding cut_unit
  cut_unit-Inv st v e =
      let c = cut_at_bounds t max st.b pos in
      let more = ltb→lt max (s.end - st.b) e in
      (
        record {
          tiles = Tiles-snoc a st.units v.tiles c.0;
          small = All-append (IsSmall max) st.units _ v.small (omega arith, tt);
          within = omega arith;
        },
        omega arith,
      )

  split_loop-Inv :
      (units : List Span)
      → Tiles a units s.begin
      → All (IsSmall max) units
      → s.begin ≤ s.end
      → Inv (split_loop t max s units) × (ltb max (s.end - (split_loop t max s units).b) ≡ false)
  unfolding split_loop
  split_loop-Inv units h small le =
      while_inv Inv (λ st. s.end - st.b) _ (cut_unit t max) cut_unit-Inv (s.end - s.begin + 1)
        (record { b = s.begin; units = units }) (omega arith)
        (record { tiles = h; small = small; within = le })

  split_segment-Tiles :
      (units : List Span)
      → Tiles a units s.begin
      → All (IsSmall max) units
      → s.begin ≤ s.end
      → Tiles a (split_segment t max s units) s.end
        × All (IsSmall max) (split_segment t max s units)
  unfolding split_segment
  split_segment-Tiles units h small le =
      let (v, stop) = split_loop-Inv units h small le in
      let st = split_loop t max s units in
      elim (Bool-cases (ltb st.b s.end)) [
        | inl rest ↦ rw rest (
          Tiles-snoc a st.units v.tiles (ltb→lt st.b s.end rest),
          All-append (IsSmall max) st.units _ v.small
              (omega (arith, ltb→le max (s.end - st.b) stop), tt),
        )
        | inr done ↦
            let e : st.b ≡ s.end = omega (arith, v.within, ltb→le st.b s.end done) in
            rw done (rw e at v.tiles, v.small)
      ]

-- The units of consecutive segments, after units that were there, follow one another without a gap,
-- and none is longer than the maximum, which is positive.
pub split_segments-Tiles :
    (t : Bytes) (max : ℕ) (segs units : List Span) (a m b : ℕ)
    → 0 < max
    → Tiles a units m
    → All (λ u. u.end - u.begin ≤ max) units
    → Tiles m segs b
    → Tiles a (split_segments t max segs units) b
      × All (λ u. u.end - u.begin ≤ max) (split_segments t max segs units)
unfolding split_segments
split_segments-Tiles t max [] units a m b pos h small rest = (rw rest at h, small)
split_segments-Tiles t max (s ∷ segs) units a m b pos h small rest =
    let (h', small') =
      split_segment-Tiles a t max s pos units (rw (← rest.0) at h) small (omega arith) in
    split_segments-Tiles t max segs (split_segment t max s units) a s.end b pos h' small' rest.2
