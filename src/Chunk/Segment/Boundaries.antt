-- ===== src/Chunk/Segment/Boundaries.antt =====
-- The segments of a text are its bytes in order, each in one segment.
use chimera_ape.Base.{
  ℕ, ◌+◌, ◌-◌, ◌≤◌, ◌<◌, ◌≡◌, Bool, true, false, inl, inr, List, [], ◌∷◌, ◌++◌, arith, ltb, ltb→lt,
  if◌then◌else◌, Option-cases, Bytes, find_byte, index_of, index_of-lt, length, length-drop, drop,
  while_inv,
}
use chimera_ape.Chunk.{Span, Tiles}
use chimera_ape.Chunk.Segment.{
  SegmentState, flush, line_end, next_line, code_line, heading_line, blank_line, read_line,
  segment_start, segment_loop, segment, is_code,
}

pub Tiles-snoc :
    (a : ℕ) (ss : List Span) {m e : ℕ}
    → Tiles a ss m
    → m < e
    → Tiles a (ss ++ record { begin = m; end = e } ∷ []) e
Tiles-snoc a [] h lt = ground arith
Tiles-snoc a (s ∷ ss) h lt = (h.0, h.1, Tiles-snoc s.end ss h.2 lt)

pub Tiles-le : (a : ℕ) (ss : List Span) {b : ℕ} → Tiles a ss b → a ≤ b
Tiles-le a [] h = omega arith
Tiles-le a (s ∷ ss) h = omega (arith, Tiles-le s.end ss h.2)

-- The flushed segments are the text up to the open one, which begins before the next line.
pub record Inv (n : ℕ) (st : SegmentState) : Type 0 where
  pub tiles : Tiles 0 st.segs st.seg_start
  pub open_le : st.seg_start ≤ st.i
  pub read_le : st.i ≤ n

module _ (n : ℕ) (end : ℕ) (st : SegmentState) where
  pub flush-Tiles :
      Tiles 0 st.segs st.seg_start → st.seg_start ≤ end → Tiles 0 (flush end st).segs end
  unfolding flush
  flush-Tiles h le = ground (arith, Tiles-snoc 0 st.segs {m = st.seg_start} {e = end} h)

  flush-Inv : Inv n st → st.seg_start ≤ end → end ≤ st.i → Inv n (flush end st)
  unfolding flush
  flush-Inv v le le' = ground (arith, Tiles-snoc 0 st.segs {m = st.seg_start} {e = end} v.tiles)

pub line_end_bounds :
    (t : Bytes) (i : ℕ) → i ≤ length t → (i ≤ line_end t i) × (line_end t i ≤ length t)
unfolding line_end find_byte
line_end_bounds t i h = elim (Option-cases (index_of b'\n' (drop i t))) [
  | inl e ↦ rw (e, line_end) (h, omega arith)
  | inr (k, e) ↦
      rw (e, line_end) (omega arith, omega (arith, index_of-lt b'\n' (drop i t) e, length-drop i t))
]

module _ (n : ℕ) (t : Bytes) (start : ℕ) (st : SegmentState) (v : Inv n st)
    (le : start ≤ st.i) where
  code_line-Inv : Inv n (code_line t start st)
  unfolding code_line
  code_line-Inv = ground (arith, flush-Inv n start st v)

  heading_line-Inv : Inv n (heading_line t start st)
  unfolding heading_line
  heading_line-Inv = ground (arith, flush-Inv n start st v)

  i-heading_line : (heading_line t start st).i ≡ st.i
  unfolding heading_line flush
  i-heading_line = ground arith

  i-code_line : (code_line t start st).i ≡ st.i
  unfolding code_line flush
  i-code_line = ground arith

module _ (n : ℕ) (t : Bytes) (start nl : ℕ) (st : SegmentState) (v : Inv n st) where
  blank_line-Inv : Inv n (blank_line t start nl st)
  unfolding blank_line
  blank_line-Inv = ground (arith, flush-Inv n st.i st v)

  i-blank_line : (blank_line t start nl st).i ≡ st.i
  unfolding blank_line flush
  i-blank_line = ground arith

advance-Inv :
    (n nl : ℕ) (t : Bytes) (st : SegmentState)
    → Inv n st
    → st.i ≤ next_line t nl
    → next_line t nl ≤ n
    → Inv n (record st { i = next_line t nl })
advance-Inv n nl t st v le le' = record {
  tiles = v.tiles;
  open_le = omega arith;
  read_le = omega arith;
}

i-read_line :
    (code : Bool) (t : Bytes) (st : SegmentState)
    → Inv (length t) st
    → st.i < length t
    → (Inv (length t) (read_line code t st))
      × (length t - (read_line code t st).i < length t - st.i)
unfolding read_line
i-read_line code t st v lt =
    let nl = line_end t st.i in
    let b = line_end_bounds t st.i (omega arith) in
    let le : st.i < next_line t nl = ground arith in
    let le' : next_line t nl ≤ length t = ground arith in
    let read = record st { i = next_line t nl } in
    let v' = advance-Inv (length t) nl t st v (omega arith) le' in
    lines code read nl v' (omega arith) le
  where
    lines :
        (code : Bool) (read : SegmentState) (nl : ℕ)
        → Inv (length t) read
        → st.i ≤ read.i
        → st.i < read.i
        → (Inv (length t) (
            if code
            then code_line t st.i read
            else blank_line t st.i nl (heading_line t st.i read)))
          × (length t
                - (if code
                    then code_line t st.i read
                    else blank_line t st.i nl (heading_line t st.i read)).i
              < length t - st.i)
    lines true read nl v' le lt' = (
      code_line-Inv (length t) t st.i read v' le,
      omega (arith, i-code_line (length t) t st.i read v' le),
    )
    lines false read nl v' le lt' =
        let hv = heading_line-Inv (length t) t st.i read v' le in
        (
          blank_line-Inv (length t) t st.i nl (heading_line t st.i read) hv,
          omega (
            arith,
            i-heading_line (length t) t st.i read v' le,
            i-blank_line (length t) t st.i nl (heading_line t st.i read) hv,
          ),
        )

-- The loop ends by its own test, with the flushed segments a tiling up to the open one.
segment_loop-Inv :
    (t : Bytes) (code : Bool)
    → Inv (length t) (segment_loop t code) × (ltb (segment_loop t code).i (length t) ≡ false)
unfolding segment_loop
segment_loop-Inv t code =
    while_inv (Inv (length t)) (λ st. length t - st.i) _ (read_line code t)
      (λ st v e. i-read_line code t st v (ltb→lt _ _ e)) (length t + 1) segment_start (omega arith)
      (omega arith)

-- The loop over the lines ends by its own test for every text and type, and the segments are
-- nonempty, follow one another without a gap, and run from 0 to the text's length.
pub segment-Tiles :
    (t mime : Bytes)
    → (ltb (segment_loop t (is_code mime)).i (length t) ≡ false)
      × Tiles 0 (segment t mime) (length t)
unfolding segment
segment-Tiles t mime =
    let (v, done) = segment_loop-Inv t (is_code mime) in
    (done, flush-Tiles (length t) (length t) (segment_loop t (is_code mime)) v.tiles (omega arith))
