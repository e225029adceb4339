-- ===== src/Chunk/Assemble/Tiling.antt =====
-- The chunks of a text follow one another without a gap, and their sizes are bounded.
use mathlib.Core.Path.{subst}
use chimera_ape.Base.{
  ℕ, ◌+◌, ◌-◌, ◌/◌, ◌≤◌, ◌<◌, ◌≡◌, refl, sym, ◌&&◌, ◌⊎◌, inl, inr, List, [], ◌∷◌, ◌++◌, arith, ltb,
  leb, leb→le, if-cases, Bool-cases, Bytes, length, All,
}
use chimera_ape.Chunk.{Span, Chunk, ChunkOptions, target_bytes, max_bytes, overlap_bytes, Tiles}
use chimera_ape.Chunk.Segment.{segment}
use chimera_ape.Chunk.Segment.Boundaries.{segment-Tiles}
use chimera_ape.Chunk.Units.{split_segments}
use chimera_ape.Chunk.Units.Bounds.{split_segments-Tiles}
use chimera_ape.Chunk.Assemble.{
  AssembleState, overlap_start, open_chunk, emit, close_before, close_full, add_unit, add_units,
  first_begin, assemble, chunk_text,
}
use chimera_ape.Chunk.Assemble.Shape.{IsChunk, Chunks, overlap_start-IsLead}

-- The two bounds on a chunk's size: the target, or half the target and one whole unit.
abbrev IsSmall : ChunkOptions → ℕ → Type 0
IsSmall opts size = (size ≤ target_bytes opts) ⊎ (size ≤ target_bytes opts / 2 + max_bytes opts)

module _ (text : Bytes) (opts : ChunkOptions) where
  Chunks-snoc :
      (n a : ℕ) (cs : List Chunk) (c : Chunk) {m k : ℕ}
      → Chunks text opts n a cs m
      → k ≡ n + length cs
      → IsChunk text opts k m c
      → Chunks text opts n a (cs ++ c ∷ []) c.byte_end
  Chunks-snoc n a [] c h e ic = let e' : n ≡ _ = omega arith in rw (h, e') (ic, refl)
  Chunks-snoc n a (x ∷ cs) c h e ic =
      (h.0, Chunks-snoc (n + 1) x.byte_end cs c h.1 (omega arith) ic)

  open_chunk-IsChunk :
      (st : AssembleState)
      → st.cur_begin < st.cur_end
      → IsSmall opts (st.cur_end - st.cur_begin)
      → IsChunk text opts (length st.out) st.cur_begin (open_chunk text (overlap_bytes opts) st)
  unfolding open_chunk
  open_chunk-IsChunk st lt small =
      let (lead, first) = overlap_start-IsLead text (overlap_bytes opts) st in
      record {
        lead = overlap_start text (overlap_bytes opts) st;
        ordinal = refl;
        starts = refl;
        nonempty = lt;
        is_lead = lead;
        first = first;
        text_is = refl;
        small = elim small [ inl h ↦ inl (omega arith) | inr h ↦ inr (omega arith) ];
      }

  -- Emitting moves the tiling's end from the open chunk's start to its end.
  emit-Chunks :
      (st : AssembleState)
      → Chunks text opts 0 0 st.out st.cur_begin
      → st.cur_begin ≤ st.cur_end
      → IsSmall opts (st.cur_end - st.cur_begin)
      → Chunks text opts 0 0 (emit text (overlap_bytes opts) st).out st.cur_end
  unfolding emit
  emit-Chunks st h le small = elim (Bool-cases (leb st.cur_end st.cur_begin)) [
    | inl e ↦
        let same : st.cur_begin ≡ st.cur_end = omega (arith, leb→le _ _ e) in rw e (rw same at h)
    | inr e ↦ rw e (
        unfold open_chunk in
        Chunks-snoc 0 0 st.out (open_chunk text (overlap_bytes opts) st) h (omega arith)
          (open_chunk-IsChunk st (ground arith) small))
  ]

  cur_end-emit : (st : AssembleState) → (emit text (overlap_bytes opts) st).cur_end ≡ st.cur_end
  unfolding emit
  cur_end-emit st = ground arith

  -- The state between two units, the next of which begins at `m`.
  record Inv (m : ℕ) (st : AssembleState) : Type 0 where
    chunks : Chunks text opts 0 0 st.out st.cur_begin
    ordered : st.cur_begin ≤ st.cur_end
    ends : st.cur_end ≡ m
    small : st.cur_end - st.cur_begin < max_bytes opts

  -- Before the unit `u` is added: the open chunk and `u` together are small enough.
  record Ready (u : Span) (st : AssembleState) : Type 0 where
    chunks : Chunks text opts 0 0 st.out st.cur_begin
    ordered : st.cur_begin ≤ u.begin
    small : IsSmall opts (u.end - st.cur_begin)

  close_before-Ready :
      (u : Span) (st : AssembleState)
      → Inv u.begin st
      → u.begin < u.end
      → u.end - u.begin ≤ max_bytes opts
      → Ready u (close_before text opts u st)
  unfolding close_before
  close_before-Ready u st v lt fits =
      let small : IsSmall opts (st.cur_end - st.cur_begin) = inr (omega (arith, v.small)) in
      let cur_size = st.cur_end - st.cur_begin in
      let u_size = u.end - u.begin in
      let target = target_bytes opts in
      if-cases (Ready u)
        (ltb 0 cur_size && ltb target (cur_size + u_size) && leb (target / 2) cur_size) _ _
        (λ closed. record {
          chunks =
              subst (Chunks text opts 0 0 (emit text (overlap_bytes opts) st).out) v.ends
                (emit-Chunks st v.chunks v.ordered small);
          ordered = omega arith;
          small = inr (omega arith);
        })
        (λ open_still. record {
          chunks = v.chunks;
          ordered = omega (arith, v.ordered, v.ends);
          small = ground arith;
        })

  close_full-Inv :
      (u : Span) (st : AssembleState)
      → Ready u st
      → u.begin < u.end
      → 0 < max_bytes opts
      → Inv u.end (close_full text opts (record st { cur_end = u.end }))
  unfolding close_full
  close_full-Inv u st r lt pos =
      let full = record st { cur_end = u.end } in
      if-cases (Inv u.end) (leb (max_bytes opts) (u.end - st.cur_begin)) _ _
        (λ reached. record {
          chunks = emit-Chunks full r.chunks (omega arith) r.small;
          ordered = omega (arith, cur_end-emit full);
          ends = cur_end-emit full;
          small = omega (arith, cur_end-emit full, pos);
        })
        (λ below. record {
          chunks = r.chunks;
          ordered = omega (arith, r.ordered);
          ends = refl;
          small = ground arith;
        })

  add_unit-Inv :
      (u : Span) (st : AssembleState)
      → Inv u.begin st
      → u.begin < u.end
      → u.end - u.begin ≤ max_bytes opts
      → Inv u.end (add_unit text opts u st)
  unfolding add_unit
  add_unit-Inv u st v lt fits =
      close_full-Inv u (close_before text opts u st) (close_before-Ready u st v lt fits) lt
        (omega arith)

  add_units-Inv :
      (units : List Span) (st : AssembleState) (m b : ℕ)
      → Inv m st
      → Tiles m units b
      → All (λ u. u.end - u.begin ≤ max_bytes opts) units
      → Inv b (add_units text opts units st)
  unfolding add_units
  add_units-Inv [] st m b v h small = subst (λ k. Inv k st) h v
  add_units-Inv (u ∷ units) st m b v h small =
      add_units-Inv units (add_unit text opts u st) u.end b
        (add_unit-Inv u st (subst (λ k. Inv k st) (sym h.0) v) h.1 small.0) h.2 small.1

  assemble-Chunks :
      (units : List Span) (b : ℕ)
      → 0 < max_bytes opts
      → Tiles 0 units b
      → All (λ u. u.end - u.begin ≤ max_bytes opts) units
      → Chunks text opts 0 0 (assemble text opts units) b
  unfolding assemble first_begin
  assemble-Chunks [] b pos h small = unfold add_units emit in h
  assemble-Chunks (u ∷ units) b pos h small =
      let start : AssembleState = record { cur_begin = u.begin; cur_end = u.begin; out = [] } in
      let st = add_units text opts (u ∷ units) start in
      let v =
        add_units-Inv (u ∷ units) start u.begin b
          (record { chunks = sym h.0; ordered = omega arith; ends = refl; small = omega arith })
          (refl, h.1, h.2) small in
      subst (Chunks text opts 0 0 (emit text (overlap_bytes opts) st).out) v.ends
        (emit-Chunks st v.chunks v.ordered (inr (omega (arith, v.small))))

-- For every text, type and options with a positive maximum, the chunks are numbered from 1, their
-- spans are nonempty and follow one another from 0 to the text's length, and each chunk's text is
-- its span led by at most the overlap, which begins at no continuation byte (the first has no
-- lead). No span is longer than the target, or than half the target and the maximum together.
pub chunk_text-Chunks :
    (text mime : Bytes) (opts : ChunkOptions)
    → 0 < opts.max_tokens
    → Chunks text opts 0 0 (chunk_text text mime opts) (length text)
unfolding chunk_text
chunk_text-Chunks [] mime opts pos = refl
chunk_text-Chunks (c ∷ cs) mime opts pos =
    let text = c ∷ cs in
    let (h, small) =
      split_segments-Tiles text (max_bytes opts) (segment text mime) [] 0 0 (length text)
        (omega arith) refl tt (segment-Tiles text mime).1 in
    assemble-Chunks text opts (split_segments text (max_bytes opts) (segment text mime) [])
      (length text) (omega arith) h small
