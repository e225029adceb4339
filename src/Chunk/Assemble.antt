-- ===== src/Chunk/Assemble.antt =====
-- src/chunk.cpp: units are gathered into chunks around the target size; `chunk_text` as a whole.
pub mod Shape
pub mod Tiling
pub mod Rebuild
use Prim.Native.Nat.{bit_and}
use chimera_ape.Base.{
  ℕ, ◌+◌, ◌-◌, ◌/◌, Bool, not, ◌&&◌, List, [], ◌∷◌, ◌++◌, ltb, leb, ◌==◌, if◌then◌else◌, Bytes,
  is_empty, length, get_or, substr, while,
}
use chimera_ape.Chunk.{Span, Chunk, ChunkOptions, target_bytes, max_bytes, overlap_bytes}
use chimera_ape.Chunk.Segment.{segment}
use chimera_ape.Chunk.Units.{split_segments}

-- The variables of the accumulation: the open chunk's span, and the chunks that are done.
pub record AssembleState : Type 0 where
  pub cur_begin : ℕ
  pub cur_end : ℕ
  pub out : List Chunk

-- A byte inside a UTF-8 sequence.
pub is_continuation : ℕ → Bool
is_continuation c = bit_and c 0xc0 == 0x80

-- `while (ov_start < cur_begin && …) ++ov_start;`
pub skip_continuation : Bytes → ℕ → ℕ → ℕ
skip_continuation text cur_begin ov_start =
    while (cur_begin - ov_start + 1) (λ ov. ltb ov cur_begin && is_continuation (get_or text ov 0))
      (λ ov. ov + 1) ov_start

pub overlap_start : Bytes → ℕ → AssembleState → ℕ
overlap_start text overlap st =
    if not (is_empty st.out) && ltb 0 overlap
    then skip_continuation text st.cur_begin
        (if ltb overlap st.cur_begin then st.cur_begin - overlap else 0)
    else st.cur_begin

-- The chunk that `emit` appends.
pub open_chunk : Bytes → ℕ → AssembleState → Chunk
open_chunk text overlap st =
    let ov_start = overlap_start text overlap st in
    record {
      ordinal = length st.out + 1;
      byte_start = st.cur_begin;
      byte_end = st.cur_end;
      text = substr text ov_start (st.cur_end - ov_start);
    }

pub emit : Bytes → ℕ → AssembleState → AssembleState
emit text overlap st =
    if leb st.cur_end st.cur_begin
    then st
    else record st { out = st.out ++ open_chunk text overlap st ∷ [] }

-- The open chunk is closed before a unit that would take it over the target.
pub close_before : Bytes → ChunkOptions → Span → AssembleState → AssembleState
close_before text opts u st =
    let cur_size = st.cur_end - st.cur_begin in
    let u_size = u.end - u.begin in
    let target = target_bytes opts in
    if ltb 0 cur_size && ltb target (cur_size + u_size) && leb (target / 2) cur_size
    then record (emit text (overlap_bytes opts) st) { cur_begin = u.begin }
    else st

-- The open chunk is closed when it has reached the maximum.
pub close_full : Bytes → ChunkOptions → AssembleState → AssembleState
close_full text opts st =
    if leb (max_bytes opts) (st.cur_end - st.cur_begin)
    then record (emit text (overlap_bytes opts) st) { cur_begin = st.cur_end }
    else st

pub add_unit : Bytes → ChunkOptions → Span → AssembleState → AssembleState
add_unit text opts u st =
    close_full text opts (record (close_before text opts u st) { cur_end = u.end })

pub add_units : Bytes → ChunkOptions → List Span → AssembleState → AssembleState
add_units text opts [] st = st
add_units text opts (u ∷ units) st = add_units text opts units (add_unit text opts u st)

pub first_begin : List Span → ℕ
first_begin [] = 0
first_begin (u ∷ _) = u.begin

pub assemble : Bytes → ChunkOptions → List Span → List Chunk
assemble text opts units =
    let start = first_begin units in
    let st = add_units text opts units (record { cur_begin = start; cur_end = start; out = [] }) in
    (emit text (overlap_bytes opts) st).out

unfoldable pub chunk_text : Bytes → Bytes → ChunkOptions → List Chunk
unfolding assemble first_begin add_units add_unit close_full close_before emit open_chunk
    overlap_start skip_continuation is_continuation segment split_segments while
chunk_text text mime opts =
    if is_empty text
    then []
    else assemble text opts (split_segments text (max_bytes opts) (segment text mime) [])
