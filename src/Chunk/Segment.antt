-- ===== src/Chunk/Segment.antt =====
-- src/chunk.cpp: the split of a text into segments at its structural boundaries.
pub mod Boundaries
use chimera_ape.Base.{
  ℕ, ◌+◌, ◌-◌, Bool, true, false, ◌&&◌, ◌||◌, none, some, List, [], ◌∷◌, ◌++◌, ltb, leb, ◌==◌,
  if◌then◌else◌, Bytes, codes, bytes_eq, starts_with, substr, find_byte, length, get_or, drop,
  isspace, while,
}
use chimera_ape.Chunk.{Span}

pub is_code : Bytes → Bool
is_code mime = starts_with (codes "text/x-") mime || bytes_eq mime (codes "application/json")

abbrev keywords : List Bytes
keywords =
    codes "def "
    ∷ codes "class "
    ∷ codes "fn "
    ∷ codes "func "
    ∷ codes "function "
    ∷ codes "impl "
    ∷ codes "struct "
    ∷ codes "enum "
    ∷ codes "trait "
    ∷ codes "pub "
    ∷ codes "static "
    ∷ codes "void "
    ∷ codes "int "
    ∷ codes "bool "
    ∷ codes "double "
    ∷ codes "const "
    ∷ codes "template"
    ∷ codes "namespace "
    ∷ codes "export "
    ∷ codes "async "
    ∷ []

opens_with : List Bytes → Bytes → Bool
opens_with [] s = false
opens_with (k ∷ ks) s = starts_with k s || opens_with ks s

-- A line that is not indented and opens a definition.
pub code_boundary : Bytes → ℕ → Bool
unfolding opens_with starts_with
code_boundary t line_start =
    let c = get_or t line_start 0 in
    if leb (length t) line_start
    then false
    else if c == b' ' || c == b'\t' || c == b'\n' || c == b'}' || c == b')'
    then false
    else opens_with keywords (drop line_start t)

-- The loop's variables: `i` is the start of the next line, `seg_start` that of the open segment.
pub record SegmentState : Type 0 where
  pub i : ℕ
  pub seg_start : ℕ
  pub segs : List Span

pub flush : ℕ → SegmentState → SegmentState
flush end st =
    if ltb st.seg_start end
    then record st {
      segs = st.segs ++ record { begin = st.seg_start; end = end } ∷ [];
      seg_start = end;
    }
    else record st { seg_start = end }

-- The end of the line that begins at `i`, before its newline.
pub line_end : Bytes → ℕ → ℕ
line_end t i = elim (find_byte t b'\n' i) [ none ↦ length t | some nl ↦ nl ]

abbrev pub next_line : Bytes → ℕ → ℕ
next_line t nl = nl + (if ltb nl (length t) then 1 else 0)

pub all_space : Bytes → Bool
all_space [] = true
all_space (c ∷ cs) = isspace c && all_space cs

pub code_line : Bytes → ℕ → SegmentState → SegmentState
code_line t line_start st =
    if ltb st.seg_start line_start && code_boundary t line_start then flush line_start st else st

pub heading_line : Bytes → ℕ → SegmentState → SegmentState
heading_line t line_start st =
    if ltb st.seg_start line_start && get_or t line_start 0 == b'#' then flush line_start st else st

-- A blank line ends a segment and stays with it.
pub blank_line : Bytes → ℕ → ℕ → SegmentState → SegmentState
blank_line t line_start nl st =
    if all_space (substr t line_start (nl - line_start)) && ltb st.seg_start st.i
    then flush st.i st
    else st

pub read_line : Bool → Bytes → SegmentState → SegmentState
read_line code t st =
    let nl = line_end t st.i in
    let read = record st { i = next_line t nl } in
    if code then code_line t st.i read else blank_line t st.i nl (heading_line t st.i read)

abbrev pub segment_start : SegmentState
segment_start = record { i = 0; seg_start = 0; segs = [] }

-- Every round reads a line, so the text's length bounds the rounds.
pub segment_loop : Bytes → Bool → SegmentState
segment_loop t code =
    while (length t + 1) (λ st. ltb st.i (length t)) (read_line code t) segment_start

unfoldable pub segment : Bytes → Bytes → List Span
unfolding segment_loop flush read_line code_line heading_line blank_line line_end all_space
    code_boundary is_code while find_byte isspace starts_with bytes_eq
segment t mime = (flush (length t) (segment_loop t (is_code mime))).segs
