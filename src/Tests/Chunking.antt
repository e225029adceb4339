-- ===== src/Tests/Chunking.antt =====
-- Runs of src/chunk.cpp on a small Markdown text with limits of a few bytes.
use chimera_ape.Base.{
  ℕ, ◌-◌, ◌≤◌, ◌≡◌, refl, arith, false, List, [], ◌∷◌, Bytes, codes, index_of, ltb, length, All,
}
use chimera_ape.Chunk.{Span, Chunk, ChunkOptions, Tiles}
use chimera_ape.Chunk.Segment.{is_code, segment_loop, segment}
use chimera_ape.Chunk.Segment.Boundaries.{segment-Tiles}
use chimera_ape.Chunk.Units.{sentence_break, split_segments}
use chimera_ape.Chunk.Units.Bounds.{LastBreak, sentence_break-LastBreak, split_segments-Tiles}
use chimera_ape.Chunk.Assemble.{chunk_text}
use chimera_ape.Chunk.Assemble.Shape.{Chunks}
use chimera_ape.Chunk.Assemble.Tiling.{chunk_text-Chunks}
use chimera_ape.Chunk.Assemble.Rebuild.{own_texts, own_texts-chunk_text}
use chimera_ape.Chunk.Html.{html_loop, strip_html}
use chimera_ape.Chunk.Html.Output.{length-html_loop}

abbrev sample : Bytes
sample = codes "# One\n\nFirst. Second one.\n\n# Two\nlast"

abbrev markdown : Bytes
markdown = codes "text/markdown"

abbrev small_options : ChunkOptions
small_options = record { target_tokens = 3; max_tokens = 2; overlap_percent = 20 }

abbrev span_of : Chunk → ℕ × ℕ
span_of c = (c.byte_start, c.byte_end)

abbrev spans_of : List Chunk → List (ℕ × ℕ)
spans_of [] = []
spans_of (c ∷ cs) = span_of c ∷ spans_of cs

sample_spans :
    spans_of (chunk_text sample markdown small_options)
    ≡ (0, 7) ∷ (7, 13) ∷ (13, 21) ∷ (21, 27) ∷ (27, 35) ∷ (35, 37) ∷ []
unfolding chunk_text index_of
sample_spans = refl

abbrev page : Bytes
page = codes "<p>a &amp; b</p>"

stripped : strip_html (codes "<p>a &amp; b</p><script>x</script>") ≡ codes " a & b   "
unfolding strip_html
stripped = refl

chunk_text-Chunks_example :
    Chunks sample small_options 0 0 (chunk_text sample markdown small_options) (length sample)
chunk_text-Chunks_example = chunk_text-Chunks sample markdown small_options (omega arith)

own_texts-chunk_text_example : own_texts (chunk_text sample markdown small_options) ≡ sample
own_texts-chunk_text_example = own_texts-chunk_text sample markdown small_options (omega arith)

segment-Tiles_example :
    (ltb (segment_loop sample (is_code markdown)).i (length sample) ≡ false)
    × Tiles 0 (segment sample markdown) (length sample)
segment-Tiles_example = segment-Tiles sample markdown

abbrev whole : Span
whole = record { begin = 0; end = 37 }

split_segments-Tiles_example :
    Tiles 0 (split_segments sample 8 (whole ∷ []) []) 37
    × All (λ u. u.end - u.begin ≤ 8) (split_segments sample 8 (whole ∷ []) [])
split_segments-Tiles_example =
    split_segments-Tiles sample 8 (whole ∷ []) [] 0 0 37 (omega arith) refl tt
      (refl, omega arith, refl)

sentence_break-LastBreak_example : LastBreak sample 7 20 (sentence_break sample 7 20)
sentence_break-LastBreak_example = sentence_break-LastBreak sample 7 20

length-html_loop_example :
    (ltb (html_loop page).i (length page) ≡ false) × (length (strip_html page) ≤ (html_loop page).i)
length-html_loop_example = length-html_loop page
