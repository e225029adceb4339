-- ===== src/Chunk/Assemble/Rebuild.antt =====
-- The spans of the chunks rebuild the text: what is read back for a chunk loses nothing.
use chimera_ape.Base.{
  ℕ, zero, suc, ◌+◌, ◌-◌, ◌≤◌, ◌<◌, ◌≡◌, ap, ◌∙◌, List, [], ◌∷◌, ◌++◌, arith, Bytes, length, take,
  drop, take_nil, drop-drop, take-add, take_all, length-take, length-drop, substr,
}
use chimera_ape.Chunk.{Chunk, ChunkOptions}
use chimera_ape.Chunk.Assemble.{chunk_text}
use chimera_ape.Chunk.Assemble.Shape.{IsChunk, Chunks}
use chimera_ape.Chunk.Assemble.Tiling.{chunk_text-Chunks}

-- A chunk's text after its lead, by the chunk's own offsets.
abbrev pub own_text : Chunk → Bytes
own_text c = drop (length c.text - (c.byte_end - c.byte_start)) c.text

abbrev pub own_texts : List Chunk → Bytes
own_texts [] = []
own_texts (c ∷ cs) = own_text c ++ own_texts cs

drop-take : (k m : ℕ) (xs : Bytes) → drop k (take m xs) ≡ take (m - k) (drop k xs)
drop-take zero m xs = ap (λ j. take j xs) (omega arith)
drop-take (suc k) zero [] = rw (take_nil (0 - suc k))
drop-take (suc k) zero (x ∷ xs) = let e : 0 - suc k ≡ 0 = omega arith in rw e
drop-take (suc k) (suc m) [] = rw (take_nil (suc m - suc k))
drop-take (suc k) (suc m) (x ∷ xs) =
    let e : suc m - suc k ≡ m - k = omega arith in rw e (drop-take k m xs)

module _ (text : Bytes) (opts : ChunkOptions) where
  own_text-substr :
      (n a : ℕ) (c : Chunk)
      → IsChunk text opts n a c
      → c.byte_end ≤ length text
      → own_text c ≡ substr text a (c.byte_end - a)
  own_text-substr n a c ic le =
      let lead = ic.lead in
      let size = c.byte_end - lead in
      let lead_le : lead ≤ a = omega (arith, ic.is_lead.lead_le) in
      let len : length (substr text lead size) ≡ size =
        omega (arith, length-take size (drop lead text), length-drop lead text) in
      let cut : length (substr text lead size) - (c.byte_end - a) ≡ a - lead =
        omega (arith, len, ic.nonempty) in
      let rest : size - (a - lead) ≡ c.byte_end - a = omega arith in
      let at : lead + (a - lead) ≡ a = omega arith in
      rw (ic.text_is, ic.starts, cut)
        (drop-take (a - lead) size (drop lead text) ∙ rw (rest, drop-drop (a - lead) lead text, at))

  Chunks-le : (n a : ℕ) (cs : List Chunk) {b : ℕ} → Chunks text opts n a cs b → a ≤ b
  Chunks-le n a [] h = omega arith
  Chunks-le n a (c ∷ cs) h = omega (arith, h.0.nonempty, Chunks-le (n + 1) c.byte_end cs h.1)

  own_texts-substr :
      (n a b : ℕ) (cs : List Chunk)
      → Chunks text opts n a cs b
      → b ≤ length text
      → own_texts cs ≡ substr text a (b - a)
  own_texts-substr n a b [] h le = let e : b - a ≡ 0 = omega arith in rw e
  own_texts-substr n a b (c ∷ cs) h le =
      let le_c = Chunks-le (n + 1) c.byte_end cs h.1 in
      let e : b - a ≡ (c.byte_end - a) + (b - c.byte_end) = omega (arith, h.0.nonempty) in
      let at : a + (c.byte_end - a) ≡ c.byte_end = omega (arith, h.0.nonempty) in
      rw (
        own_text-substr n a c h.0 (omega arith),
        own_texts-substr (n + 1) c.byte_end b cs h.1 le,
        e,
        take-add (c.byte_end - a) (b - c.byte_end) (drop a text),
        drop-drop (c.byte_end - a) a text,
        at,
      )

-- The chunks' own texts, one after another, are the text.
pub own_texts-chunk_text :
    (text mime : Bytes) (opts : ChunkOptions)
    → 0 < opts.max_tokens
    → own_texts (chunk_text text mime opts) ≡ text
own_texts-chunk_text text mime opts pos =
    own_texts-substr text opts 0 0 (length text) (chunk_text text mime opts)
      (chunk_text-Chunks text mime opts pos) (omega arith)
    ∙ take_all (length text - 0) text (omega arith)
