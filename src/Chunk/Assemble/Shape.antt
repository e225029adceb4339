-- ===== src/Chunk/Assemble/Shape.antt =====
-- What one chunk holds: its span of the text, led by an overlap.
use chimera_ape.Base.{
  ℕ, ◌+◌, ◌-◌, ◌/◌, ◌≤◌, ◌<◌, ◌≡◌, false, ◌&&◌, ◌⊎◌, List, [], ◌∷◌, arith, ltb, Bytes, length,
  get_or, substr, while_inv,
}
use chimera_ape.Chunk.{Chunk, ChunkOptions, target_bytes, max_bytes, overlap_bytes}
use chimera_ape.Chunk.Assemble.{AssembleState, is_continuation, skip_continuation, overlap_start}

-- `lead` is where an overlap of at most `overlap` bytes before `start` may begin.
pub record IsLead (text : Bytes) (overlap start lead : ℕ) : Type 0 where
  pub lead_le : lead ≤ start
  pub near : start ≤ lead + overlap
  pub whole : (lead ≡ start) ⊎ (is_continuation (get_or text lead 0) ≡ false)

-- The chunk after `n` others whose span begins at `a`. Its text is the original bytes from `lead`
-- up to its end; the first chunk has no lead.
pub record IsChunk (text : Bytes) (opts : ChunkOptions) (n a : ℕ) (c : Chunk) : Type 0 where
  pub lead : ℕ
  pub ordinal : c.ordinal ≡ n + 1
  pub starts : c.byte_start ≡ a
  pub nonempty : a < c.byte_end
  pub is_lead : IsLead text (overlap_bytes opts) a lead
  pub first : n ≡ 0 → lead ≡ a
  pub text_is : c.text ≡ substr text lead (c.byte_end - lead)
  pub small :
      (c.byte_end ≤ a + target_bytes opts)
      ⊎ (c.byte_end ≤ a + (target_bytes opts / 2 + max_bytes opts))

-- Chunks that follow one another without a gap from `a` to `b`, numbered from `n + 1`.
abbrev pub Chunks : Bytes → ChunkOptions → ℕ → ℕ → List Chunk → ℕ → Type 0
Chunks text opts n a [] b = a ≡ b
Chunks text opts n a (c ∷ cs) b = IsChunk text opts n a c × Chunks text opts (n + 1) c.byte_end cs b

-- The loop over continuation bytes ends by its own test.
pub skip_continuation-IsLead :
    (text : Bytes) (overlap start ov : ℕ)
    → ov ≤ start
    → start ≤ ov + overlap
    → IsLead text overlap start (skip_continuation text start ov)
unfolding skip_continuation
skip_continuation-IsLead text overlap start ov le near =
    let (v, stop) =
      while_inv (λ k. (k ≤ start) × (start ≤ k + overlap)) (λ k. start - k)
        (λ k. ltb k start && is_continuation (get_or text k 0)) (λ k. k + 1)
        (λ k v e. let lt : k < start = ground arith in (omega arith, omega arith)) (start - ov + 1)
        ov (omega arith) (le, near) in
    record { lead_le = v.0; near = v.1; whole = ground arith }

pub overlap_start-IsLead :
    (text : Bytes) (overlap : ℕ) (st : AssembleState)
    → IsLead text overlap st.cur_begin (overlap_start text overlap st)
      × (length st.out ≡ 0 → overlap_start text overlap st ≡ st.cur_begin)
unfolding overlap_start
overlap_start-IsLead text overlap st = ground (
  arith,
  skip_continuation-IsLead text overlap st.cur_begin (st.cur_begin - overlap),
  skip_continuation-IsLead text overlap st.cur_begin 0,
)
