-- ===== src/Ingest/Process/Rows.antt =====
-- The rows of a document's chunks. An insertion replaces the rows with the same identifier or vector
-- key, also where the keys of two chunks collide.
use chimera_ape.Base.{
  ◌≡◌, refl, sym, ◌∙◌, ap, ==_iff, true, not, ℕ, Option, List, [], ◌∷◌, ◌++◌, arith, Bytes,
  bytes_eq, bytes_eq_iff, Bool-cases, ◌⊎◌, inl, inr, All, All-map, Any, Any-append, if-cases,
}
use chimera_ape.Chunk.{Chunk}
use chimera_ape.Hash.{Hashes, vec_key}
use chimera_ape.Manifest.{ChunkRow, Manifest}
use chimera_ape.Manifest.Table.{delete}
use chimera_ape.Manifest.Ops.{conflicts, insert_chunk}
use chimera_ape.Util.ChunkId.{chunk_id}
use chimera_ape.Ingest.{DocWork}
use chimera_ape.Ingest.Document.{Services, chunk_row, insert_chunks}

module _ {F D : Type 0} (files : Bytes → Option Bytes) (h : Hashes) (s : Services F D)
    (w : DocWork) where
  abbrev pub chunk_key : Chunk → ℕ
  chunk_key ck = vec_key h (chunk_id w.doc_id ck.ordinal)

  -- The row is that of one of the chunks.
  abbrev pub IsRowOf : List Chunk → ChunkRow → Type 0
  IsRowOf cks row = Any (λ (c : Chunk). row ≡ chunk_row files h s w c) cks

  -- There is a row for a vector key, that of one of the chunks.
  abbrev pub HasRow : List Chunk → ℕ → List ChunkRow → Type 0
  HasRow cks k rows = Any (λ (x : ChunkRow). (x.vec_key ≡ k) × IsRowOf cks x) rows

  row_key : (cks : List Chunk) (x : ChunkRow) → IsRowOf cks x → x.vec_key ≡ vec_key h x.chunk_id
  row_key [] x r = elim r [ ]
  row_key (c ∷ cks) x (inl e) =
      ap (λ (y : ChunkRow). y.vec_key) e ∙ sym (ap (λ (y : ChunkRow). vec_key h y.chunk_id) e)
  row_key (c ∷ cks) x (inr r) = row_key cks x r

  conflict_key :
      (cks : List Chunk) (x : ChunkRow) (c : Chunk)
      → IsRowOf cks x
      → conflicts (chunk_row files h s w c) x ≡ true
      → x.vec_key ≡ chunk_key c
  conflict_key cks x c r clash =
      elim (Bool-cases (bytes_eq x.chunk_id (chunk_id w.doc_id c.ordinal))) [
        | inl same ↦
            row_key cks x r
            ∙ ap (vec_key h) ((bytes_eq_iff x.chunk_id (chunk_id w.doc_id c.ordinal)).0 same)
        | inr other ↦ (==_iff x.vec_key (chunk_key c)).0 (ground (arith, clash, other))
      ]

  -- A row stays, or makes way for one with the same key.
  replaced :
      (cks : List Chunk) (k : ℕ) (c : Chunk) (rows : List ChunkRow)
      → HasRow cks k rows
      → HasRow cks k (delete (conflicts (chunk_row files h s w c)) rows) ⊎ (chunk_key c ≡ k)
  replaced cks k c [] r = elim r [ ]
  replaced cks k c (x ∷ rows) (inl (e, r)) =
      if-cases (λ ys. HasRow cks k ys ⊎ (chunk_key c ≡ k))
        (not (conflicts (chunk_row files h s w c) x)) _ _ (λ _. inl (inl (e, r)))
        (λ clash. inr (sym (conflict_key cks x c r (ground (arith, clash))) ∙ e))
  replaced cks k c (x ∷ rows) (inr later) =
      if-cases (λ ys. HasRow cks k ys ⊎ (chunk_key c ≡ k))
        (not (conflicts (chunk_row files h s w c) x)) _ _
        (λ _. elim (replaced cks k c rows later) [ inl there ↦ inl (inr there) | inr e ↦ inr e ])
        (λ _. replaced cks k c rows later)

  own_row :
      (c : Chunk) (cks : List Chunk) → Any (λ x. c ≡ x) cks → IsRowOf cks (chunk_row files h s w c)
  own_row c [] r = elim r [ ]
  own_row c (x ∷ cks) (inl same) = inl (ap (chunk_row files h s w) same)
  own_row c (x ∷ cks) (inr later) = inr (own_row c cks later)

  HasRow-inserted :
      (cks : List Chunk) (k : ℕ) (c : Chunk) (rows : List ChunkRow)
      → Any (λ x. c ≡ x) cks
      → chunk_key c ≡ k
      → HasRow cks k (rows ++ chunk_row files h s w c ∷ [])
  HasRow-inserted cks k c rows listed e =
      Any-append (λ (x : ChunkRow). (x.vec_key ≡ k) × IsRowOf cks x) rows
        (chunk_row files h s w c ∷ []) (inr (inl (e, own_row c cks listed)))

  HasRow-insert_chunk :
      (cks : List Chunk) (k : ℕ) (c : Chunk) (m : Manifest)
      → Any (λ x. c ≡ x) cks
      → HasRow cks k m.chunk ⊎ (chunk_key c ≡ k)
      → HasRow cks k (insert_chunk (chunk_row files h s w c) m).chunk
  unfolding insert_chunk
  HasRow-insert_chunk cks k c m listed (inr e) = HasRow-inserted cks k c _ listed e
  HasRow-insert_chunk cks k c m listed (inl r) = elim (replaced cks k c m.chunk r) [
    | inl there ↦
        Any-append (λ (x : ChunkRow). (x.vec_key ≡ k) × IsRowOf cks x)
          (delete (conflicts (chunk_row files h s w c)) m.chunk) _ (inl there)
    | inr e ↦ HasRow-inserted cks k c _ listed e
  ]

  HasRow-insert_chunks :
      (cks : List Chunk) (k : ℕ) (cs : List Chunk) (m : Manifest)
      → All (λ c. Any (λ x. c ≡ x) cks) cs
      → HasRow cks k m.chunk ⊎ Any (λ c. chunk_key c ≡ k) cs
      → HasRow cks k (insert_chunks files h s w cs m).chunk
  unfolding insert_chunks
  HasRow-insert_chunks cks k [] m listed (inl r) = r
  HasRow-insert_chunks cks k [] m listed (inr r) = elim r [ ]
  HasRow-insert_chunks cks k (c ∷ cs) m listed (inl r) =
      HasRow-insert_chunks cks k cs _ listed.1
        (inl (HasRow-insert_chunk cks k c m listed.0 (inl r)))
  HasRow-insert_chunks cks k (c ∷ cs) m listed (inr (inl e)) =
      HasRow-insert_chunks cks k cs _ listed.1
        (inl (HasRow-insert_chunk cks k c m listed.0 (inr e)))
  HasRow-insert_chunks cks k (c ∷ cs) m listed (inr (inr later)) =
      HasRow-insert_chunks cks k cs _ listed.1 (inr later)

  -- Every chunk's vector key has the row of a chunk of the document, its own unless keys collide.
  abbrev pub HasRows : List Chunk → Manifest → Type 0
  HasRows cks m = All (λ ck. HasRow cks (chunk_key ck) m.chunk) cks

  members : (cs : List Chunk) → All (λ c. Any (λ x. c ≡ x) cs) cs
  members [] = tt
  members (c ∷ cs) =
      (inl refl, All-map {P = λ d. Any (λ x. d ≡ x) cs} cs (members cs) (λ d later. inr later))

  key_among :
      (c : Chunk) (cs : List Chunk) → Any (λ x. c ≡ x) cs → Any (λ x. chunk_key x ≡ chunk_key c) cs
  key_among c [] r = elim r [ ]
  key_among c (x ∷ cs) (inl e) = inl (ap chunk_key (sym e))
  key_among c (x ∷ cs) (inr later) = inr (key_among c cs later)

  pub insert_chunks-HasRows :
      (cks : List Chunk) (m : Manifest) → HasRows cks (insert_chunks files h s w cks m)
  insert_chunks-HasRows cks m =
      All-map {P = λ c. Any (λ x. c ≡ x) cks} cks (members cks) λ c listed.
        HasRow-insert_chunks cks (chunk_key c) cks m (members cks) (inr (key_among c cks listed))
