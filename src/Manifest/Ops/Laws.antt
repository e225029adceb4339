-- ===== src/Manifest/Ops/Laws.antt =====
-- What each read returns after each write.
use mathlib.Core.Option
use chimera_ape.Base.{
  ℕ, ◌≡◌, refl, true, not, ◌&&◌, some, List, [], ◌∷◌, ◌++◌, arith, ◌==◌, if◌then◌else◌, Bytes,
  bytes_eq, bytes_eq_iff, Option-cases, inl, inr,
}
use chimera_ape.Manifest.{Stage, stage_number, ChunkRow, Manifest}
use chimera_ape.Manifest.Table.{first, delete, has_key, first-snoc, first-update}
use chimera_ape.Manifest.Ops.{
  new_doc, new_path, docid_of, relpath_of, chunkid_of, conflicts, find_doc, path_info, upsert_path,
  has_doc, insert_doc, set_stage, stage_of, supersede, forget_doc, insert_chunk, chunk_by_vec_key,
}

-- The watermark that a document has after its own is set, or another's.
pub stage_of-set_stage :
    (k : Bytes) (st : Stage) (m : Manifest) (j : Bytes)
    → stage_of j (set_stage k st m)
      ≡ (if bytes_eq k j && has_doc j m then some (stage_number st) else stage_of j m)
unfolding stage_of set_stage has_doc
stage_of-set_stage k st m j =
    rw (first-update docid_of k (λ d. record d { stage = stage_number st }) m.doc j (λ y. refl))
      (ground arith)

-- A new document starts at watermark 0, and one that is there keeps its own.
pub stage_of-insert_doc :
    (now k : Bytes) (bytes : ℕ) (mime : Bytes) (m : Manifest) (j : Bytes)
    → stage_of j (insert_doc now k bytes mime m)
      ≡ (if bytes_eq k j && not (has_doc j m) then some 0 else stage_of j m)
unfolding stage_of insert_doc has_doc
stage_of-insert_doc now k bytes mime m j = elim (Option-cases (find_doc k m)) [
  | inl e ↦
      rw (e, insert_doc)
        (rw (first-snoc docid_of m.doc (new_doc now k bytes mime) e j)
          (ground (arith, bytes_eq_iff k j, e)))
  | inr (d, e) ↦ rw (e, insert_doc) (ground (arith, bytes_eq_iff k j, e))
]

pub stage_of-supersede :
    (old new : Bytes) (m : Manifest) (j : Bytes) → stage_of j (supersede old new m) ≡ stage_of j m
unfolding stage_of supersede
stage_of-supersede old new m j =
    rw (first-update docid_of old (λ d. record d { superseded_by = some new }) m.doc j (λ y. refl))
      (ground arith)

pub stage_of-forget_doc :
    (k : Bytes) (m : Manifest) (j : Bytes) → stage_of j (forget_doc k m) ≡ stage_of j m
unfolding stage_of forget_doc
stage_of-forget_doc k m j =
    rw (first-update docid_of k (λ d. record d { vacuumed = true }) m.doc j (λ y. refl))
      (ground arith)

-- What is known of a path after its own row is written, or another's.
pub path_info-upsert_path :
    (k : Bytes) (mtime size : ℕ) (doc : Bytes) (m : Manifest) (j : Bytes)
    → path_info j (upsert_path k mtime size doc m) ≡ (
        if bytes_eq k j
        then some (record { doc_id = doc; mtime = mtime; size = size })
        else path_info j m)
unfolding path_info upsert_path
path_info-upsert_path k mtime size doc m j =
    elim (Option-cases (first (has_key relpath_of k) m.path)) [
      | inl e ↦
          rw (e, upsert_path)
            (rw (first-snoc relpath_of m.path (new_path k mtime size doc) e j) (ground arith))
      | inr (p, e) ↦
          rw (e, upsert_path)
            (rw
              (first-update relpath_of k
                (λ p. record { relpath = p.relpath; mtime = mtime; size = size; docid = doc })
                m.path j (λ y. refl))
              (ground (arith, bytes_eq_iff k j, e)))
    ]

first-conflicts :
    (c : ChunkRow) (xs : List ChunkRow) (k : ℕ)
    → Option.map chunkid_of (first (λ x. x.vec_key == k) (delete (conflicts c) xs ++ c ∷ [])) ≡ (
        if k == c.vec_key
        then some c.chunk_id
        else Option.map chunkid_of
            (first (λ x. x.vec_key == k && not (bytes_eq x.chunk_id c.chunk_id)) xs))
first-conflicts c [] k = ground arith
first-conflicts c (x ∷ xs) k = ground (arith, first-conflicts c xs k)

-- After a chunk is written its key finds it, and any other key finds what it found among the rows
-- that the write did not replace.
pub chunk_by_vec_key-insert_chunk :
    (c : ChunkRow) (m : Manifest) (k : ℕ)
    → chunk_by_vec_key k (insert_chunk c m) ≡ (
        if k == c.vec_key
        then some c.chunk_id
        else Option.map chunkid_of
            (first (λ x. x.vec_key == k && not (bytes_eq x.chunk_id c.chunk_id)) m.chunk))
unfolding chunk_by_vec_key insert_chunk
chunk_by_vec_key-insert_chunk c m k = first-conflicts c m.chunk k
