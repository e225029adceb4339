-- ===== src/Manifest/Ops/Valid.antt =====
-- The schema's constraints hold after every operation.
use chimera_ape.Base.{
  ℕ, ◌≡◌, refl, true, not, List, [], ◌∷◌, arith, Bytes, bytes_eq_iff, All, Option-cases, inl, inr,
}
use chimera_ape.Manifest.{Stage, ChunkRow, Manifest}
use chimera_ape.Manifest.Table.{
  first, delete, has_key, Fresh, Unique, Unique-snoc, Unique-select, Unique-update, Fresh-of_first,
  All-select-true,
}
use chimera_ape.Manifest.Ops.{
  docid_of, relpath_of, chunkid_of, veckey_of, meta_key, conflicts, find_doc, upsert_path,
  insert_doc, set_stage, supersede, forget_doc, insert_chunk, set_meta,
}

-- The primary keys, and the unique vector key.
pub record IsValid (m : Manifest) : Type 0 where
  pub docs : Unique docid_of m.doc
  pub paths : Unique relpath_of m.path
  pub chunks : Unique chunkid_of m.chunk
  pub keys : Unique veckey_of m.chunk
  pub metas : Unique meta_key m.meta

-- Every operation that writes.
pub data Write : Type 0 where
  upsert : Bytes → ℕ → ℕ → Bytes → Write
  insert : Bytes → Bytes → ℕ → Bytes → Write
  stage : Bytes → Stage → Write
  mark_superseded : Bytes → Bytes → Write
  forget : Bytes → Write
  put_chunk : ChunkRow → Write
  put_meta : Bytes → Bytes → Write

abbrev pub run : Write → Manifest → Manifest
run (upsert rel mtime size doc) m = upsert_path rel mtime size doc m
run (insert now doc bytes mime) m = insert_doc now doc bytes mime m
run (stage doc st) m = set_stage doc st m
run (mark_superseded old new) m = supersede old new m
run (forget doc) m = forget_doc doc m
run (put_chunk c) m = insert_chunk c m
run (put_meta key value) m = set_meta key value m

not-conflicts :
    (c : ChunkRow) (xs : List ChunkRow)
    → All (λ x. not (conflicts c x) ≡ true) xs
    → Fresh chunkid_of c.chunk_id xs × Fresh veckey_of c.vec_key xs
not-conflicts c [] h = (tt, tt)
not-conflicts c (x ∷ xs) h =
    let (f, g) = not-conflicts c xs h.1 in
    ((ground (arith, bytes_eq_iff x.chunk_id c.chunk_id), f), (ground arith, g))

not_key {ℓ} :
    {A : Type ℓ} (key : A → Bytes) (k : Bytes) (xs : List A)
    → All (λ x. not (has_key key k x) ≡ true) xs
    → Fresh key k xs
not_key key k [] h = tt
not_key key k (x ∷ xs) h = (ground (arith, bytes_eq_iff (key x) k), not_key key k xs h.1)

upsert_path-IsValid :
    (rel : Bytes) (mtime size : ℕ) (doc : Bytes) (m : Manifest)
    → IsValid m
    → IsValid (upsert_path rel mtime size doc m)
unfolding upsert_path
upsert_path-IsValid rel mtime size doc m v =
    elim (Option-cases (first (has_key relpath_of rel) m.path)) [
      | inl e ↦
          rw (e, upsert_path)
            (record {
              docs = v.docs;
              paths =
                  Unique-snoc relpath_of m.path _ v.paths (Fresh-of_first relpath_of rel m.path e);
              chunks = v.chunks;
              keys = v.keys;
              metas = v.metas;
            })
      | inr (_, e) ↦
          rw (e, upsert_path)
            (record {
              docs = v.docs;
              paths = Unique-update relpath_of _ _ m.path (λ y. refl) v.paths;
              chunks = v.chunks;
              keys = v.keys;
              metas = v.metas;
            })
    ]

insert_doc-IsValid :
    (now doc : Bytes) (bytes : ℕ) (mime : Bytes) (m : Manifest)
    → IsValid m
    → IsValid (insert_doc now doc bytes mime m)
unfolding insert_doc
insert_doc-IsValid now doc bytes mime m v = elim (Option-cases (find_doc doc m)) [
  | inl e ↦
      rw (e, insert_doc)
        (record {
          docs = Unique-snoc docid_of m.doc _ v.docs (Fresh-of_first docid_of doc m.doc e);
          paths = v.paths;
          chunks = v.chunks;
          keys = v.keys;
          metas = v.metas;
        })
  | inr (_, e) ↦ rw (e, insert_doc) v
]

-- Each operation that writes keeps the primary keys and the vector keys of the tables unique.
pub run-IsValid : (w : Write) (m : Manifest) → IsValid m → IsValid (run w m)
unfolding set_stage supersede forget_doc insert_chunk set_meta
run-IsValid (upsert rel mtime size doc) m v = upsert_path-IsValid rel mtime size doc m v
run-IsValid (insert now doc bytes mime) m v = insert_doc-IsValid now doc bytes mime m v
run-IsValid (stage doc st) m v = record {
  docs = Unique-update docid_of _ _ m.doc (λ y. refl) v.docs;
  paths = v.paths;
  chunks = v.chunks;
  keys = v.keys;
  metas = v.metas;
}
run-IsValid (mark_superseded old new) m v = record {
  docs = Unique-update docid_of _ _ m.doc (λ y. refl) v.docs;
  paths = v.paths;
  chunks = v.chunks;
  keys = v.keys;
  metas = v.metas;
}
run-IsValid (forget doc) m v = record {
  docs = Unique-update docid_of _ _ m.doc (λ y. refl) v.docs;
  paths = Unique-select relpath_of _ m.path v.paths;
  chunks = Unique-select chunkid_of _ m.chunk v.chunks;
  keys = Unique-select veckey_of _ m.chunk v.keys;
  metas = v.metas;
}
run-IsValid (put_chunk c) m v =
    let kept = delete (conflicts c) m.chunk in
    let (ids, keys) = not-conflicts c kept (All-select-true (λ x. not (conflicts c x)) m.chunk) in
    record {
      docs = v.docs;
      paths = v.paths;
      chunks = Unique-snoc chunkid_of kept c (Unique-select chunkid_of _ m.chunk v.chunks) ids;
      keys = Unique-snoc veckey_of kept c (Unique-select veckey_of _ m.chunk v.keys) keys;
      metas = v.metas;
    }
run-IsValid (put_meta key value) m v =
    let kept = delete (has_key meta_key key) m.meta in
    record {
      docs = v.docs;
      paths = v.paths;
      chunks = v.chunks;
      keys = v.keys;
      metas =
          Unique-snoc meta_key kept _ (Unique-select meta_key _ m.meta v.metas) (
            not_key meta_key key kept (All-select-true (λ x. not (has_key meta_key key x)) m.meta));
    }
