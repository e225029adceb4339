-- ===== src/Ingest/Process/Progress.antt =====
-- What a run comes to if the model and the vector store answer.
use mathlib.Core.Path.{subst}
use chimera_ape.Base.{
  ℕ, suc, ◌≡◌, refl, ◌∙◌, ap, true, false, not, Option, none, some, List, [], ◌∷◌, arith, Bytes,
  bytes_eq, bytes_eq_iff, bytes_eq_refl, codes, is_empty, Bool-cases, Option-cases, inl, inr, map,
  length, if-cases, All,
}
use chimera_ape.Chunk.{Chunk}
use chimera_ape.Hash.{Hashes}
use chimera_ape.Manifest.{
  Stage, committed, embedded, extracted, vectors_written, stage_number, Manifest,
}
use chimera_ape.Manifest.Ops.{insert_doc, upsert_path, set_stage, stage_of, has_doc, find_doc}
use chimera_ape.Manifest.Ops.Laws.{stage_of-set_stage, stage_of-insert_doc, stage_of-supersede}
use chimera_ape.Ingest.{DocWork}
use chimera_ape.Ingest.Visit.{has_reached}
use chimera_ape.Ingest.Visit.Plan.{doc-upsert_path}
use chimera_ape.Ingest.Document.{
  Services, RunState, text_of, embed_all, register, keys_of, vectors_of, insert_media,
  insert_chunks,
}
use chimera_ape.Ingest.Document.Embed.{embed_all_from}
use chimera_ape.Ingest.Process.{
  extracted_manifest, write_done, write_document, embed_document, registered, process, process_all,
  commit_work,
}
use chimera_ape.Ingest.Process.Commit.{is_work, stage_of-commit_work}
use chimera_ape.Ingest.Process.Outcome.{doc-insert_chunks}
use chimera_ape.Ingest.Process.Stages.{HasStage, set_stage-HasStage, stage_of-doc}

length-map : (cks : List Chunk) → length (map text_of cks) ≡ length cks
length-map [] = refl
length-map (c ∷ cks) = ap suc (length-map cks)

-- A document has a row once it is inserted.
inserted-HasStage :
    (now id : Bytes) (bytes : ℕ) (mime : Bytes) (m : Manifest)
    → (n : ℕ) × HasStage id (insert_doc now id bytes mime m) n
unfolding stage_of has_doc
inserted-HasStage now id bytes mime m = elim (Option-cases (find_doc id m)) [
  | inl e ↦
      let fresh : has_doc id m ≡ false = rw e refl in
      (0, stage_of-insert_doc now id bytes mime m id ∙ rw (bytes_eq_refl id, fresh) refl)
  | inr (d, e) ↦
      let known : has_doc id m ≡ true = rw e refl in
      let at : stage_of id m ≡ some d.stage = rw e refl in
      (d.stage, stage_of-insert_doc now id bytes mime m id ∙ rw (bytes_eq_refl id, known) at)
]

module _ {F D : Type 0} (files : Bytes → Option Bytes) (h : Hashes) (s : Services F D) where
  -- What registering does to a watermark is what inserting does.
  register-inserted :
      (w : DocWork) (m : Manifest) (j : Bytes)
      → stage_of j (register files h s w m) ≡ stage_of j (insert_doc s.now w.doc_id w.size w.mime m)
  unfolding register
  register-inserted w m j =
      let m₁ = insert_doc s.now w.doc_id w.size w.mime m in
      let m₂ = upsert_path w.rel_path w.mtime w.size w.doc_id m₁ in
      let e = doc-upsert_path w.rel_path w.mtime w.size w.doc_id m₁ in
      if-cases (λ m'. stage_of j m' ≡ stage_of j m₁) (not (is_empty w.superseded_old)) _ _
        (λ _. stage_of-supersede w.superseded_old w.doc_id m₂ j ∙ stage_of-doc j m₂ m₁ e)
        (λ _. stage_of-doc j m₂ m₁ e)

  -- The manifest of a document whose vectors were written.
  abbrev written : DocWork → Manifest → Manifest
  written w m = insert_chunks files h s w w.chunks (
      set_stage w.doc_id vectors_written
        (insert_media files h s w [] (extracted_manifest files h s w (register files h s w m))))

  written-stage :
      (w : DocWork) (m : Manifest) (j : Bytes)
      → stage_of j (written w m)
        ≡ stage_of j (
            set_stage w.doc_id vectors_written
              (extracted_manifest files h s w (register files h s w m)))
  unfolding insert_media
  written-stage w m j = stage_of-doc j _ _ (doc-insert_chunks files h s w w.chunks _)

  written-HasStage : (w : DocWork) (m : Manifest) → HasStage w.doc_id (written w m) 4
  unfolding extracted_manifest
  written-HasStage w m =
      let (n, at) = inserted-HasStage s.now w.doc_id w.size w.mime m in
      written-stage w m w.doc_id
      ∙ set_stage-HasStage w.doc_id vectors_written _ 3 (
          set_stage-HasStage w.doc_id extracted _ 2
            (set_stage-HasStage w.doc_id embedded _ n (register-inserted w m w.doc_id ∙ at)))

  set_stage-other :
      (k j : Bytes) (st : Stage) (m : Manifest)
      → bytes_eq k j ≡ false
      → stage_of j (set_stage k st m) ≡ stage_of j m
  set_stage-other k j st m e = stage_of-set_stage k st m j ∙ rw e refl

  written-other :
      (w : DocWork) (m : Manifest) (j : Bytes)
      → bytes_eq w.doc_id j ≡ false
      → stage_of j (written w m) ≡ stage_of j m
  unfolding extracted_manifest
  written-other w m j e =
      written-stage w m j
      ∙ set_stage-other w.doc_id j vectors_written _ e
      ∙ set_stage-other w.doc_id j extracted _ e
      ∙ set_stage-other w.doc_id j embedded _ e
      ∙ register-inserted w m j
      ∙ stage_of-insert_doc s.now w.doc_id w.size w.mime m j
      ∙ rw e refl

  -- A document of text with at least one chunk.
  abbrev pub IsText : DocWork → Type 0
  IsText w = (w.modality ≡ codes "text") × (is_empty w.chunks ≡ false)

  module _ (vector : Bytes → List F) (each : (ts : List Bytes) → s.embed ts ≡ some (map vector ts))
      (accepts : (ks : List ℕ) (vs : List (List F)) → s.upsert ks vs ≡ true) where
    write_document-written :
        (w : DocWork) (vecs : List (List F)) (st : RunState F)
        → (write_document files h s w vecs [] (registered files h s w st)).manifest
          ≡ written w st.manifest
    unfolding write_document write_done registered
    write_document-written w vecs st =
        rw (accepts (keys_of files h s w []) (vectors_of files h s vecs []), write_document) refl

    embed_document-written :
        (w : DocWork) (st : RunState F)
        → is_empty w.chunks ≡ false
        → (embed_document files h s w [] (registered files h s w st)).manifest
          ≡ written w st.manifest
    unfolding embed_document
    embed_document-written w st some_chunk =
        let texts = map text_of w.chunks in
        let vecs : embed_all files h s (length w.chunks) texts ≡ some (map vector texts) =
          embed_all_from files h s vector each (length w.chunks) texts
            (omega (arith, length-map w.chunks)) in
        rw (some_chunk, embed_document)
          (rw (vecs, embed_document) (write_document-written w (map vector texts) st))

    process-written :
        (w : DocWork) (st : RunState F)
        → IsText w
        → has_reached (stage_number committed) (stage_of w.doc_id st.manifest) ≡ false
        → (process files h s w st).manifest ≡ written w st.manifest
    unfolding process bytes_eq
    process-written w st (text, some_chunk) low =
        rw (low, process) (rw (text, process) (embed_document-written w st some_chunk))

    -- The watermark of any document after a turn.
    abbrev Kept : Bytes → Manifest → Manifest → Type 0
    Kept j m m' = has_reached 4 (stage_of j m) ≡ true → has_reached 4 (stage_of j m') ≡ true

    written-Kept : (w : DocWork) (m : Manifest) (j : Bytes) → Kept j m (written w m)
    written-Kept w m j high = elim (Bool-cases (bytes_eq w.doc_id j)) [
      | inl same ↦
          subst (λ k. has_reached 4 (stage_of k (written w m)) ≡ true)
            ((bytes_eq_iff w.doc_id j).0 same) (rw (written-HasStage w m) refl)
      | inr other ↦ rw (written-other w m j other) high
    ]

    -- A document that is committed already is left alone.
    process-done :
        (w : DocWork) (st : RunState F)
        → has_reached (stage_number committed) (stage_of w.doc_id st.manifest) ≡ true
        → process files h s w st ≡ st
    unfolding process
    process-done w st done = rw done refl

    process-Kept :
        (w : DocWork) (st : RunState F) (j : Bytes)
        → IsText w
        → Kept j st.manifest (process files h s w st).manifest
    process-Kept w st j text high =
        elim (Bool-cases (has_reached (stage_number committed) (stage_of w.doc_id st.manifest))) [
          | inl done ↦ rw (process-done w st done) high
          | inr low ↦ rw (process-written w st text low) (written-Kept w st.manifest j high)
        ]

    reached_more : (n : Option ℕ) → has_reached 6 n ≡ true → has_reached 4 n ≡ true
    reached_more none h = h
    reached_more (some n) h = ground arith

    process-reached :
        (w : DocWork) (st : RunState F)
        → IsText w
        → has_reached 4 (stage_of w.doc_id (process files h s w st).manifest) ≡ true
    process-reached w st text =
        elim (Bool-cases (has_reached (stage_number committed) (stage_of w.doc_id st.manifest))) [
          | inl done ↦
              rw (process-done w st done) (reached_more (stage_of w.doc_id st.manifest) done)
          | inr low ↦ rw (process-written w st text low) (rw (written-HasStage w st.manifest) refl)
        ]

    process_all-Kept :
        (ws : List DocWork) (st : RunState F) (j : Bytes)
        → All IsText ws
        → Kept j st.manifest (process_all files h s ws st).manifest
    unfolding process_all
    process_all-Kept [] st j text high = high
    process_all-Kept (w ∷ ws) st j text high =
        process_all-Kept ws (process files h s w st) j text.1 (process-Kept w st j text.0 high)

    process_all-reached :
        (ws : List DocWork) (st : RunState F) (j : Bytes)
        → All IsText ws
        → is_work j ws ≡ true
        → has_reached 4 (stage_of j (process_all files h s ws st).manifest) ≡ true
    unfolding process_all
    process_all-reached [] st j text listed = absurd (ground arith)
    process_all-reached (w ∷ ws) st j text listed = elim (Bool-cases (bytes_eq w.doc_id j)) [
      | inl same ↦ process_all-Kept ws (process files h s w st) j text.1 (
          subst (λ k. has_reached 4 (stage_of k (process files h s w st).manifest) ≡ true)
            ((bytes_eq_iff w.doc_id j).0 same) (process-reached w st text.0))
      | inr other ↦
          process_all-reached ws (process files h s w st) j text.1 (ground (arith, other, listed))
    ]

    -- If the model embeds every text and the vector store accepts every upsert, a run whose work
    -- list has documents of text with chunks commits each document of the list, once the graph
    -- is written.
    pub commit_work-process_all :
        (ws : List DocWork) (st : RunState F) (j : Bytes)
        → All IsText ws
        → is_work j ws ≡ true
        → stage_of j (commit_work true ws (process_all files h s ws st).manifest)
          ≡ some (stage_number committed)
    commit_work-process_all ws st j text listed =
        stage_of-commit_work true ws (process_all files h s ws st).manifest j
        ∙ rw (listed, process_all-reached ws st j text listed) refl
