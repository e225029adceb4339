-- ===== src/Ingest/Process/Outcome.antt =====
-- What one turn of the loop over the work list can come to.
use mathlib.Core.Path.{subst}
use chimera_ape.Base.{
  ℕ, ◌+◌, ◌≡◌, refl, sym, ◌∙◌, true, false, not, Option, some, List, [], ◌∷◌, ◌++◌, Bytes, bytes_eq,
  codes, is_empty, Bool-cases, ◌⊎◌, inl, inr, map, length, if-cases,
}
use chimera_ape.Chunk.{Chunk, default_options}
use chimera_ape.Chunk.Assemble.{chunk_text}
use chimera_ape.Util.Base64.{base64_encode}
use chimera_ape.Ingest.Process.Rows.{HasRows, insert_chunks-HasRows}
use chimera_ape.Hash.{Hashes}
use chimera_ape.Manifest.{embedded, extracted, vectors_written, stage_number, Manifest}
use chimera_ape.Manifest.Ops.{insert_doc, upsert_path, supersede, set_stage, stage_of, insert_chunk}
use chimera_ape.Manifest.Ops.Laws.{stage_of-supersede}
use chimera_ape.Ingest.{DocWork}
use chimera_ape.Ingest.Visit.{has_reached}
use chimera_ape.Ingest.Visit.Plan.{doc-upsert_path}
use chimera_ape.Ingest.Document.{
  upserted, Services, RunState, text_of, embed_all, register, keys_of, vectors_of, insert_media,
  tombstone, insert_chunks, turtle_of,
}
use chimera_ape.Ingest.Process.{
  extracted_manifest, write_failed, write_done, write_document, with_chunks, registered,
  derive_prompt, media_vector,
}
use chimera_ape.Ingest.Process.Stages.{
  HasStage, set_stage-HasStage, stage_of-doc, chunk-insert_doc, chunk-upsert_path,
  stage_of-inserted,
}

module _ {F D : Type 0} (files : Bytes → Option Bytes) (h : Hashes) (s : Services F D) where
  -- No text, vector or chunk row of the document was written, and its watermark is below
  -- `vectors_written`. Its row, its path and what it supersedes are registered nonetheless.
  pub record IsRetry (id : Bytes) (st st' : RunState F) : Type 0 where
    pub low : has_reached (stage_number vectors_written) (stage_of id st'.manifest) ≡ false
    pub same_ttl : st'.ttl ≡ st.ttl
    pub same_vectors : st'.vectors ≡ st.vectors
    pub same_rows : st'.manifest.chunk ≡ st.manifest.chunk
    pub same_new : st'.n_new ≡ st.n_new

  -- The vectors of all chunks were accepted, the Turtle text was appended, the chunks have their
  -- rows and the watermark is `vectors_written`.
  pub record IsWritten (w : DocWork) (media_vec : List F) (vecs : List (List F))
      (st st' : RunState F) : Type 0 where
    pub reached : HasStage w.doc_id st'.manifest (stage_number vectors_written)
    pub embedded_all : embed_all files h s (length w.chunks) (map text_of w.chunks) ≡ some vecs
    pub accepted :
        s.upsert (keys_of files h s w media_vec) (vectors_of files h s vecs media_vec) ≡ true
    pub new_ttl : st'.ttl ≡ st.ttl ++ turtle_of files h s w
    pub new_vectors :
        st'.vectors
        ≡ st.vectors
          ++ upserted (keys_of files h s w media_vec) (vectors_of files h s vecs media_vec)
            ∷ tombstone files h s w (
                insert_media files h s w media_vec
                  (extracted_manifest files h s w (register files h s w st.manifest)))
    pub rows : HasRows files h s w w.chunks st'.manifest
    pub one_more : st'.n_new ≡ st.n_new + 1

  -- A turn for a document whose chunks and media vector are known.
  abbrev pub Turned : DocWork → List F → RunState F → RunState F → Type 0
  Turned w media_vec st st' =
      IsRetry w.doc_id st st' ⊎ ((vecs : List (List F)) × IsWritten w media_vec vecs st st')

  -- The chunks that are written: those of the work list, or what the model made of the media file.
  pub data IsInput (w : DocWork) (cks : List Chunk) (media_vec : List F) : Type 0 where
    listed :
        bytes_eq w.modality (codes "text") ≡ true
        → cks ≡ w.chunks
        → media_vec ≡ []
        → IsInput w cks media_vec
    derived :
        (bytes text : Bytes)
        → bytes_eq w.modality (codes "text") ≡ false
        → files w.abs_path ≡ some bytes
        → s.chat_media (derive_prompt files h s w) (base64_encode bytes) w.mime ≡ some text
        → cks ≡ chunk_text text (codes "text/plain") default_options
        → media_vec ≡ media_vector files h s (s.embed_media (base64_encode bytes))
        → IsInput w cks media_vec

  abbrev pub Outcome : DocWork → RunState F → RunState F → Type 0
  Outcome w st st' =
      IsRetry w.doc_id st st'
      ⊎ ((cks : List Chunk) × (media_vec : List F) × (vecs : List (List F)) × IsInput w cks
            media_vec
          × IsWritten (with_chunks files h s w cks) media_vec vecs st st')

  stage_of-registered :
      (w : DocWork) (m : Manifest)
      → stage_of w.doc_id (register files h s w m)
        ≡ stage_of w.doc_id (insert_doc s.now w.doc_id w.size w.mime m)
  unfolding register
  stage_of-registered w m =
      let m₁ = insert_doc s.now w.doc_id w.size w.mime m in
      let m₂ = upsert_path w.rel_path w.mtime w.size w.doc_id m₁ in
      let e = doc-upsert_path w.rel_path w.mtime w.size w.doc_id m₁ in
      if-cases (λ m'. stage_of w.doc_id m' ≡ stage_of w.doc_id m₁) (not (is_empty w.superseded_old))
        _ _
        (λ _.
          stage_of-supersede w.superseded_old w.doc_id m₂ w.doc_id ∙ stage_of-doc w.doc_id m₂ m₁ e)
        (λ _. stage_of-doc w.doc_id m₂ m₁ e)

  pub chunk-register : (w : DocWork) (m : Manifest) → (register files h s w m).chunk ≡ m.chunk
  unfolding register supersede
  chunk-register w m =
      let m₁ = insert_doc s.now w.doc_id w.size w.mime m in
      let e =
        chunk-upsert_path w.rel_path w.mtime w.size w.doc_id m₁
        ∙ chunk-insert_doc s.now w.doc_id w.size w.mime m in
      if-cases (λ (m' : Manifest). m'.chunk ≡ m.chunk) (not (is_empty w.superseded_old)) _ _
        (λ _. e) (λ _. e)

  pub doc-insert_chunks :
      (w : DocWork) (cks : List Chunk) (m : Manifest)
      → (insert_chunks files h s w cks m).doc ≡ m.doc
  unfolding insert_chunks insert_chunk
  doc-insert_chunks w [] m = refl
  doc-insert_chunks w (ck ∷ cks) m = doc-insert_chunks w cks _

  pub doc-insert_media :
      (w : DocWork) (v : List F) (m : Manifest) → (insert_media files h s w v m).doc ≡ m.doc
  unfolding insert_media insert_chunk
  doc-insert_media w v m =
      if-cases (λ (m' : Manifest). m'.doc ≡ m.doc) (not (is_empty v)) _ _ (λ _. refl) (λ _. refl)

  -- The manifest after stage 3, the one that later stages start from.
  pub stage_of-register :
      (w : DocWork) (m : Manifest)
      → has_reached 4 (stage_of w.doc_id m) ≡ false
      → (n : ℕ) × HasStage w.doc_id (register files h s w m) n × (has_reached 4 (some n) ≡ false)
  unfolding register
  stage_of-register w m low =
      let (n, at, small) = stage_of-inserted s.now w.doc_id w.size w.mime m low in
      (n, stage_of-registered w m ∙ at, small)

  -- After stages 4 and 5 the watermark is `extracted`.
  extracted_manifest-HasStage :
      (w : DocWork) (m : Manifest)
      → has_reached 4 (stage_of w.doc_id m) ≡ false
      → HasStage w.doc_id (extracted_manifest files h s w (register files h s w m)) 3
  unfolding extracted_manifest
  extracted_manifest-HasStage w m low =
      let (n, at, _) = stage_of-register w m low in
      set_stage-HasStage w.doc_id extracted _ 2 (set_stage-HasStage w.doc_id embedded _ n at)

  written-HasStage :
      (w : DocWork) (v : List F) (m : Manifest)
      → has_reached 4 (stage_of w.doc_id m) ≡ false
      → HasStage w.doc_id
          (insert_chunks files h s w w.chunks (
            set_stage w.doc_id vectors_written (
              insert_media files h s w v
                (extracted_manifest files h s w (register files h s w m)))))
          4
  written-HasStage w v m low =
      let m₁ = extracted_manifest files h s w (register files h s w m) in
      let m₂ = insert_media files h s w v m₁ in
      let m₃ = set_stage w.doc_id vectors_written m₂ in
      let at =
        stage_of-doc w.doc_id m₂ m₁ (doc-insert_media w v m₁)
        ∙ extracted_manifest-HasStage w m low in
      stage_of-doc w.doc_id _ m₃ (doc-insert_chunks w w.chunks m₃)
      ∙ set_stage-HasStage w.doc_id vectors_written m₂ 3 at

  pub write_document-Turned :
      (w : DocWork) (vecs : List (List F)) (media_vec : List F) (st : RunState F)
      → embed_all files h s (length w.chunks) (map text_of w.chunks) ≡ some vecs
      → has_reached 4 (stage_of w.doc_id st.manifest) ≡ false
      → Turned w media_vec st
          (write_document files h s w vecs media_vec (registered files h s w st))
  unfolding write_document registered write_failed write_done
  write_document-Turned w vecs media_vec st e low =
      elim (Bool-cases
        (s.upsert (keys_of files h s w media_vec) (vectors_of files h s vecs media_vec))) [
          | inl ok ↦ rw ok (
              inr (
                vecs,
                record {
                  reached = written-HasStage w media_vec st.manifest low;
                  embedded_all = e;
                  accepted = ok;
                  new_ttl = refl;
                  new_vectors = refl;
                  rows = insert_chunks-HasRows files h s w w.chunks _;
                  one_more = refl;
                },
              ))
          | inr bad ↦ rw bad (
              inl record {
                low =
                    subst (λ x. has_reached 4 x ≡ false)
                      (sym (extracted_manifest-HasStage w st.manifest low)) refl;
                same_ttl = refl;
                same_vectors = refl;
                same_rows = chunk-register w st.manifest;
                same_new = refl;
              })
        ]
