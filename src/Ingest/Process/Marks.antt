-- ===== src/Ingest/Process/Marks.antt =====
-- What a turn of the loop over the work list does to the watermarks of all documents.
use mathlib.Core.Path.{subst}
use chimera_ape.Base.{
  ℕ, ◌≤◌, ◌≡◌, refl, ◌∙◌, true, false, not, Option, some, List, [], ◌++◌, arith, Bytes, bytes_eq,
  codes, is_empty, Bool-cases, Option-cases, ◌⊎◌, inl, inr, map, length, if-cases,
}
use chimera_ape.Chunk.{Chunk, default_options}
use chimera_ape.Chunk.Assemble.{chunk_text}
use chimera_ape.Hash.{Hashes}
use chimera_ape.Manifest.{Stage, embedded, extracted, vectors_written, stage_number, Manifest}
use chimera_ape.Manifest.Ops.{insert_doc, upsert_path, set_stage, stage_of}
use chimera_ape.Manifest.Ops.Laws.{stage_of-set_stage, stage_of-insert_doc, stage_of-supersede}
use chimera_ape.Util.Base64.{base64_encode}
use chimera_ape.Ingest.{DocWork}
use chimera_ape.Ingest.Visit.{has_reached}
use chimera_ape.Ingest.Visit.Plan.{doc-upsert_path}
use chimera_ape.Ingest.Document.{
  Services, RunState, text_of, embed_all, register, keys_of, vectors_of, insert_media,
  insert_chunks, turtle_of,
}
use chimera_ape.Ingest.Process.{
  extracted_manifest, write_failed, write_done, write_document, embed_document, media_vector,
  with_chunks, derive, derive_prompt, registered, process,
}
use chimera_ape.Ingest.Process.Outcome.{doc-insert_chunks, doc-insert_media}
use chimera_ape.Ingest.Process.Stages.{stage_of-doc}

-- Only the document `k` has another watermark, and not one at `vectors_written` or above unless it
-- had that before.
pub record IsLower (k : Bytes) (m m' : Manifest) : Type 0 where
  pub others : (j : Bytes) → bytes_eq k j ≡ false → stage_of j m' ≡ stage_of j m
  pub own :
      (n : ℕ) → 4 ≤ n → has_reached n (stage_of k m') ≡ true → has_reached n (stage_of k m) ≡ true

pub IsLower-refl : (k : Bytes) (m : Manifest) → IsLower k m m
IsLower-refl k m = record { others = λ j e. refl; own = λ n big h. h }

pub IsLower-trans :
    (k : Bytes) (m m' m'' : Manifest) → IsLower k m m' → IsLower k m' m'' → IsLower k m m''
IsLower-trans k m m' m'' p q = record {
  others = λ j e. q.others j e ∙ p.others j e;
  own = λ n big h. p.own n big (q.own n big h);
}

set_stage-IsLower :
    (k : Bytes) (st : Stage) (m : Manifest)
    → has_reached 4 (some (stage_number st)) ≡ false
    → IsLower k m (set_stage k st m)
set_stage-IsLower k st m low = record {
  others = λ j e. stage_of-set_stage k st m j ∙ rw e refl;
  own = λ n big h. ground (arith, stage_of-set_stage k st m k);
}

insert_doc-IsLower :
    (now k : Bytes) (bytes : ℕ) (mime : Bytes) (m : Manifest)
    → IsLower k m (insert_doc now k bytes mime m)
insert_doc-IsLower now k bytes mime m = record {
  others = λ j e. stage_of-insert_doc now k bytes mime m j ∙ rw e refl;
  own = λ n big h. ground (arith, stage_of-insert_doc now k bytes mime m k);
}

raised :
    (k : Bytes) (m : Manifest) (n : ℕ)
    → 4 ≤ n
    → has_reached n (stage_of k (set_stage k vectors_written m)) ≡ true
    → (n ≡ 4) ⊎ (has_reached n (stage_of k m) ≡ true)
raised k m n big h = ground (arith, stage_of-set_stage k vectors_written m k)

same-IsLower :
    (k : Bytes) (m m' : Manifest) → ((j : Bytes) → stage_of j m' ≡ stage_of j m) → IsLower k m m'
same-IsLower k m m' same = record {
  others = λ j e. same j;
  own = λ n big h. subst (λ x. has_reached n x ≡ true) (same k) h;
}

-- The Turtle text of the document was appended, and its watermark is `vectors_written`.
pub record IsAppended {F D : Type 0} (files : Bytes → Option Bytes) (h : Hashes) (s : Services F D)
    (w : DocWork) (st st' : RunState F) : Type 0 where
  pub others :
      (j : Bytes) → bytes_eq w.doc_id j ≡ false → stage_of j st'.manifest ≡ stage_of j st.manifest
  pub own :
      (n : ℕ)
      → 4 ≤ n
      → has_reached n (stage_of w.doc_id st'.manifest) ≡ true
      → (n ≡ 4) ⊎ (has_reached n (stage_of w.doc_id st.manifest) ≡ true)
  pub chunks : List Chunk
  pub some_chunk : is_empty chunks ≡ false
  pub new_ttl : st'.ttl ≡ st.ttl ++ turtle_of files h s (record w { chunks = chunks })

module _ {F D : Type 0} (files : Bytes → Option Bytes) (h : Hashes) (s : Services F D) where
  register-IsLower : (w : DocWork) (m : Manifest) → IsLower w.doc_id m (register files h s w m)
  unfolding register
  register-IsLower w m =
      let m₁ = insert_doc s.now w.doc_id w.size w.mime m in
      let m₂ = upsert_path w.rel_path w.mtime w.size w.doc_id m₁ in
      let e = doc-upsert_path w.rel_path w.mtime w.size w.doc_id m₁ in
      IsLower-trans w.doc_id m m₁ _ (insert_doc-IsLower s.now w.doc_id w.size w.mime m) (
        if-cases (IsLower w.doc_id m₁) (not (is_empty w.superseded_old)) _ _
          (λ _.
            same-IsLower w.doc_id m₁ _
              λ j. stage_of-supersede w.superseded_old w.doc_id m₂ j ∙ stage_of-doc j m₂ m₁ e)
          (λ _. same-IsLower w.doc_id m₁ m₂ λ j. stage_of-doc j m₂ m₁ e))

  extracted_manifest-IsLower :
      (w : DocWork) (m : Manifest) → IsLower w.doc_id m (extracted_manifest files h s w m)
  unfolding extracted_manifest
  extracted_manifest-IsLower w m =
      let m₁ = set_stage w.doc_id embedded m in
      IsLower-trans w.doc_id m m₁ _ (set_stage-IsLower w.doc_id embedded m refl)
        (set_stage-IsLower w.doc_id extracted m₁ refl)

  -- What a turn comes to.
  abbrev pub Turn : DocWork → RunState F → RunState F → Type 0
  Turn w st st' =
      ((st'.ttl ≡ st.ttl) × IsLower w.doc_id st.manifest st'.manifest)
      ⊎ IsAppended files h s w st st'

  done-IsAppended :
      (w : DocWork) (vecs : List (List F)) (v : List F) (st : RunState F)
      → is_empty w.chunks ≡ false
      → IsAppended files h s w st (write_done files h s w vecs v st)
  unfolding write_done
  done-IsAppended w vecs v st some_chunk =
      let m₁ = extracted_manifest files h s w st.manifest in
      let m₂ = insert_media files h s w v m₁ in
      let m₃ = set_stage w.doc_id vectors_written m₂ in
      let m₄ = insert_chunks files h s w w.chunks m₃ in
      let low = extracted_manifest-IsLower w st.manifest in
      let last : (j : Bytes) → stage_of j m₄ ≡ stage_of j m₃ =
        λ j. stage_of-doc j m₄ m₃ (doc-insert_chunks files h s w w.chunks m₃) in
      let media : (j : Bytes) → stage_of j m₂ ≡ stage_of j m₁ =
        λ j. stage_of-doc j m₂ m₁ (doc-insert_media files h s w v m₁) in
      record {
        others = λ j e.
            last j
            ∙ stage_of-set_stage w.doc_id vectors_written m₂ j
            ∙ rw e (media j)
            ∙ low.others j e;
        own = λ n big reached.
            elim (raised w.doc_id m₂ n big
              (subst (λ x. has_reached n x ≡ true) (last w.doc_id) reached)) [
                | inl e ↦ inl e
                | inr before ↦
                    inr
                      (low.own n big (subst (λ x. has_reached n x ≡ true) (media w.doc_id) before))
              ];
        chunks = w.chunks;
        some_chunk = some_chunk;
        new_ttl = refl;
      }

  failed-IsLower :
      (w : DocWork) (st : RunState F)
      → IsLower w.doc_id st.manifest (write_failed files h s w st).manifest
  unfolding write_failed
  failed-IsLower w st = extracted_manifest-IsLower w st.manifest

  -- From the registered document on, whose row is new or is as it was.
  after-registered :
      (w : DocWork) (st st' : RunState F) → Turn w (registered files h s w st) st' → Turn w st st'
  unfolding registered
  after-registered w st st' (inl (e, low)) =
      inl (e, IsLower-trans w.doc_id _ _ _ (register-IsLower w st.manifest) low)
  after-registered w st st' (inr done) =
      let reg = register-IsLower w st.manifest in
      inr record {
        others = λ j e. done.others j e ∙ reg.others j e;
        own = λ n big reached. elim (done.own n big reached) [
          | inl e ↦ inl e
          | inr before ↦ inr (reg.own n big before)
        ];
        chunks = done.chunks;
        some_chunk = done.some_chunk;
        new_ttl = done.new_ttl;
      }

  write_document-Turn :
      (w : DocWork) (vecs : List (List F)) (v : List F) (st : RunState F)
      → is_empty w.chunks ≡ false
      → Turn w st (write_document files h s w vecs v st)
  unfolding write_document write_failed
  write_document-Turn w vecs v st some_chunk =
      if-cases (Turn w st) (s.upsert (keys_of files h s w v) (vectors_of files h s vecs v)) _ _
        (λ _. inr (done-IsAppended w vecs v st some_chunk)) (λ _. inl (refl, failed-IsLower w st))

  unmoved : (w : DocWork) (st : RunState F) → Turn w st st
  unmoved w st = inl (refl, IsLower-refl w.doc_id st.manifest)

  embed_document-Turn :
      (w : DocWork) (v : List F) (st : RunState F) → Turn w st (embed_document files h s w v st)
  unfolding embed_document
  embed_document-Turn w v st =
      if-cases (Turn w st) (is_empty w.chunks) _ _ (λ _. unmoved w st)
        (λ some_chunk.
          elim (Option-cases (embed_all files h s (length w.chunks) (map text_of w.chunks))) [
            | inl bad ↦ rw bad (unmoved w st)
            | inr (vecs, e) ↦ rw e (write_document-Turn w vecs v st some_chunk)
          ])

  derive-Turn : (w : DocWork) (st : RunState F) → Turn w st (derive files h s w st)
  unfolding derive
  derive-Turn w st = elim (Option-cases (files w.abs_path)) [
    | inl gone ↦ rw (gone, derive) (unmoved w st)
    | inr (bytes, found) ↦
        rw (found, derive)
          (elim (Option-cases
            (s.chat_media (derive_prompt files h s w) (base64_encode bytes) w.mime)) [
              | inl silent ↦ rw (silent, derive) (unmoved w st)
              | inr (text, answered) ↦
                  rw (answered, derive)
                    (if-cases (Turn w st) (is_empty text) _ _ (λ _. unmoved w st)
                      (λ _.
                        with_chunks-Turn w st (chunk_text text (codes "text/plain") default_options)
                          (media_vector files h s (s.embed_media (base64_encode bytes)))))
            ])
  ]
    where
      with_chunks-Turn :
          (w : DocWork) (st : RunState F) (cks : List Chunk) (v : List F)
          → Turn w st (embed_document files h s (with_chunks files h s w cks) v st)
      with_chunks-Turn w st cks v = elim (embed_document-Turn (with_chunks files h s w cks) v st) [
        | inl quiet ↦ inl quiet
        | inr done ↦ inr record {
          others = done.others;
          own = done.own;
          chunks = done.chunks;
          some_chunk = done.some_chunk;
          new_ttl = done.new_ttl;
        }
      ]

  -- A turn leaves the state as it is if the document is committed; otherwise it writes nothing, or
  -- the document's Turtle text, and raises no watermark but that one.
  pub process-Turn :
      (w : DocWork) (st : RunState F)
      → (process files h s w st ≡ st)
        ⊎ ((has_reached 6 (stage_of w.doc_id st.manifest) ≡ false)
            × Turn w st (process files h s w st))
  unfolding process
  process-Turn w st = elim (Bool-cases (has_reached 6 (stage_of w.doc_id st.manifest))) [
    | inl done ↦ inl (rw done refl)
    | inr low ↦ inr (
      low,
      rw low (
          if-cases (Turn w st) (not (bytes_eq w.modality (codes "text"))) _ _
            (λ _. after-registered w st _ (derive-Turn w (registered files h s w st)))
            (λ _. after-registered w st _ (embed_document-Turn w [] (registered files h s w st)))),
    )
  ]
