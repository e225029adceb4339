-- ===== src/Ingest/Process/Turn.antt =====
-- One turn of the loop over the work list, from its guard on.
use mathlib.Core.Path.{subst}
use chimera_ape.Base.{
  ℕ, ◌≡◌, refl, sym, true, false, not, Option, none, some, List, [], arith, Bytes, bytes_eq, codes,
  is_empty, Option-cases, inl, inr, map, length, if-cases,
}
use chimera_ape.Chunk.{default_options}
use chimera_ape.Chunk.Assemble.{chunk_text}
use chimera_ape.Hash.{Hashes}
use chimera_ape.Manifest.{committed, vectors_written, stage_number}
use chimera_ape.Manifest.Ops.{stage_of}
use chimera_ape.Util.Base64.{base64_encode}
use chimera_ape.Ingest.{DocWork}
use chimera_ape.Ingest.Visit.{has_reached}
use chimera_ape.Ingest.Document.{Services, RunState, text_of, embed_all, register}
use chimera_ape.Ingest.Process.{
  embed_document, media_vector, with_chunks, derive, derive_prompt, registered, process,
}
use chimera_ape.Ingest.Process.Outcome.{
  IsRetry, Turned, listed, derived, Outcome, stage_of-register, chunk-register,
  write_document-Turned,
}

-- Below `vectors_written` is below `committed`.
low-uncommitted :
    (st : Option ℕ) → has_reached 4 st ≡ false → has_reached (stage_number committed) st ≡ false
low-uncommitted none low = refl
low-uncommitted (some n) low = ground arith

module _ {F D : Type 0} (files : Bytes → Option Bytes) (h : Hashes) (s : Services F D) where
  abbrev Low : DocWork → RunState F → Type 0
  Low w st = has_reached (stage_number vectors_written) (stage_of w.doc_id st.manifest) ≡ false

  registered-IsRetry :
      (w : DocWork) (st : RunState F)
      → Low w st
      → IsRetry files h s w.doc_id st (registered files h s w st)
  unfolding registered
  registered-IsRetry w st low =
      let (n, at, small) = stage_of-register files h s w st.manifest low in
      record {
        low = subst (λ x. has_reached 4 x ≡ false) (sym at) small;
        same_ttl = refl;
        same_vectors = refl;
        same_rows = chunk-register files h s w st.manifest;
        same_new = refl;
      }

  embed_document-Turned :
      (w : DocWork) (v : List F) (st : RunState F)
      → Low w st
      → Turned files h s w v st (embed_document files h s w v (registered files h s w st))
  unfolding embed_document
  embed_document-Turned w v st low =
      if-cases (Turned files h s w v st) (is_empty w.chunks) _ _
        (λ _. inl (registered-IsRetry w st low))
        (λ _. elim (Option-cases (embed_all files h s (length w.chunks) (map text_of w.chunks))) [
          | inl bad ↦ rw bad (inl (registered-IsRetry w st low))
          | inr (vecs, e) ↦ rw e (write_document-Turned files h s w vecs v st e low)
        ])

  derive-Outcome :
      (w : DocWork) (st : RunState F)
      → bytes_eq w.modality (codes "text") ≡ false
      → Low w st
      → Outcome files h s w st (derive files h s w (registered files h s w st))
  unfolding derive registered register
  derive-Outcome w st media low = elim (Option-cases (files w.abs_path)) [
    | inl gone ↦ rw (gone, derive) (inl (registered-IsRetry w st low))
    | inr (bytes, found) ↦
        rw (found, derive)
          (elim (Option-cases
            (s.chat_media (derive_prompt files h s w) (base64_encode bytes) w.mime)) [
              | inl silent ↦ rw (silent, derive) (inl (registered-IsRetry w st low))
              | inr (text, answered) ↦
                  rw (answered, derive)
                    (if-cases (Outcome files h s w st) (is_empty text) _ _
                      (λ _. inl (registered-IsRetry w st low))
                      (λ _. derived_turn w st bytes text media low found answered))
            ])
  ]
    where
      derived_turn :
          (w : DocWork) (st : RunState F) (bytes text : Bytes)
          → bytes_eq w.modality (codes "text") ≡ false
          → Low w st
          → files w.abs_path ≡ some bytes
          → s.chat_media (derive_prompt files h s w) (base64_encode bytes) w.mime ≡ some text
          → Outcome files h s w st (
              embed_document files h s
                (with_chunks files h s w (chunk_text text (codes "text/plain") default_options))
                (media_vector files h s (s.embed_media (base64_encode bytes)))
                (registered files h s w st))
      derived_turn w st bytes text media low found answered =
          let cks = chunk_text text (codes "text/plain") default_options in
          let vec = media_vector files h s (s.embed_media (base64_encode bytes)) in
          elim (embed_document-Turned (with_chunks files h s w cks) vec st low) [
            | inl retry ↦ inl retry
            | inr (vecs, written) ↦
                inr (cks, vec, vecs, derived bytes text media found answered refl refl, written)
          ]

  text-Outcome :
      (w : DocWork) (st : RunState F)
      → bytes_eq w.modality (codes "text") ≡ true
      → Low w st
      → Outcome files h s w st (embed_document files h s w [] (registered files h s w st))
  text-Outcome w st is_text low = elim (embed_document-Turned w [] st low) [
    | inl retry ↦ inl retry
    | inr (vecs, written) ↦ inr (w.chunks, [], vecs, listed is_text refl refl, written)
  ]

  -- A turn for a document below `vectors_written` leaves it below and writes no text, vector or chunk
  -- row of it; or it has the vectors of all its chunks accepted, which are those of the work list or of
  -- the text that the model made of the media file, its Turtle text appended, a row for the key of each
  -- chunk and its watermark at `vectors_written`.
  pub process-Outcome :
      (w : DocWork) (st : RunState F)
      → has_reached (stage_number vectors_written) (stage_of w.doc_id st.manifest) ≡ false
      → Outcome files h s w st (process files h s w st)
  unfolding process
  process-Outcome w st low = rw (low-uncommitted (stage_of w.doc_id st.manifest) low) (
      if-cases (Outcome files h s w st) (not (bytes_eq w.modality (codes "text"))) _ _
        (λ media. derive-Outcome w st (ground (arith, media)) low)
        (λ is_text. text-Outcome w st (ground (arith, is_text)) low))
