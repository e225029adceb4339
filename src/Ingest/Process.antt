-- ===== src/Ingest/Process.antt =====
-- src/ingest.cpp: the loop over the work list, and the commit of stage 8.
pub mod Commit
pub mod Stages
pub mod Rows
pub mod Outcome
pub mod Turn
pub mod Progress
pub mod Marks
use mathlib.Core.Option
use chimera_ape.Base.{
  ℕ, ◌+◌, Bool, true, false, not, ◌&&◌, Option, none, some, List, [], ◌∷◌, ◌++◌, map, if◌then◌else◌,
  Bytes, codes, bytes_eq, is_empty, length,
}
use chimera_ape.Chunk.{Chunk, default_options}
use chimera_ape.Chunk.Assemble.{chunk_text}
use chimera_ape.Hash.{Hashes}
use chimera_ape.Manifest.{
  Stage, committed, embedded, extracted, vectors_written, stage_number, Manifest,
}
use chimera_ape.Manifest.Ops.{set_stage, stage_of}
use chimera_ape.Util.Base64.{base64_encode}
use chimera_ape.Ingest.{DocWork}
use chimera_ape.Ingest.Visit.{has_reached}
use chimera_ape.Ingest.Document.{
  VectorOp, upserted, Services, RunState, image_derive_prompt, audio_derive_prompt, text_of,
  embed_all, register, count_failed, keys_of, vectors_of, insert_media, tombstone, insert_chunks,
  turtle_of, extraction_of,
}

module _ {F D : Type 0} (files : Bytes → Option Bytes) (h : Hashes) (s : Services F D) where
  -- The manifest after stages 4 and 5.
  unfoldable pub extracted_manifest : DocWork → Manifest → Manifest
  unfolding set_stage
  extracted_manifest w m = set_stage w.doc_id extracted (set_stage w.doc_id embedded m)

  abbrev pub failures : DocWork → ℕ
  failures w = count_failed files h s (map (extraction_of files h s) w.chunks)

  -- The vectors were not written: the watermark stays at `extracted`.
  unfoldable pub write_failed : DocWork → RunState F → RunState F
  unfolding extracted_manifest count_failed
  write_failed w st = record st {
    manifest = extracted_manifest w st.manifest;
    n_failed_extractions = st.n_failed_extractions + failures w;
  }

  unfoldable pub write_done : DocWork → List (List F) → List F → RunState F → RunState F
  unfolding extracted_manifest count_failed insert_media keys_of vectors_of tombstone set_stage
      insert_chunks turtle_of
  write_done w vecs media_vec st =
      let m = insert_media files h s w media_vec (extracted_manifest w st.manifest) in
      record {
        manifest = insert_chunks files h s w w.chunks (set_stage w.doc_id vectors_written m);
        vectors =
            st.vectors
            ++ upserted (keys_of files h s w media_vec) (vectors_of files h s vecs media_vec)
              ∷ tombstone files h s w m;
        ttl = st.ttl ++ turtle_of files h s w;
        n_new = st.n_new + 1;
        n_chunks = st.n_chunks + length w.chunks;
        n_failed_extractions = st.n_failed_extractions + failures w;
      }

  -- Stages 5 to 7.
  unfoldable pub write_document : DocWork → List (List F) → List F → RunState F → RunState F
  unfolding write_failed write_done keys_of vectors_of
  write_document w vecs media_vec st =
      if s.upsert (keys_of files h s w media_vec) (vectors_of files h s vecs media_vec)
      then write_done w vecs media_vec st
      else write_failed w st

  -- Stage 4 and on, for a document with its chunks.
  unfoldable pub embed_document : DocWork → List F → RunState F → RunState F
  unfolding embed_all write_document
  embed_document w media_vec st =
      if is_empty w.chunks
      then st
      else elim (embed_all files h s (length w.chunks) (map text_of w.chunks)) [
        | none ↦ st
        | some vecs ↦ write_document w vecs media_vec st
      ]

  unfoldable pub media_vector : Option (List F) → List F
  media_vector none = []
  media_vector (some v) = v

  abbrev pub derive_prompt : DocWork → Bytes
  derive_prompt w =
      if bytes_eq w.modality (codes "image") then image_derive_prompt else audio_derive_prompt

  abbrev pub with_chunks : DocWork → List Chunk → DocWork
  with_chunks w cks = record w { chunks = cks }

  -- Stage 3b: the text of an image or of a sound comes from the model.
  unfoldable pub derive : DocWork → RunState F → RunState F
  unfolding base64_encode chunk_text embed_document media_vector bytes_eq
  derive w st = elim (files w.abs_path) [
    | none ↦ st
    | some bytes ↦ elim (s.chat_media (derive_prompt w) (base64_encode bytes) w.mime) [
      | none ↦ st
      | some derived ↦
          if is_empty derived
          then st
          else embed_document
              (with_chunks w (chunk_text derived (codes "text/plain") default_options))
              (media_vector (s.embed_media (base64_encode bytes))) st
    ]
  ]

  unfoldable pub registered : DocWork → RunState F → RunState F
  unfolding register
  registered w st = record st { manifest = register files h s w st.manifest }

  -- One turn of the loop over the work list.
  unfoldable pub process : DocWork → RunState F → RunState F
  unfolding stage_of registered derive embed_document bytes_eq
  process w st =
      if has_reached (stage_number committed) (stage_of w.doc_id st.manifest)
      then st
      else if not (bytes_eq w.modality (codes "text"))
      then derive w (registered w st)
      else embed_document w [] (registered w st)

  unfoldable pub process_all : List DocWork → RunState F → RunState F
  unfolding process
  process_all [] st = st
  process_all (w ∷ ws) st = process_all ws (process w st)

-- Stage 8, for one document.
unfoldable pub commit_one : DocWork → Manifest → Manifest
unfolding stage_of set_stage
commit_one w m =
    if has_reached (stage_number vectors_written) (stage_of w.doc_id m)
    then set_stage w.doc_id committed m
    else m

unfoldable pub commit_all : List DocWork → Manifest → Manifest
unfolding commit_one
commit_all [] m = m
commit_all (w ∷ ws) m = commit_all ws (commit_one w m)

-- `if (graph_ok)`
unfoldable pub commit_work : Bool → List DocWork → Manifest → Manifest
unfolding commit_all
commit_work graph_ok ws m = if graph_ok then commit_all ws m else m
