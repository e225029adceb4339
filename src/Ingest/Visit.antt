-- ===== src/Ingest/Visit.antt =====
-- src/ingest.cpp: the callback of the walk, which decides what becomes of each file.
pub mod NoOp
pub mod Plan
use mathlib.Core.Option
use chimera_ape.Base.{
  ℕ, ◌+◌, Bool, true, false, not, ◌&&◌, ◌||◌, Option, none, some, List, [], ◌∷◌, ◌++◌, ◌==◌, leb,
  if◌then◌else◌, Bytes, codes, bytes_eq, stream,
}
use chimera_ape.Chunk.{Chunk, default_options}
use chimera_ape.Chunk.Assemble.{chunk_text}
use chimera_ape.Chunk.Html.{strip_html}
use chimera_ape.Hash.{Hashes, triple_tap}
use chimera_ape.Manifest.{committed, stage_number, PathInfo, Manifest}
use chimera_ape.Manifest.Ops.{path_info, upsert_path, has_doc, stage_of}
use chimera_ape.Ttl.Escape.{ttl_escape}
use chimera_ape.Walk.{WalkEntry}
use chimera_ape.Ingest.{DocWork, WalkState}

-- `st && *st >= n`
abbrev pub has_reached : ℕ → Option ℕ → Bool
has_reached n none = false
has_reached n (some st) = leb n st

unfoldable pub fully_ingested : Bytes → Manifest → Bool
unfolding stage_of
fully_ingested doc_id m = has_reached (stage_number committed) (stage_of doc_id m)

-- `set::count`
unfoldable pub is_enqueued : Bytes → List Bytes → Bool
is_enqueued id [] = false
is_enqueued id (x ∷ xs) = bytes_eq x id || is_enqueued id xs

-- `known && known->mtime == e.mtime && known->size == e.size && fully_ingested(known->doc_id)`
unfoldable pub is_unchanged : WalkEntry → Option PathInfo → Manifest → Bool
unfolding fully_ingested
is_unchanged e none m = false
is_unchanged e (some k) m = k.mtime == e.mtime && k.size == e.size && fully_ingested k.doc_id m

-- `known && known->doc_id == *id`
abbrev pub is_known_as : Bytes → Option PathInfo → Bool
is_known_as id none = false
is_known_as id (some k) = bytes_eq k.doc_id id

unfoldable pub skip : WalkState → WalkState
skip st = record st { n_skipped = st.n_skipped + 1 }

unfoldable pub upsert_entry : WalkEntry → Bytes → WalkState → WalkState
unfolding upsert_path
upsert_entry e id st = record st { manifest = upsert_path e.rel_path e.mtime e.size id st.manifest }

unfoldable pub locate : WalkEntry → Bytes → WalkState → WalkState
unfolding ttl_escape
locate e id st = record st {
  pending =
      st.pending
      ++ stream (
          codes "<chimera://doc/"
          ∷ id
          ∷ codes "> <chimera://ontology#locatedAt> \""
          ∷ ttl_escape e.rel_path
          ∷ codes "\" .\n"
          ∷ []);
}

-- The document that the path had before, if it is another one; empty if there is none.
unfoldable pub superseded_old : Bytes → Option PathInfo → Bytes
superseded_old id none = []
superseded_old id (some k) = if bytes_eq k.doc_id id then [] else k.doc_id

unfoldable pub supersedes : Bytes → Option PathInfo → ℕ
supersedes id none = 0
supersedes id (some k) = if bytes_eq k.doc_id id then 0 else 1

unfoldable pub push_work : WalkEntry → Bytes → Option PathInfo → List Chunk → WalkState → WalkState
unfolding superseded_old
push_work e id known chunks st = record st {
  enqueued = id ∷ st.enqueued;
  work =
      st.work
      ++ record {
        doc_id = id;
        rel_path = e.rel_path;
        abs_path = e.abs_path;
        mime = e.mime;
        modality = e.modality;
        size = e.size;
        mtime = e.mtime;
        superseded_old = superseded_old id known;
        chunks = chunks;
      }
        ∷ [];
}

unfoldable pub text_chunks : Bytes → Bytes → List Chunk
unfolding strip_html chunk_text bytes_eq
text_chunks mime content =
    chunk_text (if bytes_eq mime (codes "text/html") then strip_html content else content) mime
      default_options

module _ (files : Bytes → Option Bytes) where
  -- The count of superseded documents grows even if the file can no longer be read.
  unfoldable pub enqueue : WalkEntry → Bytes → Option PathInfo → WalkState → WalkState
  unfolding push_work supersedes text_chunks bytes_eq
  enqueue e id known st =
      let counted = record st { n_superseded = st.n_superseded + supersedes id known } in
      if bytes_eq e.modality (codes "text")
      then elim (files e.abs_path) [
        | none ↦ counted
        | some content ↦ push_work e id known (text_chunks e.mime content) counted
      ]
      else push_work e id known [] counted

  unfoldable pub visit_id : WalkEntry → Bytes → Option PathInfo → WalkState → WalkState
  unfolding skip upsert_entry locate enqueue is_enqueued fully_ingested has_doc
  visit_id e id known st =
      if is_known_as id known && fully_ingested id st.manifest
      then skip (upsert_entry e id st)
      else if is_enqueued id st.enqueued
          || (has_doc id st.manifest && fully_ingested id st.manifest)
      then skip (locate e id (upsert_entry e id st))
      else enqueue e id known st

  unfoldable pub visit : Hashes → Bool → WalkEntry → WalkState → WalkState
  unfolding skip is_unchanged path_info triple_tap visit_id
  visit h paranoid e st =
      let known = path_info e.rel_path st.manifest in
      if is_unchanged e known st.manifest
      then skip st
      else elim (triple_tap h paranoid (files e.abs_path)) [
        | none ↦ st
        | some id ↦ visit_id e id known st
      ]

  -- `walk(root, wo, …)`, for the entries that the walk comes upon.
  unfoldable pub visit_all : Hashes → Bool → List WalkEntry → WalkState → WalkState
  unfolding visit
  visit_all h paranoid [] st = st
  visit_all h paranoid (e ∷ es) st = visit_all h paranoid es (visit h paranoid e st)
