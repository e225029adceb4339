-- ===== src/Ingest/Document.antt =====
-- src/ingest.cpp: stages 4 to 7 for one document of the work list, up to its Turtle text. `F` is the
-- type of a vector's components and `D` that of a confidence, both floating point in the code.
pub mod Embed
pub mod Atomic
use mathlib.Core.Option
use chimera_ape.Base.{
  ℕ, zero, suc, ◌+◌, Bool, true, false, not, Option, none, some, List, [], ◌∷◌, ◌++◌, map, ltb,
  if◌then◌else◌, Bytes, codes, bytes_eq, is_empty, length, take, drop, stream, ◌&&◌,
}
use chimera_ape.Chunk.{Chunk, default_options}
use chimera_ape.Chunk.Assemble.{chunk_text}
use chimera_ape.Extract.{Extraction}
use chimera_ape.Extract.Parse.{extract_chunk}
use chimera_ape.Json.{JsonLib}
use chimera_ape.Hash.{Hashes, vec_key}
use chimera_ape.Manifest.{
  Stage, committed, embedded, extracted, vectors_written, stage_number, ChunkRow, Manifest,
}
use chimera_ape.Manifest.Ops.{
  insert_doc, upsert_path, supersede, set_stage, stage_of, insert_chunk, chunks_of, veckey_of,
}
use chimera_ape.Ttl.{ChunkTriples, DocTriples}
use chimera_ape.Ttl.Emit.{emit_doc, emit_chunk}
use chimera_ape.Util.Base64.{base64_encode}
use chimera_ape.Util.ChunkId.{chunk_id}
use chimera_ape.Ingest.{DocWork}
use chimera_ape.Ingest.Visit.{has_reached}

-- `kEmbedBatch`
abbrev pub embed_batch : ℕ
embed_batch = 16

-- What the vector store is asked to do, in order.
pub data VectorOp (F : Type 0) : Type 0 where
  upserted : List ℕ → List (List F) → VectorOp F
  removed : List ℕ → VectorOp F

-- The answers of the organs and of the clock.
pub record Services (F D : Type 0) : Type 0 where
  pub embed : List Bytes → Option (List (List F))
  pub chat_media : Bytes → Bytes → Bytes → Option Bytes
  pub embed_media : Bytes → Option (List F)
  pub chat : Bytes → Bytes → Option Bytes
  pub json : JsonLib D
  pub zero_confidence : D
  pub upsert : List ℕ → List (List F) → Bool
  pub format_confidence : D → Bytes
  pub now : Bytes
  pub iso8601_now : Bytes

pub record RunState (F : Type 0) : Type 0 where
  pub manifest : Manifest
  pub vectors : List (VectorOp F)
  pub ttl : Bytes
  pub n_new : ℕ
  pub n_chunks : ℕ
  pub n_failed_extractions : ℕ

abbrev pub image_derive_prompt : Bytes
image_derive_prompt =
    codes
      "If this image contains readable text, transcribe it verbatim and completely. Otherwise, describe the scene concisely but thoroughly: name visible objects, people, places, text fragments, and any identifiable context. Output only the transcription or description."

abbrev pub audio_derive_prompt : Bytes
audio_derive_prompt =
    codes
      "Transcribe this audio verbatim and completely. If it is not speech, describe the sound concisely (speakers, music, ambience, events). Output only the transcription or description."

abbrev pub text_of : Chunk → Bytes
text_of c = c.text

-- The text of `emit_doc`'s `supersededBy` line.
abbrev superseded_line : Bytes → Bytes → Bytes
superseded_line old new = stream (
    codes "<chimera://doc/"
    ∷ old
    ∷ codes "> <chimera://ontology#supersededBy> <chimera://doc/"
    ∷ new
    ∷ codes "> .\n"
    ∷ [])

module _ {F D : Type 0} (files : Bytes → Option Bytes) (h : Hashes) (s : Services F D) where
  -- The batches, with the number of texts as fuel. `none` is a failed batch.
  unfoldable pub embed_all : ℕ → List Bytes → Option (List (List F))
  embed_all fuel [] = some []
  embed_all zero (t ∷ ts) = none
  embed_all (suc fuel) (t ∷ ts) =
      let later = embed_all fuel (drop embed_batch (t ∷ ts)) in
      elim (s.embed (take embed_batch (t ∷ ts))) [
        | none ↦ none
        | some got ↦ Option.map (◌++◌ got) later
      ]

  unfoldable pub register : DocWork → Manifest → Manifest
  unfolding insert_doc upsert_path supersede
  register w m =
      let m₁ = insert_doc s.now w.doc_id w.size w.mime m in
      let m₂ = upsert_path w.rel_path w.mtime w.size w.doc_id m₁ in
      if not (is_empty w.superseded_old) then supersede w.superseded_old w.doc_id m₂ else m₂

  unfoldable pub count_failed : List (Option (Extraction D)) → ℕ
  count_failed [] = 0
  count_failed (none ∷ es) = suc (count_failed es)
  count_failed (some _ ∷ es) = count_failed es

  abbrev pub key_of : DocWork → Chunk → ℕ
  key_of w ck = vec_key h (chunk_id w.doc_id ck.ordinal)

  -- The keys of a document's chunks, and its own under ordinal 0 where it has a media vector.
  unfoldable pub keys_of : DocWork → List F → List ℕ
  unfolding chunk_id
  keys_of w media_vec =
      map (key_of w) w.chunks
      ++ (if not (is_empty media_vec) then vec_key h (chunk_id w.doc_id 0) ∷ [] else [])

  unfoldable pub vectors_of : List (List F) → List F → List (List F)
  vectors_of vecs media_vec = vecs ++ (if not (is_empty media_vec) then media_vec ∷ [] else [])

  abbrev media_row : DocWork → ChunkRow
  media_row w = record {
    chunk_id = chunk_id w.doc_id 0;
    doc_id = w.doc_id;
    ordinal = 0;
    vec_key = vec_key h (chunk_id w.doc_id 0);
    byte_start = 0;
    byte_end = w.size;
    modality = w.modality;
  }

  unfoldable pub insert_media : DocWork → List F → Manifest → Manifest
  unfolding insert_chunk chunk_id
  insert_media w media_vec m = if not (is_empty media_vec) then insert_chunk (media_row w) m else m

  -- The vectors of the document that this one replaces are removed.
  unfoldable pub tombstone : DocWork → Manifest → List (VectorOp F)
  unfolding chunks_of
  tombstone w m =
      let old_keys = map veckey_of (chunks_of (codes "text") w.superseded_old m) in
      if not (is_empty w.superseded_old) && not (is_empty old_keys)
      then removed old_keys ∷ []
      else []

  abbrev pub chunk_row : DocWork → Chunk → ChunkRow
  chunk_row w ck = record {
    chunk_id = chunk_id w.doc_id ck.ordinal;
    doc_id = w.doc_id;
    ordinal = ck.ordinal;
    vec_key = key_of w ck;
    byte_start = ck.byte_start;
    byte_end = ck.byte_end;
    modality = codes "text";
  }

  unfoldable pub insert_chunks : DocWork → List Chunk → Manifest → Manifest
  unfolding insert_chunk chunk_id
  insert_chunks w [] m = m
  insert_chunks w (ck ∷ cks) m = insert_chunks w cks (insert_chunk (chunk_row w ck) m)

  abbrev bare_triples : DocWork → Chunk → ChunkTriples D
  bare_triples w ck = record {
    chunk_id = chunk_id w.doc_id ck.ordinal;
    doc_id = w.doc_id;
    ordinal = ck.ordinal;
    byte_start = ck.byte_start;
    byte_end = ck.byte_end;
    text = ck.text;
    summary = [];
    extraction_failed = false;
    tags = [];
    entities = [];
    relations = [];
    has_next = ltb ck.ordinal (length w.chunks);
  }

  unfoldable pub chunk_triples : DocWork → Chunk → Option (Extraction D) → ChunkTriples D
  unfolding chunk_id
  chunk_triples w ck none = record (bare_triples w ck) { extraction_failed = true }
  chunk_triples w ck (some x) = record (bare_triples w ck) {
    summary = x.summary;
    tags = x.tags;
    entities = x.entities;
    relations = x.relations;
  }

  abbrev pub extraction_of : Chunk → Option (Extraction D)
  extraction_of ck = extract_chunk s.json s.zero_confidence s.chat ck.text

  unfoldable pub emit_chunks : DocWork → List Chunk → Bytes
  unfolding chunk_triples emit_chunk extract_chunk
  emit_chunks w [] = []
  emit_chunks w (ck ∷ cks) =
      emit_chunk s.format_confidence (chunk_triples w ck (extraction_of ck)) ++ emit_chunks w cks

  abbrev doc_triples : DocWork → DocTriples
  doc_triples w = record {
    doc_id = w.doc_id;
    paths = w.rel_path ∷ [];
    bytes = w.size;
    mime = w.mime;
    modality = w.modality;
    ingested_at = s.iso8601_now;
    chunk_count = length w.chunks;
    superseded_by = [];
  }

  -- The Turtle text of a document and its chunks.
  unfoldable pub turtle_of : DocWork → Bytes
  unfolding emit_doc emit_chunks
  turtle_of w =
      emit_doc (doc_triples w)
      ++ (if not (is_empty w.superseded_old) then superseded_line w.superseded_old w.doc_id else [])
      ++ emit_chunks w w.chunks
