-- ===== src/Ttl.antt =====
-- src/ttl.h and src/ttl.cpp: the triples of a document and of a chunk, and their Turtle text.
pub mod Escape
pub mod Iri
pub mod Emit
use chimera_ape.Base.{ℕ, Bool, List, Bytes}

pub record EntityRef : Type 0 where
  pub name : Bytes
  pub type : Bytes

-- A confidence is a double: its type is a parameter.
pub record RelationRef (D : Type 0) : Type 0 where
  pub subject : Bytes
  pub predicate : Bytes
  pub object : Bytes
  pub confidence : D

pub record ChunkTriples (D : Type 0) : Type 0 where
  pub chunk_id : Bytes
  pub doc_id : Bytes
  pub ordinal : ℕ
  pub byte_start : ℕ
  pub byte_end : ℕ
  pub text : Bytes
  pub summary : Bytes
  pub extraction_failed : Bool
  pub tags : List Bytes
  pub entities : List EntityRef
  pub relations : List (RelationRef D)
  pub has_next : Bool

pub record DocTriples : Type 0 where
  pub doc_id : Bytes
  pub paths : List Bytes
  pub bytes : ℕ
  pub mime : Bytes
  pub modality : Bytes
  pub ingested_at : Bytes
  pub chunk_count : ℕ
  pub superseded_by : Bytes
