-- ===== src/Manifest.antt =====
-- src/manifest.h and src/manifest.cpp: the bookkeeping tables. The SQL statements of the code are
-- read as operations on the tables' rows; a failing SQLite call, which throws, is not modelled.
pub mod Table
pub mod Ops
pub mod Transaction
use chimera_ape.Base.{ℕ, zero, suc, Bool, Option, List, [], Bytes}

-- The watermark of a document.
pub data Stage : Type 0 where
  identified chunked embedded extracted vectors_written graph_written committed : Stage

abbrev pub stage_number : Stage → ℕ
stage_number identified = 0
stage_number chunked = 1
stage_number embedded = 2
stage_number extracted = 3
stage_number vectors_written = 4
stage_number graph_written = 5
stage_number committed = 6

pub record PathInfo : Type 0 where
  pub doc_id : Bytes
  pub mtime : ℕ
  pub size : ℕ

-- A row of `chunk`. A key is a `uint64_t`, stored bit for bit.
pub record ChunkRow : Type 0 where
  pub chunk_id : Bytes
  pub doc_id : Bytes
  pub ordinal : ℕ
  pub vec_key : ℕ
  pub byte_start : ℕ
  pub byte_end : ℕ
  pub modality : Bytes

pub record DocRow : Type 0 where
  pub docid : Bytes
  pub bytes : ℕ
  pub mime : Bytes
  pub stage : ℕ
  pub ingested_at : Bytes
  pub superseded_by : Option Bytes
  pub vacuumed : Bool

pub record PathRow : Type 0 where
  pub relpath : Bytes
  pub mtime : ℕ
  pub size : ℕ
  pub docid : Bytes

pub record MetaRow : Type 0 where
  pub key : Bytes
  pub value : Bytes

pub record Scoreboard : Type 0 where
  pub docs : ℕ
  pub chunks : ℕ
  pub superseded : ℕ

-- The tables of the schema.
pub record Manifest : Type 0 where
  pub doc : List DocRow
  pub path : List PathRow
  pub chunk : List ChunkRow
  pub meta : List MetaRow

abbrev pub empty_manifest : Manifest
empty_manifest = record { doc = []; path = []; chunk = []; meta = [] }
