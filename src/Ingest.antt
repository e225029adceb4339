-- ===== src/Ingest.antt =====
-- src/pipeline.h and src/ingest.cpp: the data of the ingest pipeline. What a file holds, and what the
-- organs answer, are parameters of the stages that ask for it.
pub mod Visit
pub mod Document
pub mod Process
pub mod Load
pub mod Staging
pub mod Run
use chimera_ape.Base.{ℕ, List, [], ◌∷◌, ◌++◌, Bool, if◌then◌else◌, not, Bytes, codes, is_empty}
use chimera_ape.Chunk.{Chunk}
use chimera_ape.Cli.{Options}
use chimera_ape.Manifest.{Manifest}

-- `absolute` is `fs::absolute`.
unfoldable pub resolve_db_dir : (Bytes → Bytes) → Options → Bytes
resolve_db_dir absolute o =
    if not (is_empty o.db)
    then o.db
    else if not (is_empty o.dir)
    then absolute o.dir ++ codes "/.chimera"
    else absolute (codes ".chimera")

pub record DocWork : Type 0 where
  pub doc_id : Bytes
  pub rel_path : Bytes
  pub abs_path : Bytes
  pub mime : Bytes
  pub modality : Bytes
  pub size : ℕ
  pub mtime : ℕ
  pub superseded_old : Bytes
  pub chunks : List Chunk

-- What the walk of a corpus changes. `pending` is what is appended to `staging/pending.ttl`.
pub record WalkState : Type 0 where
  pub manifest : Manifest
  pub enqueued : List Bytes
  pub work : List DocWork
  pub pending : Bytes
  pub n_skipped : ℕ
  pub n_superseded : ℕ

abbrev pub start_walk : Manifest → WalkState
start_walk m = record {
  manifest = m;
  enqueued = [];
  work = [];
  pending = [];
  n_skipped = 0;
  n_superseded = 0;
}
