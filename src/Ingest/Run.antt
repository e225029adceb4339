-- ===== src/Ingest/Run.antt =====
-- src/ingest.cpp: `run_ingest` as a whole, from the options to the exit code, with the state of the
-- database that the next run finds.
pub mod Load
pub mod Emitted
pub mod Backed
pub mod Loaded
pub mod Published
pub mod Refined
pub mod Killed
pub mod Sequence
use mathlib.Core.Option
use chimera_ape.Util.Strtol.{ℤ, pos}
use chimera_ape.Base.{
  ℕ, ◌+◌, Bool, true, false, not, ◌&&◌, ◌||◌, Option, none, some, List, [], ◌∷◌, ◌++◌, ◌==◌, ltb,
  if◌then◌else◌, Bytes, codes, is_empty, length,
}
use chimera_ape.Cli.{Options}
use chimera_ape.Hash.{Hashes}
use chimera_ape.Manifest.{Manifest}
use chimera_ape.Manifest.Ops.{set_meta}
use chimera_ape.Organs.Lifecycle.{Organs, no_organs, Start, llama, turbovec, stop_all}
use chimera_ape.Organs.Paths.{Files, Environment, resolve, missing}
use chimera_ape.Supervisor.{Wait}
use chimera_ape.Ttl.Emit.{ttl_prologue}
use chimera_ape.Util.Decimal.{decimal}
use chimera_ape.Walk.{WalkOptions, default_walk_options}
use chimera_ape.Walk.Ignore.{load_ignore}
use chimera_ape.Walk.Traverse.{Entries, walk}
use chimera_ape.Ingest.{resolve_db_dir, DocWork, WalkState, start_walk}
use chimera_ape.Ingest.Document.{VectorOp, Services, RunState}
use chimera_ape.Ingest.Process.{process_all, commit_work}
use chimera_ape.Ingest.Staging.{StagingFile, run_name, append_to, mark_loaded, stage_pending}
use chimera_ape.Ingest.Visit.{visit_all}
use chimera_ape.Ingest.Run.Load.{Database, GraphStore, LoadEnd, load_graph}

-- What a run meets. `corpus` is the tree below the directory, `none` if it is no directory;
-- `opens_lock` and `locks` are the results of `open` and `flock`; `info` is the vector store's
-- dimension and count.
pub record World (F D : Type 0) : Type 0 where
  pub absolute : Bytes → Bytes
  pub corpus : Option Entries
  pub ignore_lines : List Bytes
  pub opens_lock : Bool
  pub locks : Bool
  pub files : Bytes → Option Bytes
  pub hashes : Hashes
  pub environment : Environment
  pub programs : Files
  pub llama_start : Start
  pub turbovec_start : Start
  pub services : Services F D
  pub info : Option (ℕ × ℕ)
  pub pid : ℕ
  pub graph : GraphStore
  pub llama_waits : List Wait
  pub turbovec_waits : List Wait
  pub qlever_waits : List Wait

pub record Ended (F : Type 0) : Type 0 where
  pub code : ℕ
  pub database : Database F
  pub organs : Organs

abbrev walk_options : Options → WalkOptions
walk_options o = record default_walk_options { include = o.include; exclude = o.exclude }

-- Whether the run goes on: it has the lock of the database.
unfoldable pub acquire_lock_or_die : Bool → Bool → Bool
acquire_lock_or_die opened flocked = not (not opened || not flocked)

-- `info->first > 0 && info->first != dim`
abbrev pub refuses : Option (ℕ × ℕ) → ℕ → Bool
refuses none dim = false
refuses (some (first, second)) dim = ltb 0 first && not (first == dim)

module _ {F D : Type 0} (order : List StagingFile → List StagingFile) (o : Options)
    (w : World F D) where
  abbrev pub db_dir : Bytes
  db_dir = resolve_db_dir w.absolute o

  -- The run ends, and the organs are stopped.
  unfoldable pub ended : ℕ → Organs → Database F → Ended F
  unfolding stop_all
  ended code organs db = record {
    code = code;
    database = db;
    organs = stop_all db_dir w.llama_waits w.turbovec_waits w.qlever_waits organs;
  }

  -- Stage 8.
  unfoldable pub finish : List DocWork → LoadEnd F → Ended F
  unfolding ended commit_work mark_loaded
  finish work l = ended (if l.graph_ok then 0 else 1) l.organs record l.database {
    manifest = commit_work l.graph_ok work l.database.manifest;
    staging = if l.graph_ok then mark_loaded l.database.staging else l.database.staging;
  }

  abbrev pub first_state : Database F → RunState F
  first_state db = record {
    manifest = db.manifest;
    vectors = db.vectors;
    ttl = ttl_prologue;
    n_new = 0;
    n_chunks = 0;
    n_failed_extractions = 0;
  }

  abbrev pub staged_run : RunState F → Database F → Database F
  staged_run st db = record db {
    manifest = st.manifest;
    vectors = st.vectors;
    staging = record db.staging { files = append_to (run_name w.pid) st.ttl db.staging.files };
  }

  -- Stages 4 to 8.
  unfoldable pub ingest_work : List DocWork → Organs → Database F → Ended F
  unfolding process_all ttl_prologue append_to load_graph finish
  ingest_work work organs db =
      let st = process_all w.files w.hashes w.services work (first_state db) in
      finish work (load_graph order w.graph db_dir st.n_chunks organs (staged_run st db))

  -- The dimension of the vectors, which the vector store must agree to.
  abbrev pub with_probe : Option (List (List F)) → List DocWork → Organs → Database F → Ended F
  with_probe none work organs db = ended 1 organs db
  with_probe (some []) work organs db = ended 1 organs db
  with_probe (some (v ∷ vs)) work organs db =
      let known = record db {
        manifest = set_meta (codes "embedding_dim") (decimal (length v)) db.manifest;
      } in
      if refuses w.info (length v) then ended 1 organs known else ingest_work work organs known

  unfoldable pub probe : List DocWork → Organs → Database F → Ended F
  unfolding ended ingest_work set_meta decimal
  probe work organs db =
      with_probe (w.services.embed (codes "chimera dimension probe" ∷ [])) work organs db

  abbrev pub if_up : Option ℤ → Ended F → Ended F → Ended F
  if_up none failed later = failed
  if_up (some port) failed later = later

  -- The model server and the vector store, in that order.
  unfoldable pub start_organs : List DocWork → Database F → Ended F
  unfolding llama turbovec ended probe
  start_organs work db =
      let one = llama db_dir w.llama_start no_organs in
      let two = turbovec db_dir w.turbovec_start one in
      if_up one.llama_client (ended 1 one db)
        (if_up two.turbovec_client (ended 1 two db) (probe work two db))

  abbrev pub if_complete : Option Bytes → Ended F → Ended F → Ended F
  if_complete none failed later = later
  if_complete (some piece) failed later = failed

  unfoldable pub with_pieces : List DocWork → Database F → Ended F
  unfolding resolve missing start_organs ended
  with_pieces work db =
      let (programs, paths) = resolve w.environment db_dir o.model w.programs in
      if_complete (missing programs paths) (ended 1 no_organs db) (start_organs work db)

  abbrev pub walked : Entries → Database F → WalkState
  walked tree db =
      visit_all w.files w.hashes o.paranoid
        (walk (w.absolute o.dir) (walk_options o) (load_ignore w.ignore_lines) tree)
        (start_walk db.manifest)

  abbrev pub after_walk : WalkState → Database F → Database F
  after_walk st db = record db {
    manifest = st.manifest;
    staging = stage_pending st.pending db.staging;
  }

  -- Stages 1 to 3, and the return if there is nothing new.
  unfoldable pub ingest_tree : Entries → Database F → Ended F
  unfolding visit_all walk load_ignore stage_pending with_pieces ended
  ingest_tree tree db =
      let st = walked tree db in
      if is_empty st.work
      then ended 0 no_organs (after_walk st db)
      else with_pieces st.work (after_walk st db)

  abbrev pub in_directory : Option Entries → Database F → Ended F
  in_directory none db = ended 1 no_organs db
  in_directory (some tree) db =
      if acquire_lock_or_die w.opens_lock w.locks then ingest_tree tree db else ended 1 no_organs db

  unfoldable pub run_ingest : Database F → Ended F
  unfolding ended ingest_tree acquire_lock_or_die
  run_ingest db = if is_empty o.dir then ended 2 no_organs db else in_directory w.corpus db
