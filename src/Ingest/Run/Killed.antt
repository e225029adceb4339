-- ===== src/Ingest/Run/Killed.antt =====
-- src/ingest.cpp: what `run_ingest` has left on the disk when the process is killed. Every write to the
-- manifest outside a transaction is one by itself, and `pending.ttl` is closed after each path.
use chimera_ape.Util.Strtol.{ℤ}
use chimera_ape.Base.{
  ℕ, ◌≡◌, refl, true, false, none, some, List, [], ◌∷◌, ◌++◌, arith, Bytes, codes, is_empty, length,
  take, drop, inl, inr,
}
use chimera_ape.Cli.{Options}
use chimera_ape.Manifest.Ops.{set_meta}
use chimera_ape.Organs.Lifecycle.{Organs, no_organs, llama, turbovec}
use chimera_ape.Organs.Paths.{resolve, missing}
use chimera_ape.Util.Decimal.{decimal}
use chimera_ape.Walk.Ignore.{load_ignore}
use chimera_ape.Walk.Traverse.{Entries, walk}
use chimera_ape.Ingest.{DocWork, WalkState, start_walk}
use chimera_ape.Ingest.Document.{RunState}
use chimera_ape.Ingest.Process.{commit_work, process_all}
use chimera_ape.Ingest.Staging.{StagingFile, Staging, bulk_name, overwrite, keep_others, move_all}
use chimera_ape.Ingest.Staging.Kept.{Staged-overwrite}
use chimera_ape.Ingest.Visit.{visit_all}
use chimera_ape.Ingest.Visit.Plan.{doc-visit_all}
use chimera_ape.Ingest.Run.{
  World, acquire_lock_or_die, refuses, first_state, staged_run, walk_options, walked, after_walk,
  db_dir,
}
use chimera_ape.Ingest.Run.Emitted.{Emits, process_all-IsLoop}
use chimera_ape.Ingest.Run.Load.{Database, LoadEnd, load_graph}
use chimera_ape.Ingest.Run.Published.{committed-IsBacked}
use chimera_ape.Ingest.Run.Loaded.{Loaded, load_graph-Loaded, set_meta-doc}
use chimera_ape.Ingest.Run.Backed.{
  IsIteration, IsBacked, IsGrown, IsGrown-IsBacked, IsGrown-trans, same_doc-IsGrown,
  pending-IsGrown, staged-IsGrown,
}

module _ {F D : Type 0} (order : List StagingFile → List StagingFile) (o : Options)
    (w : World F D) where
  -- The walk as far as its first `n` entries.
  abbrev pub walked_part : ℕ → Entries → Database F → WalkState
  walked_part n tree db =
      visit_all w.files w.hashes o.paranoid
        (take n (walk (w.absolute o.dir) (walk_options o) (load_ignore w.ignore_lines) tree))
        (start_walk db.manifest)

  abbrev organs_up : Organs
  organs_up =
      turbovec (db_dir order o w) w.turbovec_start
        (llama (db_dir order o w) w.llama_start no_organs)

  -- The run has come to its work list: no `return` before was taken. `v` is the probe's vector.
  pub record IsWorking (tree : Entries) (v : List F) (db : Database F) : Type 0 where
    pub directory : is_empty o.dir ≡ false
    pub corpus : w.corpus ≡ some tree
    pub locked : acquire_lock_or_die w.opens_lock w.locks ≡ true
    pub some_work : is_empty (walked order o w tree db).work ≡ false
    pub complete :
        (let (programs, paths) = resolve w.environment (db_dir order o w) o.model w.programs in
          missing programs paths ≡ none)
    pub llama_port : ℤ
    pub llama_up : organs_up.llama_client ≡ some llama_port
    pub turbovec_port : ℤ
    pub turbovec_up : organs_up.turbovec_client ≡ some turbovec_port
    pub others : List (List F)
    pub probed : w.services.embed (codes "chimera dimension probe" ∷ []) ≡ some (v ∷ others)
    pub agrees : refuses w.info (length v) ≡ false

  -- The dimension of the vectors is written.
  abbrev probed_database : Entries → List F → Database F → Database F
  probed_database tree v db =
      let db₁ = after_walk order o w (walked order o w tree db) db in
      record db₁ { manifest = set_meta (codes "embedding_dim") (decimal (length v)) db₁.manifest }

  abbrev end_of_loop : Entries → List F → Database F → RunState F
  end_of_loop tree v db =
      process_all w.files w.hashes w.services (walked order o w tree db).work
        (first_state order o w (probed_database tree v db))

  -- After `ttl.flush()`.
  abbrev pub flushed_database : Entries → List F → Database F → Database F
  flushed_database tree v db =
      staged_run order o w (end_of_loop tree v db) (probed_database tree v db)

  abbrev pub loaded_end : Entries → List F → Database F → LoadEnd F
  loaded_end tree v db =
      load_graph order w.graph (db_dir order o w) (end_of_loop tree v db).n_chunks organs_up
        (flushed_database tree v db)

  -- Stage 8 as far as its first `n` documents.
  abbrev pub committed_part : ℕ → List DocWork → LoadEnd F → Database F
  committed_part n work l = record l.database {
    manifest = commit_work l.graph_ok (take n work) l.database.manifest;
  }

  -- `mark_loaded` as far as the first `n` files of the directory.
  abbrev pub mark_part : ℕ → Staging → Staging
  mark_part n d = record {
    files = keep_others (take n (order d.files)) ++ drop n (order d.files);
    loaded = move_all (take n (order d.files)) d.loaded;
  }

  -- What is on the disk when the process is killed in the walk, in stage 7 once the text of the run is
  -- flushed and before the graph store is called, or in stage 8.
  pub data IsKilled (db : Database F) : Database F → Type 0 where
    walking :
        (n : ℕ) (tree : Entries)
        → w.corpus ≡ some tree
        → acquire_lock_or_die w.opens_lock w.locks ≡ true
        → IsKilled db (after_walk order o w (walked_part n tree db) db)
    flushed :
        (tree : Entries) (v : List F)
        → IsWorking tree v db
        → IsKilled db (flushed_database tree v db)
    bulking :
        (part : Bytes) (tree : Entries) (v : List F)
        → IsWorking tree v db
        → db.graph ≡ none
        → IsKilled db (
            let db₁ = flushed_database tree v db in
            record db₁ {
              staging = record db₁.staging { files = overwrite bulk_name part db₁.staging.files };
            })
    committing :
        (n : ℕ) (tree : Entries) (v : List F)
        → IsWorking tree v db
        → IsKilled db (committed_part n (walked order o w tree db).work (loaded_end tree v db))
    marking :
        (n : ℕ) (tree : Entries) (v : List F)
        → IsWorking tree v db
        → (loaded_end tree v db).graph_ok ≡ true
        → IsKilled db (
            let db₁ = (loaded_end tree v db).database in
            record db₁ {
              manifest = commit_work true (walked order o w tree db).work db₁.manifest;
              staging = mark_part n db₁.staging;
            })

  walked_part-IsGrown :
      (n : ℕ) (tree : Entries) (db : Database F)
      → IsGrown F D db (after_walk order o w (walked_part n tree db) db)
  walked_part-IsGrown n tree db =
      same_doc-IsGrown F D db _ (doc-visit_all w.files w.hashes o.paranoid _ _) refl
        λ j. pending-IsGrown F D j (walked_part n tree db).pending db.staging

  flushed-IsGrown :
      (tree : Entries) (v : List F) (db : Database F) → IsGrown F D db (flushed_database tree v db)
  flushed-IsGrown tree v db =
      let st = walked order o w tree db in
      let db₁ = after_walk order o w st db in
      let db₂ = probed_database tree v db in
      IsGrown-trans F D db db₂ _
        (IsGrown-trans F D db db₁ db₂
          (same_doc-IsGrown F D db _ (doc-visit_all w.files w.hashes o.paranoid _ _) refl
            λ j. pending-IsGrown F D j st.pending db.staging)
          (same_doc-IsGrown F D db₁ _ (set_meta-doc (codes "embedding_dim") _ db₁.manifest) refl
            λ j waits. waits))
        (staged-IsGrown F D w.pid (end_of_loop tree v db) db₂ _
          (process_all-IsLoop w.files w.hashes w.services st.work (first_state order o w db₂)) refl)

  committed_part-IsBacked :
      (n : ℕ) (work : List DocWork) (db : Database F) (l : LoadEnd F)
      → IsBacked F D db
      → Loaded F D db l
      → IsBacked F D (committed_part n work l)
  unfolding commit_work
  committed_part-IsBacked n work db l b (inl (failed, g)) =
      rw failed (IsGrown-IsBacked F D db l.database g b)
  committed_part-IsBacked n work db l b (inr (ok, loaded)) =
      rw ok (committed-IsBacked F D (take n work) db l.database l.database.staging b loaded)

  marked_part-IsBacked :
      (work : List DocWork) (db : Database F) (l : LoadEnd F) (d : Staging)
      → IsBacked F D db
      → Loaded F D db l
      → l.graph_ok ≡ true
      → IsBacked F D
          (record l.database { manifest = commit_work true work l.database.manifest; staging = d })
  marked_part-IsBacked work db l d b (inl (failed, g)) ok = absurd (ground arith)
  marked_part-IsBacked work db l d b (inr (_, loaded)) ok =
      committed-IsBacked F D work db l.database d b loaded

  -- A run that is killed at one of these points leaves a database that is backed, if it found one.
  pub IsKilled-IsBacked :
      IsIteration order
      → {db db' : Database F} → IsKilled db db'
      → IsBacked F D db
      → IsBacked F D db'
  IsKilled-IsBacked fair (walking n tree _ _) b =
      IsGrown-IsBacked F D _ _ (walked_part-IsGrown n tree _) b
  IsKilled-IsBacked fair (flushed tree v _) b =
      IsGrown-IsBacked F D _ _ (flushed-IsGrown tree v _) b
  IsKilled-IsBacked fair {db} (bulking part tree v _ _) b =
      IsGrown-IsBacked F D (flushed_database tree v db) _
        (same_doc-IsGrown F D (flushed_database tree v db) _ refl refl
          λ j. Staged-overwrite (Emits F D j) part (flushed_database tree v db).staging.files)
        (IsGrown-IsBacked F D db _ (flushed-IsGrown tree v db) b)
  IsKilled-IsBacked fair {db} (committing n tree v _) b =
      committed_part-IsBacked n (walked order o w tree db).work (flushed_database tree v db)
        (loaded_end tree v db) (IsGrown-IsBacked F D db _ (flushed-IsGrown tree v db) b)
        (load_graph-Loaded F D order fair w.graph _ _ organs_up (flushed_database tree v db))
  IsKilled-IsBacked fair {db} (marking n tree v _ ok) b =
      marked_part-IsBacked (walked order o w tree db).work (flushed_database tree v db)
        (loaded_end tree v db) _ (IsGrown-IsBacked F D db _ (flushed-IsGrown tree v db) b)
        (load_graph-Loaded F D order fair w.graph _ _ organs_up (flushed_database tree v db)) ok
