-- ===== src/Ingest/Run/Sequence.antt =====
-- Runs one after the other on one database.
use chimera_ape.Base.{◌≡◌, true, none, List, [], ◌∷◌, arith, Bytes}
use chimera_ape.Cli.{Options}
use chimera_ape.Manifest.{empty_manifest}
use chimera_ape.Manifest.Ops.{stage_of}
use chimera_ape.Ingest.Staging.{StagingFile}
use chimera_ape.Ingest.Run.{World, run_ingest}
use chimera_ape.Ingest.Run.Killed.{IsKilled, IsKilled-IsBacked}
use chimera_ape.Ingest.Run.Load.{Database}
use chimera_ape.Ingest.Run.Backed.{loads_of, IsIteration, is_committed, Published, IsBacked}
use chimera_ape.Ingest.Run.Refined.{run_ingest-Ran}

-- A database that no run has touched.
abbrev pub empty_database : {F : Type 0} → Database F
empty_database = record {
  manifest = empty_manifest;
  vectors = [];
  staging = record { files = []; loaded = [] };
  graph = none;
}

module _ (F D : Type 0) (order : List StagingFile → List StagingFile) where
  -- One run, to its end or killed, with its own options and circumstances.
  pub data Step (db : Database F) : Database F → Type 0 where
    completed : (o : Options) (w : World F D) → Step db (run_ingest order o w db).database
    killed :
        (o : Options) (w : World F D) {db' : Database F} → IsKilled order o w db db' → Step db db'

  -- The databases that runs make of a new one.
  pub data IsReached : Database F → Type 0 where
    new : IsReached empty_database
    run : {db db' : Database F} → IsReached db → Step db db' → IsReached db'

module _ {F D : Type 0} (order : List StagingFile → List StagingFile) where
  Step-IsBacked :
      IsIteration order
      → {db db' : Database F} → Step F D order db db'
      → IsBacked F D db
      → IsBacked F D db'
  Step-IsBacked fair (completed o w) b = (run_ingest-Ran order o w fair _ b).0
  Step-IsBacked fair (killed o w k) b = IsKilled-IsBacked order o w fair k b

  IsReached-IsBacked :
      IsIteration order → {db : Database F} → IsReached F D order db → IsBacked F D db
  unfolding stage_of
  IsReached-IsBacked fair new = record {
    committed = λ j none_known. absurd (ground arith);
    written = λ j none_known. absurd (ground arith);
  }
  IsReached-IsBacked fair (run r s) = Step-IsBacked fair s (IsReached-IsBacked fair r)

  pub IsReached-Published :
      IsIteration order
      → {db : Database F} → IsReached F D order db
      → (j : Bytes) → is_committed db j ≡ true
      → Published F D j (loads_of db.graph)
  IsReached-Published fair r j up =
      let backed : IsBacked F D _ = IsReached-IsBacked fair r in backed.committed j up

  -- One run to its end after the other.
  unfoldable pub run_all : List (Options × World F D) → Database F → Database F
  unfolding run_ingest
  run_all [] db = db
  run_all ((o, w) ∷ rs) db = run_all rs (run_ingest order o w db).database

  pub run_all-IsReached :
      (rs : List (Options × World F D)) (db : Database F)
      → IsReached F D order db
      → IsReached F D order (run_all rs db)
  unfolding run_all
  run_all-IsReached [] db r = r
  run_all-IsReached ((o, w) ∷ rs) db r = run_all-IsReached rs _ (run r (completed o w))

  run_all-Published :
      IsIteration order
      → (rs : List (Options × World F D)) (j : Bytes)
      → is_committed (run_all rs empty_database) j ≡ true
      → Published F D j (loads_of (run_all rs empty_database).graph)
  run_all-Published fair rs j up =
      IsReached-Published fair (run_all-IsReached rs empty_database new) j up
