-- ===== src/Ingest/Run/Load.antt =====
-- src/ingest.cpp: stage 7 of a run, which hands the staged texts to the graph store.
use chimera_ape.Util.Strtol.{ℤ}
use chimera_ape.Base.{
  ℕ, Bool, true, false, Option, none, some, List, [], ◌∷◌, ◌++◌, if◌then◌else◌, Bytes, codes,
}
use chimera_ape.Manifest.{Manifest}
use chimera_ape.Manifest.Ops.{set_meta}
use chimera_ape.Organs.Lifecycle.{Organs, Start, qlever}
use chimera_ape.Ingest.Document.{VectorOp}
use chimera_ape.Ingest.Load.{bulk, load_initial, update_query}
use chimera_ape.Ingest.Staging.{
  StagingFile, Staging, is_ttl, is_source, bulk_name, overwrite, contents_of,
}

-- What the graph store took: the text of `_bulk.ttl` that an index was built from, or an update.
pub data GraphLoad : Type 0 where
  built : Bytes → GraphLoad
  updated : Bytes → GraphLoad

-- What a run leaves behind for the next one. `graph` is `none` while there is no index.
pub record Database (F : Type 0) : Type 0 where
  pub manifest : Manifest
  pub vectors : List (VectorOp F)
  pub staging : Staging
  pub graph : Option (List GraphLoad)

-- The graph store: whether an index can be built from a text, how its server starts, and whether it
-- takes an update.
pub record GraphStore : Type 0 where
  pub builds : Bytes → Bool
  pub starts : Start
  pub updates : Bytes → Bool

-- The database and the organs after stage 7, and `graph_ok`.
pub record LoadEnd (F : Type 0) : Type 0 where
  pub database : Database F
  pub organs : Organs
  pub graph_ok : Bool

module _ {F : Type 0} (order : List StagingFile → List StagingFile) (g : GraphStore) where
  -- `_bulk.ttl` is written before the index is built from it, and stays if that fails.
  unfoldable pub load_first : ℕ → Organs → Database F → LoadEnd F
  unfolding contents_of is_source overwrite bulk load_initial
  load_first n_chunks organs db =
      let sources = contents_of is_source (order db.staging.files) in
      let staging = record db.staging {
        files = overwrite bulk_name (bulk sources) db.staging.files;
      } in
      if load_initial g.builds n_chunks sources
      then record {
        database = record db { staging = staging; graph = some (built (bulk sources) ∷ []) };
        organs = organs;
        graph_ok = true;
      }
      else record { database = record db { staging = staging }; organs = organs; graph_ok = false }

  -- The server is up: one update with everything staged.
  unfoldable pub load_update : List GraphLoad → Organs → Database F → LoadEnd F
  unfolding contents_of is_ttl update_query set_meta
  load_update loads organs db =
      let sources = contents_of is_ttl (order db.staging.files) in
      if g.updates (update_query sources)
      then record {
        database = record db {
          manifest = set_meta (codes "text_index_stale") (codes "1") db.manifest;
          graph = some (loads ++ updated (update_query sources) ∷ []);
        };
        organs = organs;
        graph_ok = true;
      }
      else record { database = db; organs = organs; graph_ok = false }

  abbrev pub if_served : Option ℤ → LoadEnd F → LoadEnd F → LoadEnd F
  if_served none failed later = failed
  if_served (some port) failed later = later

  abbrev pub load_existing : Bytes → List GraphLoad → Organs → Database F → LoadEnd F
  load_existing db_dir loads organs db =
      let up = qlever db_dir true g.starts organs in
      if_served up.qlever_client (record { database = db; organs = up; graph_ok = false })
        (load_update loads up db)

  abbrev pub load_into : Option (List GraphLoad) → Bytes → ℕ → Organs → Database F → LoadEnd F
  load_into none db_dir n_chunks organs db = load_first n_chunks organs db
  load_into (some loads) db_dir n_chunks organs db = load_existing db_dir loads organs db

  -- Stage 7 (load): `organs.qlever_index_exists()` decides.
  unfoldable pub load_graph : Bytes → ℕ → Organs → Database F → LoadEnd F
  unfolding load_first load_update qlever
  load_graph db_dir n_chunks organs db = load_into db.graph db_dir n_chunks organs db
