-- ===== src/Ingest/Run/Loaded.antt =====
-- What stage 7 does to a database.
use chimera_ape.Util.Strtol.{ℤ}
use chimera_ape.Base.{
  ℕ, ◌≡◌, refl, true, false, Option, none, some, List, [], ◌∷◌, ◌++◌, arith, Bytes, codes, Any,
  stream, ◌⊎◌, inl, inr, if-cases,
}
use chimera_ape.Manifest.{Manifest}
use chimera_ape.Manifest.Ops.{set_meta}
use chimera_ape.Organs.Lifecycle.{Organs, qlever}
use chimera_ape.Ttl.Emit.{ttl_prologue}
use chimera_ape.Ingest.Load.Handed.{update_query-Inserts}
use chimera_ape.Ingest.Load.{bulk, load_initial, update_query}
use chimera_ape.Ingest.Staging.{StagingFile, is_ttl, is_source, contents_of}
use chimera_ape.Ingest.Staging.Kept.{Staged-contents_of, Staged-overwrite}
use chimera_ape.Ingest.Run.Emitted.{Emits, Emits-append, Emits-prepend}
use chimera_ape.Ingest.Run.Load.{
  GraphLoad, built, updated, Database, GraphStore, LoadEnd, load_first, load_update, if_served,
  load_into, load_graph,
}
use chimera_ape.Ingest.Run.Backed.{Took, loads_of, IsIteration, Waiting, IsGrown, same_doc-IsGrown}

pub set_meta-doc : (k v : Bytes) (m : Manifest) → (set_meta k v m).doc ≡ m.doc
unfolding set_meta
set_meta-doc k v m = refl

is_ttl_of_source : (f : StagingFile) → is_source f ≡ true → is_ttl f ≡ true
unfolding is_source
is_ttl_of_source f h = ground arith

module _ (F D : Type 0) where
  -- The end of stage 7.
  pub record IsLoaded (db db' : Database F) : Type 0 where
    pub same_doc : db'.manifest.doc ≡ db.manifest.doc
    pub load : GraphLoad
    pub one_more : loads_of db'.graph ≡ loads_of db.graph ++ load ∷ []
    pub all_loaded : (j : Bytes) → Waiting F D j db.staging → Took F D j load

  abbrev pub Loaded : Database F → LoadEnd F → Type 0
  Loaded db l =
      ((l.graph_ok ≡ false) × IsGrown F D db l.database)
      ⊎ ((l.graph_ok ≡ true) × IsLoaded db l.database)

module _ (F D : Type 0) where
  stream-Emits : (j : Bytes) (ts : List Bytes) → Any (Emits F D j) ts → Emits F D j (stream ts)
  stream-Emits j [] h = elim h [ ]
  stream-Emits j (t ∷ ts) (inl h) = Emits-append F D j t (stream ts) h
  stream-Emits j (t ∷ ts) (inr h) = Emits-prepend F D j t (stream ts) (stream-Emits j ts h)

  bulk-Emits : (j : Bytes) (ts : List Bytes) → Any (Emits F D j) ts → Emits F D j (bulk ts)
  unfolding bulk
  bulk-Emits j ts h = Emits-prepend F D j ttl_prologue (stream ts) (stream-Emits j ts h)

module _ (F D : Type 0) (order : List StagingFile → List StagingFile) (fair : IsIteration order)
    (g : GraphStore) where
  load_first-Loaded :
      (n : ℕ) (organs : Organs) (db : Database F)
      → db.graph ≡ none
      → Loaded F D db (load_first order g n organs db)
  unfolding load_first
  load_first-Loaded n organs db e =
      let sources = contents_of is_source (order db.staging.files) in
      if-cases (Loaded F D db) (load_initial g.builds n sources) _ _
        (λ _. inr (
          refl,
          record {
            same_doc = refl;
            load = built (bulk sources);
            one_more = rw e refl;
            all_loaded = λ j waits. bulk-Emits F D j sources (
                Staged-contents_of (Emits F D j) is_source (order db.staging.files) (λ f h. h)
                  (fair _ db.staging.files waits));
          },
        ))
        (λ _. inl (
          refl,
          same_doc-IsGrown F D db _ refl refl
              λ j. Staged-overwrite (Emits F D j) (bulk sources) db.staging.files,
        ))

  load_update-Loaded :
      (loads : List GraphLoad) (organs : Organs) (db : Database F)
      → db.graph ≡ some loads
      → Loaded F D db (load_update order g loads organs db)
  unfolding load_update
  load_update-Loaded loads organs db e =
      let sources = contents_of is_ttl (order db.staging.files) in
      if-cases (Loaded F D db) (g.updates (update_query sources)) _ _
        (λ _. inr (
          refl,
          record {
            same_doc = set_meta-doc (codes "text_index_stale") (codes "1") db.manifest;
            load = updated (update_query sources);
            one_more = rw e refl;
            all_loaded = λ j waits. (
              stream sources,
              stream-Emits F D j sources (
                  Staged-contents_of (Emits F D j) is_ttl (order db.staging.files) is_ttl_of_source
                    (fair _ db.staging.files waits)),
              update_query-Inserts sources,
            );
          },
        ))
        (λ _. inl (refl, same_doc-IsGrown F D db _ refl refl λ j waits. waits))

  if_served-Loaded :
      (client : Option ℤ) (db : Database F) (failed later : LoadEnd F)
      → Loaded F D db failed
      → Loaded F D db later
      → Loaded F D db (if_served order g client failed later)
  if_served-Loaded none db failed later h h' = h
  if_served-Loaded (some port) db failed later h h' = h'

  load_into-Loaded :
      (loads : Option (List GraphLoad)) (dir : Bytes) (n : ℕ) (organs : Organs) (db : Database F)
      → db.graph ≡ loads
      → Loaded F D db (load_into order g loads dir n organs db)
  load_into-Loaded none dir n organs db e = load_first-Loaded n organs db e
  load_into-Loaded (some loads) dir n organs db e =
      let up = qlever dir true g.starts organs in
      if_served-Loaded up.qlever_client db _ _
        (inl (refl, same_doc-IsGrown F D db db refl refl λ j waits. waits))
        (load_update-Loaded loads up db e)

  -- Stage 7 either leaves the graph as it is, or hands everything over that waits.
  pub load_graph-Loaded :
      (dir : Bytes) (n : ℕ) (organs : Organs) (db : Database F)
      → Loaded F D db (load_graph order g dir n organs db)
  unfolding load_graph
  load_graph-Loaded dir n organs db = load_into-Loaded db.graph dir n organs db refl
