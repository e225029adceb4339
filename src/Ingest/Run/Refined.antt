-- ===== src/Ingest/Run/Refined.antt =====
-- Runs of the pipeline against an abstract catalogue: what the graph store took, and which documents
-- are committed.
use chimera_ape.Util.Strtol.{ℤ}
use chimera_ape.Base.{
  ℕ, ◌≡◌, refl, ◌∙◌, ap, Bool, true, Option, none, some, List, [], ◌∷◌, ◌++◌, Bytes, codes, inl,
  inr, if-cases, is_empty, length,
}
use chimera_ape.Cli.{Options}
use chimera_ape.Organs.Lifecycle.{Organs, no_organs, llama, turbovec}
use chimera_ape.Walk.Traverse.{Entries}
use chimera_ape.Ingest.{DocWork}
use chimera_ape.Ingest.Visit.{has_reached}
use chimera_ape.Ingest.Visit.Plan.{doc-visit_all}
use chimera_ape.Ingest.Process.{commit_work, process_all}
use chimera_ape.Ingest.Process.Stages.{stage_of-doc}
use chimera_ape.Ingest.Staging.{StagingFile}
use chimera_ape.Ingest.Run.{
  acquire_lock_or_die, World, Ended, refuses, ended, finish, first_state, staged_run, ingest_work,
  with_probe, probe, if_up, start_organs, if_complete, with_pieces, walked, after_walk, ingest_tree,
  in_directory, run_ingest, db_dir,
}
use chimera_ape.Ingest.Run.Emitted.{process_all-IsLoop}
use chimera_ape.Ingest.Run.Load.{GraphLoad, Database, LoadEnd, load_graph}
use chimera_ape.Ingest.Run.Published.{commit_work-committed, committed-IsBacked}
use chimera_ape.Ingest.Run.Loaded.{Loaded, load_graph-Loaded, set_meta-doc}
use chimera_ape.Ingest.Run.Backed.{
  loads_of, IsIteration, is_committed, IsBacked, IsGrown, IsGrown-IsBacked, IsGrown-trans,
  same_doc-IsGrown, pending-IsGrown, staged-IsGrown,
}

pub record Catalog : Type 0 where
  pub loads : List GraphLoad
  pub committed : Bytes → Bool

-- What a run may do to the catalogue: nothing, or one more load, and then it ends with 0 and loses no
-- document.
pub data Publish (a : Catalog) (code : ℕ) (b : Catalog) : Type 0 where
  kept : b.loads ≡ a.loads → ((j : Bytes) → b.committed j ≡ a.committed j) → Publish a code b
  published :
      (load : GraphLoad)
      → code ≡ 0
      → b.loads ≡ a.loads ++ load ∷ []
      → ((j : Bytes) → a.committed j ≡ true → b.committed j ≡ true)
      → Publish a code b

abbrev pub catalog_of : {F : Type 0} → Database F → Catalog
catalog_of db = record { loads = loads_of db.graph; committed = is_committed db }

module _ (F D : Type 0) where
  -- The next database is backed, and the run was a step of the catalogue.
  abbrev pub Ran : Database F → Ended F → Type 0
  Ran db r = IsBacked F D r.database × Publish (catalog_of db) r.code (catalog_of r.database)

module _ {F D : Type 0} (order : List StagingFile → List StagingFile) (o : Options)
    (w : World F D) where
  ended-Ran :
      (code : ℕ) (organs : Organs) (db db' : Database F)
      → IsBacked F D db
      → IsGrown F D db db'
      → Ran F D db (ended order o w code organs db')
  unfolding ended
  ended-Ran code organs db db' b g =
      (IsGrown-IsBacked F D db db' g b, kept (ap loads_of g.same_graph) g.same_committed)

  finish-Ran :
      (work : List DocWork) (db db₁ : Database F) (l : LoadEnd F)
      → IsBacked F D db
      → IsGrown F D db db₁
      → Loaded F D db₁ l
      → Ran F D db (finish order o w work l)
  unfolding finish ended commit_work
  finish-Ran work db db₁ l b g (inl (failed, g')) =
      rw failed (ended-Ran 1 l.organs db l.database b (IsGrown-trans F D db db₁ l.database g g'))
  finish-Ran work db db₁ l b g (inr (ok, loaded)) = rw ok (
    committed-IsBacked F D work db₁ l.database _ (IsGrown-IsBacked F D db db₁ g b) loaded,
    published loaded.load refl
        (loaded.one_more ∙ ap (λ x. loads_of x ++ loaded.load ∷ []) g.same_graph)
        λ j up. commit_work-committed work l.database.manifest j (
          ap (has_reached 6) (stage_of-doc j l.database.manifest db₁.manifest loaded.same_doc)
          ∙ g.same_committed j
          ∙ up),
  )

  ingest_work-Ran :
      (fair : IsIteration order) (work : List DocWork) (organs : Organs) (db db₁ : Database F)
      → IsBacked F D db
      → IsGrown F D db db₁
      → Ran F D db (ingest_work order o w work organs db₁)
  unfolding ingest_work
  ingest_work-Ran fair work organs db db₁ b g =
      let st = process_all w.files w.hashes w.services work (first_state order o w db₁) in
      let db₂ = staged_run order o w st db₁ in
      let loop = process_all-IsLoop w.files w.hashes w.services work (first_state order o w db₁) in
      finish-Ran work db db₂ (load_graph order w.graph (db_dir order o w) st.n_chunks organs db₂) b
        (IsGrown-trans F D db db₁ db₂ g (staged-IsGrown F D w.pid st db₁ db₂ loop refl))
        (load_graph-Loaded F D order fair w.graph (db_dir order o w) st.n_chunks organs db₂)

  with_probe-Ran :
      (fair : IsIteration order) (answer : Option (List (List F))) (work : List DocWork)
      (organs : Organs) (db db₁ : Database F)
      → IsBacked F D db
      → IsGrown F D db db₁
      → Ran F D db (with_probe order o w answer work organs db₁)
  with_probe-Ran fair none work organs db db₁ b g = ended-Ran 1 organs db db₁ b g
  with_probe-Ran fair (some []) work organs db db₁ b g = ended-Ran 1 organs db db₁ b g
  with_probe-Ran fair (some (v ∷ vs)) work organs db db₁ b g =
      let g' = IsGrown-trans F D db db₁ _ g (
        same_doc-IsGrown F D db₁ _ (set_meta-doc (codes "embedding_dim") _ db₁.manifest) refl
          λ j waits. waits) in
      if-cases (Ran F D db) (refuses w.info (length v)) _ _ (λ _. ended-Ran 1 organs db _ b g')
        (λ _. ingest_work-Ran fair work organs db _ b g')

  if_up-Ran :
      (client : Option ℤ) (db : Database F) (failed later : Ended F)
      → Ran F D db failed
      → Ran F D db later
      → Ran F D db (if_up order o w client failed later)
  if_up-Ran none db failed later h h' = h
  if_up-Ran (some port) db failed later h h' = h'

  start_organs-Ran :
      (fair : IsIteration order) (work : List DocWork) (db db₁ : Database F)
      → IsBacked F D db
      → IsGrown F D db db₁
      → Ran F D db (start_organs order o w work db₁)
  unfolding start_organs probe
  start_organs-Ran fair work db db₁ b g =
      let one = llama (db_dir order o w) w.llama_start no_organs in
      let two = turbovec (db_dir order o w) w.turbovec_start one in
      if_up-Ran one.llama_client db _ _ (ended-Ran 1 one db db₁ b g) (
        if_up-Ran two.turbovec_client db _ _ (ended-Ran 1 two db db₁ b g) (
          with_probe-Ran fair (w.services.embed (codes "chimera dimension probe" ∷ [])) work two db
            db₁ b g))

  if_complete-Ran :
      (piece : Option Bytes) (db : Database F) (failed later : Ended F)
      → Ran F D db failed
      → Ran F D db later
      → Ran F D db (if_complete order o w piece failed later)
  if_complete-Ran none db failed later h h' = h'
  if_complete-Ran (some piece) db failed later h h' = h

  walked-IsGrown :
      (tree : Entries) (db : Database F)
      → IsGrown F D db (after_walk order o w (walked order o w tree db) db)
  walked-IsGrown tree db =
      same_doc-IsGrown F D db _ (doc-visit_all w.files w.hashes o.paranoid _ _) refl
        λ j. pending-IsGrown F D j (walked order o w tree db).pending db.staging

  ingest_tree-Ran :
      (fair : IsIteration order) (tree : Entries) (db : Database F)
      → IsBacked F D db
      → Ran F D db (ingest_tree order o w tree db)
  unfolding ingest_tree with_pieces
  ingest_tree-Ran fair tree db b =
      let st = walked order o w tree db in
      let db₁ = after_walk order o w st db in
      let g = walked-IsGrown tree db in
      if-cases (Ran F D db) (is_empty st.work) _ _ (λ _. ended-Ran 0 no_organs db db₁ b g)
        (λ _.
          if_complete-Ran _ db _ _ (ended-Ran 1 no_organs db db₁ b g)
            (start_organs-Ran fair st.work db db₁ b g))

  stays : (db : Database F) → IsGrown F D db db
  stays db = same_doc-IsGrown F D db db refl refl λ j waits. waits

  in_directory-Ran :
      (fair : IsIteration order) (corpus : Option Entries) (db : Database F)
      → IsBacked F D db
      → Ran F D db (in_directory order o w corpus db)
  in_directory-Ran fair none db b = ended-Ran 1 no_organs db db b (stays db)
  in_directory-Ran fair (some tree) db b =
      if-cases (Ran F D db) (acquire_lock_or_die w.opens_lock w.locks) _ _
        (λ _. ingest_tree-Ran fair tree db b) (λ _. ended-Ran 1 no_organs db db b (stays db))

  -- From a database that is backed, with a directory that is listed whole in any order, a run leaves
  -- one that is backed again; and it leaves the catalogue as it is, or ends with 0 after one more
  -- load, with every document committed that was so before.
  pub run_ingest-Ran :
      IsIteration order
      → (db : Database F) → IsBacked F D db
      → IsBacked F D (run_ingest order o w db).database
        × Publish
            (catalog_of db)
            (run_ingest order o w db).code
            (catalog_of (run_ingest order o w db).database)
  unfolding run_ingest
  run_ingest-Ran fair db b =
      if-cases (Ran F D db) (is_empty o.dir) _ _ (λ _. ended-Ran 2 no_organs db db b (stays db))
        (λ _. in_directory-Ran fair w.corpus db b)
