-- ===== src/Ingest/Run/Backed.antt =====
-- A database whose watermarks are backed by what was staged and by what the graph store took.
use mathlib.Core.Path.{subst}
use chimera_ape.Base.{
  ℕ, ◌≡◌, refl, sym, ◌∙◌, ap, Bool, true, Option, none, some, List, [], Bytes, codes, Any, ◌⊎◌, inl,
  inr, if-cases, is_empty,
}
use chimera_ape.Manifest.Ops.{stage_of}
use chimera_ape.Ingest.Visit.{has_reached}
use chimera_ape.Ingest.Document.{RunState}
use chimera_ape.Ingest.Process.Stages.{stage_of-doc}
use chimera_ape.Ingest.Load.Handed.{Inserts}
use chimera_ape.Ingest.Staging.{StagingFile, Staging, append_to, run_name, stage_pending}
use chimera_ape.Ingest.Staging.Kept.{Staged, Staged-append_to, append_to-Staged, is_source-run_name}
use chimera_ape.Ingest.Run.Emitted.{Emits, Emits-append, Emits-prepend, IsLoop}
use chimera_ape.Ingest.Run.Load.{GraphLoad, built, updated, Database}

-- No loads while there is no index.
abbrev pub loads_of : Option (List GraphLoad) → List GraphLoad
loads_of none = []
loads_of (some loads) = loads

-- `fs::directory_iterator` finds every file, in whatever order.
abbrev pub IsIteration : (List StagingFile → List StagingFile) → Type 1
IsIteration order = (P : StagingFile → Type 0) (fs : List StagingFile) → Any P fs → Any P (order fs)

abbrev pub is_committed : {F : Type 0} → Database F → Bytes → Bool
is_committed db j = has_reached 6 (stage_of j db.manifest)

module _ (F D : Type 0) where
  -- The graph store took the document's text: it is part of the text that an index was built from, or
  -- of a text whose lines an update inserts.
  abbrev pub Took : Bytes → GraphLoad → Type 0
  Took j (built text) = Emits F D j text
  Took j (updated query) = (turtle : Bytes) × Emits F D j turtle × Inserts turtle query

  -- Some load of the graph store has the document's text.
  abbrev pub Published : Bytes → List GraphLoad → Type 0
  Published j loads = Any (Took j) loads

  -- The document's text is in a staging file that the next load reads.
  abbrev pub Waiting : Bytes → Staging → Type 0
  Waiting j d = Staged (Emits F D j) d.files

  -- A committed document is in the graph, and one whose vectors are written is so or waits.
  pub record IsBacked (db : Database F) : Type 0 where
    pub committed : (j : Bytes) → is_committed db j ≡ true → Published j (loads_of db.graph)
    pub written :
        (j : Bytes)
        → has_reached 4 (stage_of j db.manifest) ≡ true
        → Waiting j db.staging ⊎ Published j (loads_of db.graph)

  -- No watermark is higher, what waited still waits and the graph is the same.
  pub record IsGrown (db db' : Database F) : Type 0 where
    pub same_graph : db'.graph ≡ db.graph
    pub same_committed : (j : Bytes) → is_committed db' j ≡ is_committed db j
    pub waiting : (j : Bytes) → Waiting j db.staging → Waiting j db'.staging
    pub written :
        (j : Bytes)
        → has_reached 4 (stage_of j db'.manifest) ≡ true
        → (has_reached 4 (stage_of j db.manifest) ≡ true) ⊎ Waiting j db'.staging

  pub IsGrown-IsBacked : (db db' : Database F) → IsGrown db db' → IsBacked db → IsBacked db'
  IsGrown-IsBacked db db' g b = record {
    committed = λ j up.
        subst (λ x. Published j (loads_of x)) (sym g.same_graph)
          (b.committed j (sym (g.same_committed j) ∙ up));
    written = λ j up. elim (g.written j up) [
      | inr new ↦ inl new
      | inl old ↦ elim (b.written j old) [
        | inl waits ↦ inl (g.waiting j waits)
        | inr there ↦ inr (subst (λ x. Published j (loads_of x)) (sym g.same_graph) there)
      ]
    ];
  }

  pub IsGrown-trans :
      (db db' db'' : Database F) → IsGrown db db' → IsGrown db' db'' → IsGrown db db''
  IsGrown-trans db db' db'' g g' = record {
    same_graph = g'.same_graph ∙ g.same_graph;
    same_committed = λ j. g'.same_committed j ∙ g.same_committed j;
    waiting = λ j waits. g'.waiting j (g.waiting j waits);
    written = λ j up. elim (g'.written j up) [
      | inr new ↦ inr new
      | inl mid ↦ elim (g.written j mid) [ inl old ↦ inl old | inr new ↦ inr (g'.waiting j new) ]
    ];
  }

  -- Other tables than the documents', and files that only grow.
  pub same_doc-IsGrown :
      (db db' : Database F)
      → db'.manifest.doc ≡ db.manifest.doc
      → db'.graph ≡ db.graph
      → ((j : Bytes) → Waiting j db.staging → Waiting j db'.staging)
      → IsGrown db db'
  same_doc-IsGrown db db' same graph waits =
      let at : (j : Bytes) → stage_of j db'.manifest ≡ stage_of j db.manifest =
        λ j. stage_of-doc j db'.manifest db.manifest same in
      record {
        same_graph = graph;
        same_committed = λ j. ap (has_reached 6) (at j);
        waiting = waits;
        written = λ j up. inl (subst (λ x. has_reached 4 x ≡ true) (at j) up);
      }

  pub pending-IsGrown :
      (j pending : Bytes) (d : Staging) → Waiting j d → Waiting j (stage_pending pending d)
  unfolding stage_pending
  pending-IsGrown j pending d h =
      if-cases (Waiting j) (is_empty pending) _ _ (λ _. h)
        (λ _.
          Staged-append_to (Emits F D j) (Emits-append F D j) (codes "pending.ttl") pending d.files
            h)

  -- The loop over the work list, with the text of the run staged after it.
  pub staged-IsGrown :
      (pid : ℕ) (st : RunState F) (db db' : Database F)
      → IsLoop F D db.manifest st
      → db' ≡ record db {
        manifest = st.manifest;
        vectors = st.vectors;
        staging = record db.staging { files = append_to (run_name pid) st.ttl db.staging.files };
      }
      → IsGrown db db'
  staged-IsGrown pid st db db' loop e = subst (IsGrown db) (sym e) record {
    same_graph = refl;
    same_committed = loop.same_committed;
    waiting = λ j.
        Staged-append_to (Emits F D j) (Emits-append F D j) (run_name pid) st.ttl db.staging.files;
    written = λ j up. elim (loop.written j up) [
      | inl old ↦ inl old
      | inr new ↦ inr (
          append_to-Staged (Emits F D j) (run_name pid) st.ttl db.staging.files
            (is_source-run_name pid) (λ less. Emits-prepend F D j less st.ttl new))
    ];
  }
