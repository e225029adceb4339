-- ===== src/Ingest/Run/Published.antt =====
-- Stage 8 after a load that succeeded.
use mathlib.Core.Path.{subst}
use chimera_ape.Base.{
  ℕ, ◌≤◌, ◌≡◌, sym, Bool, true, false, Option, none, some, List, [], ◌∷◌, ◌++◌, arith, Bytes,
  Any-append, inl, inr,
}
use chimera_ape.Manifest.{Manifest}
use chimera_ape.Manifest.Ops.{stage_of}
use chimera_ape.Ingest.{DocWork}
use chimera_ape.Ingest.Visit.{has_reached}
use chimera_ape.Ingest.Process.{commit_work}
use chimera_ape.Ingest.Process.Commit.{is_work, promote, stage_of-commit_work}
use chimera_ape.Ingest.Process.Stages.{stage_of-doc}
use chimera_ape.Ingest.Staging.{Staging}
use chimera_ape.Ingest.Run.Load.{Database}
use chimera_ape.Ingest.Run.Loaded.{IsLoaded}
use chimera_ape.Ingest.Run.Backed.{Took, loads_of, Published, IsBacked}

promote-reached :
    (listed : Bool) (before : Option ℕ) (n : ℕ)
    → 4 ≤ n
    → has_reached n (promote listed before) ≡ true
    → has_reached 4 before ≡ true
promote-reached true none n big up = up
promote-reached true (some k) n big up = ground arith
promote-reached false none n big up = up
promote-reached false (some k) n big up = ground arith

promote-committed :
    (listed : Bool) (before : Option ℕ)
    → has_reached 6 before ≡ true
    → has_reached 6 (promote listed before) ≡ true
promote-committed true none up = up
promote-committed true (some k) up = ground arith
promote-committed false before up = up

commit_work-reached :
    (work : List DocWork) (m : Manifest) (j : Bytes) (n : ℕ)
    → 4 ≤ n
    → has_reached n (stage_of j (commit_work true work m)) ≡ true
    → has_reached 4 (stage_of j m) ≡ true
commit_work-reached work m j n big up =
    promote-reached (is_work j work) (stage_of j m) n big
      (subst (λ x. has_reached n x ≡ true) (stage_of-commit_work true work m j) up)

pub commit_work-committed :
    (work : List DocWork) (m : Manifest) (j : Bytes)
    → has_reached 6 (stage_of j m) ≡ true
    → has_reached 6 (stage_of j (commit_work true work m)) ≡ true
commit_work-committed work m j up =
    subst (λ x. has_reached 6 x ≡ true) (sym (stage_of-commit_work true work m j))
      (promote-committed (is_work j work) (stage_of j m) up)

module _ (F D : Type 0) where
  -- Where the graph took what was staged, everything that was written is in it.
  IsLoaded-Published :
      (db db' : Database F) (j : Bytes)
      → IsBacked F D db
      → IsLoaded F D db db'
      → has_reached 4 (stage_of j db'.manifest) ≡ true
      → Published F D j (loads_of db'.graph)
  IsLoaded-Published db db' j b l up =
      let before : has_reached 4 (stage_of j db.manifest) ≡ true =
        subst (λ x. has_reached 4 x ≡ true) (stage_of-doc j db'.manifest db.manifest l.same_doc)
          up in
      let in_either : Published F D j (loads_of db.graph ++ l.load ∷ []) =
        Any-append (Took F D j) (loads_of db.graph) (l.load ∷ []) (elim (b.written j before) [
          | inl waits ↦ inr (inl (l.all_loaded j waits))
          | inr there ↦ inl there
        ]) in
      subst (Published F D j) (sym l.one_more) in_either

  -- Stage 8 commits nothing that is not in the graph.
  pub committed-IsBacked :
      (work : List DocWork) (db db' : Database F) (d : Staging)
      → IsBacked F D db
      → IsLoaded F D db db'
      → IsBacked F D record db' { manifest = commit_work true work db'.manifest; staging = d }
  committed-IsBacked work db db' d b l = record {
    committed = λ j up.
        IsLoaded-Published db db' j b l
          (commit_work-reached work db'.manifest j 6 (omega arith) up);
    written = λ j up. inr (
        IsLoaded-Published db db' j b l
          (commit_work-reached work db'.manifest j 4 (omega arith) up));
  }
