-- ===== src/Search/Verify.antt =====
-- src/search.cpp: `run_verify` and `run_status`, on the entries that the walk of the corpus gives.
pub mod Recorded
use mathlib.Core.Option
use chimera_ape.Base.{
  ℕ, ◌+◌, Bool, true, false, not, ◌&&◌, Option, none, some, List, [], ◌∷◌, ◌++◌, ltb, ◌==◌,
  if◌then◌else◌, Bytes, codes, bytes_eq, stream,
}
use chimera_ape.Manifest.{PathInfo, Manifest, Scoreboard}
use chimera_ape.Manifest.Ops.{path_info, scoreboard, get_meta}
use chimera_ape.Util.Decimal.{decimal}
use chimera_ape.Walk.{WalkEntry}

pub record Tally : Type 0 where
  pub ok : ℕ
  pub drifted : ℕ
  pub missing : ℕ
  pub drifted_paths : List Bytes

abbrev pub no_tally : Tally
no_tally = record { ok = 0; drifted = 0; missing = 0; drifted_paths = [] }

-- What is to be said of a file: `known` is its row, `tap` its present identifier.
unfoldable pub compare_with : PathInfo → Option Bytes → WalkEntry → Tally → Tally
unfolding bytes_eq
compare_with known none e t = record t { missing = t.missing + 1 }
compare_with known (some id) e t =
    if bytes_eq id known.doc_id
    then record t { ok = t.ok + 1 }
    else record t { drifted = t.drifted + 1; drifted_paths = t.drifted_paths ++ e.rel_path ∷ [] }

module _ (m : Manifest) (tap : Bytes → Option Bytes) where
  unfoldable pub check_entry : WalkEntry → Tally → Tally
  unfolding path_info compare_with
  check_entry e t = elim (path_info e.rel_path m) [
    | none ↦ t
    | some known ↦ compare_with known (tap e.abs_path) e t
  ]

  unfoldable pub check_entries : List WalkEntry → Tally → Tally
  unfolding check_entry
  check_entries [] t = t
  check_entries (e ∷ es) t = check_entries es (check_entry e t)

-- The exit code. `ingest` is that of `run_ingest` over the corpus, which `--fix` returns.
unfoldable pub verify_end : ℕ → Bool → Tally → ℕ
verify_end ingest fix t =
    if fix && ltb 0 t.drifted then ingest else if t.drifted == 0 && t.missing == 0 then 0 else 1

unfoldable pub run_verify : Manifest → (Bytes → Option Bytes) → ℕ → Bool → List WalkEntry → ℕ
unfolding check_entries verify_end
run_verify m tap ingest fix entries = verify_end ingest fix (check_entries m tap entries no_tally)

-- The lines of `run_status`, without the directory.
unfoldable pub status_text : Bytes → Manifest → Bytes
unfolding scoreboard get_meta decimal
status_text db_dir m = stream (
    codes "db:         "
    ∷ db_dir
    ∷ codes "\ndocuments:  "
    ∷ decimal (scoreboard m).docs
    ∷ codes "\nchunks:     "
    ∷ decimal (scoreboard m).chunks
    ∷ codes "\nsuperseded: "
    ∷ decimal (scoreboard m).superseded
    ∷ codes " (pending vacuum)\n"
    ∷ (elim (get_meta (codes "embedding_dim") m) [
      | none ↦ []
      | some dim ↦ codes "embedding:  " ++ dim ++ codes " dims\n"
    ])
    ∷ (elim (get_meta (codes "text_index_stale") m) [
      | none ↦ []
      | some stale ↦ codes "note:       keyword index stale; vacuum to rebuild\n"
    ])
    ∷ [])
