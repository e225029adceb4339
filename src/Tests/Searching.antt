-- ===== src/Tests/Searching.antt =====
-- Runs of src/search.cpp.
use chimera_ape.Base.{
  ℕ, ◌+◌, ◌-◌, ◌≤◌, ◌≡◌, ◌↔◌, refl, true, false, some, none, map, ltb, ◌==◌, Bytes, List, [], ◌∷◌,
  codes, length, All, Any, ◌⊎◌, bytes_eq,
}
use chimera_ape.Manifest.{Manifest, empty_manifest}
use chimera_ape.Walk.{WalkEntry}
use chimera_ape.Search.Rank.{Scores, Candidate, Ranked, fuse, top_candidates}
use chimera_ape.Search.Rank.Candidates.{Distinct, top_candidates-Distinct}
use chimera_ape.Search.Verify.{run_verify}
use chimera_ape.Search.Vacuum.{Conditions, Disk, run_vacuum, rebuild_live}
use chimera_ape.Search.Vacuum.Restored.{IsSound, run_vacuum-IsSound}
use chimera_ape.Search.Verify.Recorded.{IsRecorded, IsDrifted, run_verify_iff}
use chimera_ape.Search.{chunk_id_from_iri, values_block, salient_terms}
use chimera_ape.Search.Terms.{IsTerm, Descending, salient_terms-Descending}

abbrev query : Bytes
query = codes "What did the Parser say?"

terms_run : salient_terms query 6 ≡ codes "parser" ∷ codes "say" ∷ []
unfolding salient_terms
terms_run = refl

-- `std::unique` drops neighbours only, so a term stays twice behind another one of its length.
repeated_run :
    salient_terms (codes "alpha bravo alpha") 6 ≡ codes "alpha" ∷ codes "bravo" ∷ codes "alpha" ∷ []
unfolding salient_terms
repeated_run = refl

iri_run : chunk_id_from_iri (codes "chimera://chunk/ab:0001") ≡ codes "ab:0001"
unfolding chunk_id_from_iri
iri_run = refl

values_run :
    values_block (codes "ab:0001" ∷ []) ≡ codes "VALUES ?chunk { <chimera://chunk/ab:0001> }"
unfolding values_block
values_run = refl

salient_terms-Descending_example :
    All IsTerm (salient_terms query 6)
    × Descending (salient_terms query 6)
    × (length (salient_terms query 6) ≤ 6)
salient_terms-Descending_example = salient_terms-Descending query 6

abbrev pub scores : Scores ℕ
scores = record {
  zero = 0;
  plus = λ a b. a + b;
  greater = λ a b. ltb b a;
  is_zero = λ a. a == 0;
  rrf = λ i. 100 - i;
  atof = λ s. 1;
}

abbrev by_vector : Ranked ℕ
by_vector = (codes "d:0002", 9) ∷ (codes "c:0001", 8) ∷ []

-- The media vector of `d` stands for its first chunk.
candidates_run :
    map
      (λ (c : Candidate ℕ). c.chunk_id)
      (top_candidates scores by_vector ((codes "c:0001", 3) ∷ []) ((codes "d:0000", 5) ∷ []))
    ≡ codes "c:0001" ∷ codes "d:0001" ∷ codes "d:0002" ∷ []
unfolding top_candidates fuse
candidates_run = refl

top_candidates-Distinct_example :
    Distinct scores
      (top_candidates scores by_vector ((codes "c:0001", 3) ∷ []) ((codes "d:0000", 5) ∷ []))
    × (length
          (top_candidates scores by_vector ((codes "c:0001", 3) ∷ []) ((codes "d:0000", 5) ∷ []))
        ≤ 12)
top_candidates-Distinct_example =
    top_candidates-Distinct scores by_vector ((codes "c:0001", 3) ∷ []) ((codes "d:0000", 5) ∷ [])

abbrev stored : Manifest
stored = record empty_manifest {
  path = record { relpath = codes "a.txt"; mtime = 5; size = 9; docid = codes "d" } ∷ [];
}

abbrev corpus : List WalkEntry
corpus =
    record {
      rel_path = codes "a.txt";
      abs_path = codes "/x/a.txt";
      size = 9;
      mtime = 6;
      mime = codes "text/plain";
      modality = codes "text";
    }
    ∷ []

run_verify_iff_example : (run_verify stored (λ path. some (codes "e")) 0 true corpus ≡ 0) ↔ (
    All (IsRecorded stored (λ path. some (codes "e"))) corpus
    ⊎ ((true ≡ true)
        × Any (IsDrifted stored (λ path. some (codes "e"))) corpus
        × (◌≡◌ {A = ℕ} 0 0)))
run_verify_iff_example = run_verify_iff stored (λ path. some (codes "e")) 0 true corpus

-- A drifted file, with and without `--fix`, where ingest exits with 0.
drifted_run : run_verify stored (λ path. some (codes "e")) 0 false corpus ≡ 1
unfolding run_verify bytes_eq
drifted_run = refl

fix_run : run_verify stored (λ path. some (codes "e")) 0 true corpus ≡ 0
unfolding run_verify bytes_eq
fix_run = refl

-- The index cannot be built.
abbrev conditions : Conditions
conditions = record {
  vectors_start = true;
  graph_starts = true;
  construct = some (codes "live");
  builds = false;
}

abbrev disk : Disk
disk = record {
  dump = none;
  index = some (codes "old");
  old_index = none;
  loaded = codes "1.ttl" ∷ [];
}

restored_run : (run_vacuum conditions stored disk).disk ≡ record disk { dump = some (codes "live") }
unfolding run_vacuum rebuild_live
restored_run = refl

abbrev buildable : Conditions
buildable = record conditions { builds = true }

rebuilt_run : (run_vacuum buildable stored disk).code ≡ 0
unfolding run_vacuum rebuild_live
rebuilt_run = refl

run_vacuum-IsSound_example : IsSound buildable disk (run_vacuum buildable stored disk)
run_vacuum-IsSound_example = run_vacuum-IsSound buildable stored disk
