-- ===== src/Tests/Running.antt =====
-- Whole runs of src/ingest.cpp.
use chimera_ape.Util.Strtol.{pos}
use chimera_ape.Base.{
  ℕ, ◌≡◌, refl, true, arith, false, none, some, List, [], ◌∷◌, ◌++◌, Bytes, codes, bytes_eq,
  if◌then◌else◌,
}
use chimera_ape.Cli.{Options, default_options}
use chimera_ape.Organs.Lifecycle.{Start}
use chimera_ape.Supervisor.{healthy}
use chimera_ape.Ttl.Emit.{ttl_prologue}
use chimera_ape.Walk.Traverse.{Entries, no_entries, file_entry}
use chimera_ape.Ingest.Run.{World, run_ingest}
use chimera_ape.Ingest.Run.Backed.{IsIteration, is_committed, IsBacked}
use chimera_ape.Ingest.Run.Load.{Database, built}
use chimera_ape.Ingest.Run.Refined.{Publish, catalog_of, run_ingest-Ran}
use chimera_ape.Ingest.Run.Killed.{flushed_database}
use chimera_ape.Ingest.Run.Sequence.{empty_database}
use chimera_ape.Ingest.Staging.{StagingFile}
use chimera_ape.Hash.{triple_tap}
use chimera_ape.Ingest.{resolve_db_dir}
use chimera_ape.Manifest.Ops.{stage_of}
use chimera_ape.Tests.Hashing.{sample_hashes}
use chimera_ape.Tests.Pipeline.{services, files}

abbrev pub start_well : Start
start_well = record { port = pos 1; opens = true; fork = some 2; health = healthy; log = none }

abbrev world : World ℕ ℕ
world = record {
  absolute = λ p. codes "/" ++ p;
  corpus = some (file_entry (codes "a.txt") 9 5 (codes "one. two.") no_entries);
  ignore_lines = [];
  opens_lock = true;
  locks = true;
  files = files;
  hashes = sample_hashes;
  environment = record { zip = λ n. none; env = λ v. codes "/x"; renames = λ p. true };
  programs = λ p. some (codes "x");
  llama_start = start_well;
  turbovec_start = start_well;
  services = services;
  info = none;
  pid = 7;
  graph = record { builds = λ t. true; starts = start_well; updates = λ t. true };
  llama_waits = [];
  turbovec_waits = [];
  qlever_waits = [];
}

abbrev options : Options
options = record default_options { dir = codes "c" }

abbrev as_listed : List StagingFile → List StagingFile
as_listed fs = fs

as_listed-IsIteration : IsIteration as_listed
as_listed-IsIteration = λ P fs h. h

run_code : (run_ingest as_listed options world empty_database).code ≡ 0
unfolding run_ingest resolve_db_dir
run_code = refl

-- The identifier of the document in the tree.
abbrev doc : Bytes
doc = elim (triple_tap sample_hashes false (files (codes "/c/a.txt"))) [ none ↦ [] | some id ↦ id ]

abbrev tree : Entries
tree = file_entry (codes "a.txt") 9 5 (codes "one. two.") no_entries

-- The first run is killed before it can load what it staged, the second one ends.
abbrev killed_run : Database ℕ
killed_run = flushed_database as_listed options world tree (23 ∷ []) empty_database

abbrev resumed : Database ℕ
resumed = (run_ingest as_listed options world killed_run).database

fresh-IsBacked : IsBacked ℕ ℕ empty_database
unfolding stage_of
fresh-IsBacked = record {
  committed = λ j none_known. absurd (ground arith);
  written = λ j none_known. absurd (ground arith);
}

run_ingest-Ran_example :
    IsBacked ℕ ℕ (run_ingest as_listed options world empty_database).database
    × Publish
        (catalog_of {F = ℕ} empty_database)
        (run_ingest as_listed options world empty_database).code
        (catalog_of (run_ingest as_listed options world empty_database).database)
run_ingest-Ran_example =
    run_ingest-Ran as_listed options world as_listed-IsIteration empty_database fresh-IsBacked

-- A run that was killed before its text is flushed, and then one that cannot embed the document.
abbrev lost : Database ℕ
lost = record killed_run { staging = record { files = []; loaded = [] } }

abbrev without_model : World ℕ ℕ
without_model = record world {
  services = record services {
    embed = λ ts. elim ts [
      | [] ↦ none
      | t ∷ rest ↦
          if bytes_eq t (codes "chimera dimension probe") then some ((23 ∷ []) ∷ []) else none
    ];
  };
}

abbrev after_loss : Database ℕ
after_loss = (run_ingest as_listed options without_model lost).database

-- The document is committed, and the graph was built from an empty run.
lost_committed : is_committed after_loss doc ≡ true
unfolding run_ingest resolve_db_dir triple_tap stage_of
lost_committed = refl

lost_graph : after_loss.graph ≡ some (built (ttl_prologue ++ ttl_prologue) ∷ [])
unfolding run_ingest resolve_db_dir ttl_prologue
lost_graph = refl
