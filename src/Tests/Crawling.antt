-- ===== src/Tests/Crawling.antt =====
-- The crawl and whole runs of src/search.cpp.
use chimera_ape.Base.{
  ℕ, ◌≡◌, refl, true, false, Option, none, some, List, [], ◌∷◌, ◌++◌, Bytes, codes, bytes_eq, All,
  ok, err, ◌>>=◌, AllOk, ErrOnly, if◌then◌else◌,
}
use chimera_ape.Cli.{Options, default_options}
use chimera_ape.Ingest.{resolve_db_dir}
use chimera_ape.Json.{Json, JsonLib, obj, arr, string, cons, nil, field, end}
use chimera_ape.Manifest.{Manifest, empty_manifest}
use chimera_ape.Search.Crawl.{HubRule, siblings_query, mentions_query, expand_around}
use chimera_ape.Search.Crawl.Errors.{IsIncomplete}
use chimera_ape.Search.Crawl.Expansion.{Ascending, IsNew}
use chimera_ape.Search.Crawl.Reasons.{HasReason, expand_around-IsExplained}
use chimera_ape.Search.Retrieve.{Clients, exits, ◌>>~◌}
use chimera_ape.Search.Run.{SearchWorld, run_search}
use chimera_ape.Tests.Hashing.{sample_hashes}
use chimera_ape.Tests.Running.{start_well}
use chimera_ape.Tests.Searching.{scores}

abbrev kept : List Bytes
kept = codes "d:0001" ∷ []

abbrev value : Bytes → Json ℕ
value s = obj (field (codes "value") (string s) end)

abbrev result : Json ℕ → Json ℕ
result row =
    obj (field (codes "results") (obj (field (codes "bindings") (arr (cons row nil)) end)) end)

-- The chunk after the candidate.
abbrev next_row : Json ℕ
next_row = obj (field (codes "next") (value (codes "chimera://chunk/d:0002")) end)

-- Another chunk with the entity `e`.
abbrev mention_row : Json ℕ
mention_row = obj (
    field (codes "ent") (value (codes "e"))
      (field (codes "other") (value (codes "chimera://chunk/c:0007")) end))

abbrev lib : JsonLib ℕ
lib = record {
  parse = λ text.
      if bytes_eq text (codes "S")
      then ok (result next_row)
      else if bytes_eq text (codes "M")
      then ok (result mention_row)
      else err [];
  not_string = λ v. [];
  not_number = λ v. [];
  not_found = λ k. [];
  not_object = λ v. [];
}

abbrev ask : Bytes → Option Bytes
unfolding siblings_query mentions_query
ask q =
    if bytes_eq q (siblings_query kept)
    then some (codes "S")
    else if bytes_eq q (mentions_query kept)
    then some (codes "M")
    else none

abbrev rule : HubRule ℕ
rule = record { two = 2; twentieth = λ n. n }

expand_around_run :
    expand_around scores rule lib ask 3 kept kept ≡ ok (codes "c:0007" ∷ codes "d:0002" ∷ [], [])
unfolding expand_around siblings_query mentions_query bytes_eq ◌>>=◌
expand_around_run = refl

expand_around-IsExplained_example :
    AllOk
      (λ found.
        Ascending found.0
        × All (λ cid. IsNew kept cid × HasReason scores rule lib ask 3 kept cid) found.0)
      (expand_around scores rule lib ask 3 kept kept)
    × ErrOnly
        (IsIncomplete scores rule lib ask kept)
        (expand_around scores rule lib ask 3 kept kept)
expand_around-IsExplained_example = expand_around-IsExplained scores rule lib ask 3 kept kept

-- A corpus of one chunk, which the vector store finds.
abbrev manifest : Manifest
manifest = record empty_manifest {
  chunk =
      record {
        chunk_id = codes "d:0001";
        doc_id = codes "d";
        ordinal = 1;
        vec_key = 5;
        byte_start = 0;
        byte_end = 9;
        modality = codes "text";
      }
      ∷ [];
}

abbrev clients : Clients ℕ
clients = record {
  embed = λ texts. ok (some ((1 ∷ []) ∷ []));
  embed_media = λ b64. ok none;
  chat = λ system user. ok (some (codes "yes"));
  chat_media = λ prompt b64 mime. ok none;
  nearest = λ v k allow. ok (some (record { vec_key = 5; score = 7 } ∷ []));
  ask = λ q. none;
}

abbrev world : SearchWorld ℕ
world = record {
  absolute = λ p. codes "/" ++ p;
  parent_path = λ p. codes "/c";
  manifest = some manifest;
  environment = record { zip = λ n. none; env = λ v. codes "/x"; renames = λ p. true };
  programs = λ p. some (codes "x");
  llama_start = start_well;
  turbovec_start = start_well;
  qlever_start = start_well;
  has_index = true;
  clients = clients;
  files = λ p. none;
  exists = λ p. false;
  hashes = sample_hashes;
  scores = scores;
  hub_rule = rule;
  json = lib;
  of_int = λ i. 0;
  dump = λ j. err [];
}

abbrev options : Options
options = record default_options { query = codes "is it" }

search_run :
    run_search world options
    ≡ exits 0 (codes "\nyes\n\nSources:\n  [1] #1  " ++ 0xe2 ∷ 0x9a ∷ 0xa0 ∷ codes " missing\n")
unfolding run_search resolve_db_dir ◌>>~◌ ◌>>=◌
search_run = refl
