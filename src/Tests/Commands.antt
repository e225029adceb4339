-- ===== src/Tests/Commands.antt =====
-- Runs of src/main.cpp, src/supervisor.cpp, src/organs.cpp and the later steps of src/search.cpp.
use chimera_ape.Base.{
  ℕ, ◌+◌, ◌*◌, ◌<◌, ◌≡◌, ◌⊎◌, refl, arith, true, false, none, some, List, [], ◌∷◌, ◌++◌, Bytes,
  codes, length, ltb, if◌then◌else◌, All,
}
use chimera_ape.Util.Strtol.{pos}
use chimera_ape.Cli.{Options, default_options, search, runs, exits, parse_command_line}
use chimera_ape.Cli.Flags.{render}
use chimera_ape.Cli.Render.{parse_command_line-render}
use chimera_ape.Supervisor.{Probe, alive, Health, healthy, wait_loop}
use chimera_ape.Supervisor.Waiting.{Ended, wait_loop-Ended}
use chimera_ape.Organs.Lifecycle.{Start, no_organs, llama, qlever}
use chimera_ape.Organs.Lifecycle.Supervised.{Call, call_llama, call_qlever}
use chimera_ape.Organs.Lifecycle.Processes.{processes}
use chimera_ape.Search.Context.{Card, Source, choose_sources, cited}
use chimera_ape.Search.Context.Budget.{FirstFit, text_bytes, choose_sources-FirstFit}

abbrev options : Options
options = record default_options {
  query = codes "who";
  dir = codes "notes";
  include = codes "*.md" ∷ codes "*.txt" ∷ [];
  json = true;
  k = pos 5;
}

parse_command_line-render_example : parse_command_line (render search options) ≡ runs search options
parse_command_line-render_example =
    parse_command_line-render options (omega arith) (omega arith) (omega arith) search (refl, refl)

unknown_flag_run : parse_command_line (codes "ingest" ∷ codes "--fast" ∷ []) ≡ exits 2
unfolding parse_command_line
unknown_flag_run = refl

-- The third poll is answered.
abbrev probes : ℕ → Probe
probes i = record { wait = alive; status = if ltb i 2 then none else some (pos 200); took = 3 }

probes_run : wait_loop probes 1000 ≡ some healthy
unfolding wait_loop
probes_run = refl

wait_loop-Ended_example :
    (h : Health) × (wait_loop probes 1000 ≡ some h) × Ended probes 1000 0 0 50 h
wait_loop-Ended_example = wait_loop-Ended probes 1000

abbrev world : Start
world = record { port = pos 4000; opens = true; fork = some 17; health = healthy; log = none }

abbrev calls : List Call
calls = call_llama world ∷ call_qlever false world ∷ []

-- The server has a process until it is stopped.
started_run : processes [] calls no_organs [] ≡ 17 ∷ []
unfolding processes llama qlever
started_run = refl

abbrev card : Bytes → Card
card text = record {
  chunk_id = codes "ab:0002";
  doc_id = codes "ab";
  path = codes "a.txt";
  summary = [];
  text = text;
}

abbrev top : List Card
top = card (codes "first") ∷ card (codes "far too long") ∷ card (codes "it") ∷ []

abbrev chosen : List Source
chosen = choose_sources (pos 2) top []

cited_run : cited (codes "see [2] and [9]") 2 ≡ 1 ∷ []
unfolding cited
cited_run = refl

choose_sources-FirstFit_example :
    (left : ℕ) × FirstFit (2 * 4) (top ++ []) chosen left
    × (text_bytes chosen + left ≡ 2 * 4)
    × All (λ k. k < length chosen) (cited (codes "see [2]") (length chosen))
    × ((length chosen ≡ 0) ⊎ (0 < length (cited (codes "see [2]") (length chosen))))
choose_sources-FirstFit_example = choose_sources-FirstFit 2 top [] (codes "see [2]")
