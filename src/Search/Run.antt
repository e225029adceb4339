-- ===== src/Search/Run.antt =====
-- src/search.cpp: `run_search` and `run_sparql` as a whole.
pub mod Exits
use mathlib.Core.Option
use chimera_ape.Base.{
  ℕ, ◌+◌, Bool, true, false, not, ◌&&◌, Option, none, some, List, [], ◌∷◌, ◌++◌, map, if◌then◌else◌,
  Bytes, codes, utf8, is_empty, length, Result,
}
use chimera_ape.Cli.{Options}
use chimera_ape.Hash.{Hashes, triple_tap}
use chimera_ape.Ingest.{resolve_db_dir}
use chimera_ape.Json.{Json, JsonLib}
use chimera_ape.Manifest.{Manifest}
use chimera_ape.Manifest.Ops.{scoreboard}
use chimera_ape.Organs.Lifecycle.{Organs, no_organs, Start, llama, turbovec, qlever}
use chimera_ape.Organs.Paths.{Files, Environment, resolve, missing}
use chimera_ape.Util.Strtol.{ℤ}
use chimera_ape.Search.Context.{Card, Source, choose_sources, context_text, cited}
use chimera_ape.Search.Crawl.{HubRule, Crawled, crawl}
use chimera_ape.Search.Rank.{Scores, Candidate, fuse, sort_candidates, top_n, top_candidates}
use chimera_ape.Search.Report.{c_str, verdicts_of, no_match, report}
use chimera_ape.Search.Retrieve.{
  Step, goes, exits, throws, ◌>>~◌, lift, or_fail, Clients, Query, query_of, rank_vectors,
  rank_keywords,
}

-- `kSynthesisSystemPrompt`
abbrev pub synthesis_system_prompt : Bytes
synthesis_system_prompt =
    utf8
      "Answer the QUESTION using only the CONTEXT below. Cite every claim with [n] markers keyed to the numbered sources. If the context is insufficient, say so plainly and name what is missing — do not improvise. Be terse. No preamble."

-- What a search meets. `manifest` is `none` if there is no database; `has_index` says whether the
-- graph has one.
pub record SearchWorld (D : Type 0) : Type 0 where
  pub absolute : Bytes → Bytes
  pub parent_path : Bytes → Bytes
  pub manifest : Option Manifest
  pub environment : Environment
  pub programs : Files
  pub llama_start : Start
  pub turbovec_start : Start
  pub qlever_start : Start
  pub has_index : Bool
  pub clients : Clients D
  pub files : Bytes → Option Bytes
  pub exists : Bytes → Bool
  pub hashes : Hashes
  pub scores : Scores D
  pub hub_rule : HubRule D
  pub json : JsonLib D
  pub of_int : ℤ → D
  pub dump : Json D → Result Bytes

abbrev is_up : Option ℤ → Bool
is_up none = false
is_up (some port) = true

module _ {D : Type 0} (w : SearchWorld D) (o : Options) where
  abbrev db_dir : Bytes
  db_dir = resolve_db_dir w.absolute o

  -- Each server is started only behind the one before it.
  unfoldable pub servers_up : Bool
  unfolding llama turbovec qlever
  servers_up =
      let one = llama db_dir w.llama_start no_organs in
      let two = if is_up one.llama_client then turbovec db_dir w.turbovec_start one else one in
      let three =
        if is_up two.turbovec_client then qlever db_dir w.has_index w.qlever_start two else two in
      is_up one.llama_client && is_up two.turbovec_client && is_up three.qlever_client

  abbrev pub if_complete : Option Bytes → Step Unit
  if_complete none = if servers_up then goes tt else exits 1 []
  if_complete (some piece) = exits 1 []

  unfoldable pub start : Step Unit
  unfolding resolve missing servers_up
  start =
      let (programs, paths) = resolve w.environment db_dir o.model w.programs in
      if_complete (missing programs paths)

  -- Stages 8 and the output, for an answer of the model.
  unfoldable pub conclude : Bytes → List (Candidate D) → Crawled → List Source → Step Bytes
  unfolding cited verdicts_of triple_tap report
  conclude answer top crawled sources =
      let positions = cited answer (length sources) in
      let root = w.parent_path db_dir in
      let verdicts =
        verdicts_of w.exists (λ p. triple_tap w.hashes false (w.files p)) root sources positions in
      lift (
        report w.of_int w.dump o.json o.query answer top crawled.top sources positions verdicts
          crawled.receipts)

  -- An answer that is missing or empty ends the run.
  unfoldable pub answered : Option Bytes → Step Bytes
  answered none = exits 1 []
  answered (some answer) = if is_empty answer then exits 1 [] else goes answer

  -- Stages 6 to 8.
  unfoldable pub synthesize : Bytes → List (Candidate D) → Crawled → Step Bytes
  unfolding choose_sources context_text answered conclude
  synthesize query_text top crawled =
      let sources = choose_sources o.ctx_budget crawled.top crawled.expansion in
      lift
        (w.clients.chat synthesis_system_prompt (context_text query_text sources crawled.receipts))
      >>~ answered
      >>~ λ answer. conclude answer top crawled sources

  abbrev id_of : Candidate D → Bytes
  id_of c = c.chunk_id

  -- Stages 5 to 8, if there is a candidate. `fused` has all candidates, in no order of rank.
  unfoldable pub from_candidates :
      Manifest → Bytes → List (Candidate D) → List (Candidate D) → Step Bytes
  unfolding crawl scoreboard synthesize
  from_candidates m query_text fused [] = exits 0 (no_match o.json)
  from_candidates m query_text fused (c ∷ cs) =
      lift (
        crawl w.scores w.hub_rule w.json w.clients.ask o.hops (scoreboard m).chunks
          (map id_of fused) (map id_of (c ∷ cs)))
      >>~ synthesize query_text (c ∷ cs)

  -- Stages 0b to 8.
  unfoldable pub search_in : Manifest → Step Bytes
  unfolding query_of rank_vectors rank_keywords fuse top_candidates from_candidates
  search_in m = query_of w.clients o m w.files >>~ λ query.
      rank_vectors w.clients o m query.text >>~ λ vec_ranked.
      let kw_ranked = rank_keywords w.clients o m w.scores w.json query.text in
      from_candidates m query.text (fuse w.scores vec_ranked kw_ranked query.media_ranked)
        (top_candidates w.scores vec_ranked kw_ranked query.media_ranked)

  -- The run that got to its end returns 0.
  abbrev pub finished : Step Bytes → Step Unit
  finished (goes out) = exits 0 out
  finished (exits code out) = exits code out
  finished (throws e) = throws e

  unfoldable pub run_search : Step Unit
  unfolding start search_in
  run_search = or_fail w.manifest >>~ λ m. start >>~ λ u. finished (search_in m)

  -- The graph server alone, and its answer as it is.
  unfoldable pub run_sparql : Step Unit
  unfolding qlever c_str
  run_sparql =
      let up = qlever db_dir w.has_index w.qlever_start no_organs in
      if is_up up.qlever_client
      then elim (w.clients.ask o.sparql_text) [
        | none ↦ exits 1 []
        | some res ↦ exits 0 (c_str res ++ codes "\n")
      ]
      else exits 1 []
