-- ===== src/Search/Run/Exits.antt =====
-- src/search.cpp: how a search ends.
use chimera_ape.Base.{ℕ, ◌<◌, ◌≡◌, ◌⊎◌, false, some, List, [], Bytes, is_empty, length, All, ok}
use chimera_ape.Cli.{Options}
use chimera_ape.Manifest.{Manifest}
use chimera_ape.Search.Context.{Source, choose_sources, context_text, cited}
use chimera_ape.Search.Context.Budget.{FitsIn}
use chimera_ape.Search.Crawl.{Crawled}
use chimera_ape.Search.Rank.{Candidate, Ranked, top_candidates}
use chimera_ape.Search.Report.{no_match}
use chimera_ape.Search.Retrieve.{Query, goes, or_fail, query_of, rank_vectors, rank_keywords}
use chimera_ape.Search.Run.{SearchWorld, synthesis_system_prompt, conclude}

module _ {D : Type 0} (w : SearchWorld D) (o : Options) where
  abbrev pub Failed : ℕ → Bytes → Type 0
  Failed code out = (code ≡ 1) × (out ≡ [])

  -- The rankings that the query gives have no candidate.
  pub record Unranked : Type 0 where
    pub m : Manifest
    pub query : Query D
    pub vec_ranked : Ranked D
    pub opened : or_fail w.manifest ≡ goes m
    pub asked : query_of w.clients o m w.files ≡ goes query
    pub searched : rank_vectors w.clients o m query.text ≡ goes vec_ranked
    pub no_candidate :
        top_candidates w.scores vec_ranked
          (rank_keywords w.clients o m w.scores w.json query.text)
          query.media_ranked
        ≡ []

  abbrev pub Unmatched : ℕ → Bytes → Type 0
  Unmatched code out = (code ≡ 0) × (out ≡ no_match o.json) × Unranked

  -- The report of an answer that the model gave to a context within the budget, whose cited
  -- positions are those of its sources.
  pub record Answered (out : Bytes) : Type 0 where
    pub query_text : Bytes
    pub answer : Bytes
    pub crawled : Crawled
    pub top : List (Candidate D)
    pub sources : List Source
    pub not_empty : is_empty answer ≡ false
    pub fits : FitsIn o.ctx_budget sources
    pub chosen : sources ≡ choose_sources o.ctx_budget crawled.top crawled.expansion
    pub said :
        w.clients.chat synthesis_system_prompt (context_text query_text sources crawled.receipts)
        ≡ ok (some answer)
    pub in_range : All (λ k. k < length sources) (cited answer (length sources))
    pub printed : conclude w o answer top crawled sources ≡ goes out

  abbrev Stops : ℕ → Bytes → Type 0
  Stops code out = Failed code out ⊎ Unmatched code out

  -- How a search ends, if not by an exception.
  abbrev pub Ends : ℕ → Bytes → Type 0
  Ends code out = Failed code out ⊎ Unmatched code out ⊎ ((code ≡ 0) × Answered out)
