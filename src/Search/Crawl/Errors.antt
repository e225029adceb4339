-- ===== src/Search/Crawl/Errors.antt =====
-- src/search.cpp: when the crawl throws.
use chimera_ape.Base.{
  ℕ, ◌≡◌, ◌⊎◌, inl, inr, Option, none, List, [], ◌∷◌, Bytes, codes, Any, Bool-cases, Option-cases,
  ErrOnly, bind-ErrOnly, ErrOnly-map,
}
use chimera_ape.Walk.Names.{is_one_of}
use chimera_ape.Json.{JsonLib}
use chimera_ape.Search.Rank.{Row, Scores, value_of}
use chimera_ape.Search.Rows.{at_key}
use chimera_ape.Search.Crawl.{
  insert_id, expand, siblings, co_mentions, hubs_of, hub_cut, HubRule, rows_for, siblings_query,
  hubs_query, mentions_query, receipts_query, receipt, receipts_of, expand_around,
}

-- A variable that is read has no value in the row.
abbrev pub Lacks : List Bytes → Row → Type 0
Lacks ks row = Any (λ k. value_of k row ≡ none) ks

at_key-ErrOnly : (k : Bytes) (row : Row) → ErrOnly (value_of k row ≡ none) (at_key k row)
unfolding at_key
at_key-ErrOnly k row = elim (Option-cases (value_of k row)) [
  | inl e ↦ rw (e, ErrOnly) e
  | inr (v, e) ↦ rw (e, ErrOnly) tt
]

at_key-Lacks :
    (E : Type 0) (k : Bytes) (row : Row) → (value_of k row ≡ none → E) → ErrOnly E (at_key k row)
at_key-Lacks E k row = ErrOnly-map (value_of k row ≡ none) E (at_key k row) (at_key-ErrOnly k row)

abbrev pub mention_keys : List Bytes
mention_keys = codes "ent" ∷ codes "other" ∷ []

abbrev pub hub_keys : List Bytes
hub_keys = codes "n" ∷ codes "ent" ∷ []

abbrev pub receipt_keys : List Bytes
receipt_keys = codes "s" ∷ codes "p" ∷ codes "obj" ∷ codes "conf" ∷ []

co_mentions-ErrOnly :
    (hubs taken : List Bytes) (rows : List Row) (ids : List Bytes)
    → ErrOnly (Any (Lacks mention_keys) rows) (co_mentions hubs taken rows ids)
unfolding co_mentions
co_mentions-ErrOnly hubs taken [] ids = tt
co_mentions-ErrOnly hubs taken (row ∷ rows) ids =
    let E = Any (Lacks mention_keys) (row ∷ rows) in
    let rest : (more : List Bytes) → ErrOnly E (co_mentions hubs taken rows more) = λ more.
      ErrOnly-map (Any (Lacks mention_keys) rows) E (co_mentions hubs taken rows more)
        (co_mentions-ErrOnly hubs taken rows more) inr in
    bind-ErrOnly E _ _ (at_key-Lacks E (codes "ent") row (λ e. inl (inl e))) λ ent.
      elim (Bool-cases (is_one_of ent hubs)) [
        | inl hub ↦ rw hub (rest ids)
        | inr small ↦ rw small (
            bind-ErrOnly E _ _ (at_key-Lacks E (codes "other") row (λ e. inl (inr (inl e))))
              λ other. rest (expand taken other ids))
      ]

receipt-ErrOnly : (row : Row) → ErrOnly (Lacks receipt_keys row) (receipt row)
unfolding receipt
receipt-ErrOnly row =
    let E = Lacks receipt_keys row in
    bind-ErrOnly E _ _ (at_key-Lacks E (codes "s") row (λ e. inl e)) λ s.
      bind-ErrOnly E _ _ (at_key-Lacks E (codes "p") row (λ e. inr (inl e))) λ p.
        bind-ErrOnly E _ _ (at_key-Lacks E (codes "obj") row (λ e. inr (inr (inl e)))) λ o.
          bind-ErrOnly E _ _ (at_key-Lacks E (codes "conf") row (λ e. inr (inr (inr (inl e)))))
            λ conf. tt

receipts_of-ErrOnly : (rows : List Row) → ErrOnly (Any (Lacks receipt_keys) rows) (receipts_of rows)
unfolding receipts_of
receipts_of-ErrOnly [] = tt
receipts_of-ErrOnly (row ∷ rows) =
    let E = Any (Lacks receipt_keys) (row ∷ rows) in
    bind-ErrOnly E _ _ (ErrOnly-map _ E (receipt row) (receipt-ErrOnly row) inl) λ r.
      bind-ErrOnly E _ _ (ErrOnly-map _ E (receipts_of rows) (receipts_of-ErrOnly rows) inr)
        λ rs. tt

module _ {D : Type 0} (sc : Scores D) (rule : HubRule D) where
  hubs_of-ErrOnly :
      (cut : D) (rows : List Row) (before : List Bytes)
      → ErrOnly (Any (Lacks hub_keys) rows) (hubs_of sc rule cut rows before)
  unfolding hubs_of
  hubs_of-ErrOnly cut [] before = tt
  hubs_of-ErrOnly cut (row ∷ rows) before =
      let E = Any (Lacks hub_keys) (row ∷ rows) in
      let rest : (more : List Bytes) → ErrOnly E (hubs_of sc rule cut rows more) = λ more.
        ErrOnly-map (Any (Lacks hub_keys) rows) E (hubs_of sc rule cut rows more)
          (hubs_of-ErrOnly cut rows more) inr in
      bind-ErrOnly E _ _ (at_key-Lacks E (codes "n") row (λ e. inl (inl e))) λ n.
        elim (Bool-cases (sc.greater (sc.atof n) cut)) [
          | inr low ↦ rw low (rest before)
          | inl high ↦ rw high (
              bind-ErrOnly E _ _ (at_key-Lacks E (codes "ent") row (λ e. inl (inr (inl e))))
                λ ent. rest (insert_id ent before))
        ]

  module _ (lib : JsonLib D) (ask : Bytes → Option Bytes) where
    -- A row of one of the answers lacks a variable that is read.
    abbrev pub IsIncomplete : List Bytes → Type 0
    IsIncomplete ids =
        let rows = rows_for sc rule lib ask in
        Any (Lacks hub_keys) (rows hubs_query)
        ⊎ Any (Lacks mention_keys) (rows (mentions_query ids))
        ⊎ Any (Lacks receipt_keys) (rows (receipts_query ids))

    pub expand_around-ErrOnly :
        (total_chunks : ℕ) (taken ids : List Bytes)
        → ErrOnly (IsIncomplete ids) (expand_around sc rule lib ask total_chunks taken ids)
    unfolding expand_around
    expand_around-ErrOnly total_chunks taken ids =
        let rows = rows_for sc rule lib ask in
        let E = IsIncomplete ids in
        bind-ErrOnly E _ _
          (ErrOnly-map _ E _ (hubs_of-ErrOnly (hub_cut sc rule total_chunks) (rows hubs_query) [])
            (λ e. inl e))
          λ hubs.
            bind-ErrOnly E _ _
              (ErrOnly-map _ E _
                (co_mentions-ErrOnly hubs taken (rows (mentions_query ids))
                  (siblings taken (rows (siblings_query ids)) []))
                (λ e. inr (inl e)))
              λ expansion.
                bind-ErrOnly E _ _
                  (ErrOnly-map _ E _ (receipts_of-ErrOnly (rows (receipts_query ids)))
                    (λ e. inr (inr e)))
                  λ receipts. tt
