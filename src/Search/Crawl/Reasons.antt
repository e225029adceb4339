-- ===== src/Search/Crawl/Reasons.antt =====
-- src/search.cpp: why a chunk is in the expansion.
use chimera_ape.Base.{
  ℕ, ◌≡◌, ◌≢◌, ◌⊎◌, inl, inr, sym, ◌∙◌, arith, false, Option, some, List, [], ◌∷◌, Bytes, codes,
  bytes_eq, bytes_eq_iff, All, Any, Bool-cases, AllOk, bind-AllOk, then-AllOk, AllOk-map, All-map,
  ErrOnly,
}
use chimera_ape.Walk.Names.{is_one_of}
use chimera_ape.Search.Rank.{Row, Scores, value_of}
use chimera_ape.Json.{JsonLib}
use chimera_ape.Search.Crawl.{
  insert_id, siblings, hubs_of, hub_cut, HubRule, rows_for, siblings_query, hubs_query,
  mentions_query, receipts_query, receipts_of, expand_around,
}
use chimera_ape.Search.Crawl.Errors.{IsIncomplete, expand_around-ErrOnly}
use chimera_ape.Search.Crawl.Expansion.{
  Ascending, is_one_of-insert_id, at_key-value, Any-each, IsSibling, IsCoMention, IsNew, Collected,
  siblings-Collected, co_mentions-Collected,
}

module _ {D : Type 0} (sc : Scores D) where
  -- The row does not make the entity a hub.
  abbrev pub IsBelow : D → Bytes → Row → Type 0
  IsBelow cut e row =
      (value_of (codes "ent") row ≢ some e)
      ⊎ ((n : Bytes) × (value_of (codes "n") row ≡ some n) × (sc.greater (sc.atof n) cut ≡ false))

  -- An entity that is not among the hubs is below the cut in every row.
  abbrev Complete : D → List Row → List Bytes → List Bytes → Type 0
  Complete cut rows before hubs =
      (e : Bytes)
      → is_one_of e hubs ≡ false
      → (is_one_of e before ≡ false) × All (IsBelow cut e) rows

  low-Complete :
      (cut : D) (row : Row) (rows : List Row) (before hubs : List Bytes) (n : Bytes)
      → value_of (codes "n") row ≡ some n
      → sc.greater (sc.atof n) cut ≡ false
      → Complete cut rows before hubs
      → Complete cut (row ∷ rows) before hubs
  low-Complete cut row rows before hubs n at low c e out =
      let (fresh, rest) = c e out in (fresh, (inr (n, at, low), rest))

  high-Complete :
      (cut : D) (row : Row) (rows : List Row) (before hubs : List Bytes) (ent : Bytes)
      → value_of (codes "ent") row ≡ some ent
      → Complete cut rows (insert_id ent before) hubs
      → Complete cut (row ∷ rows) before hubs
  high-Complete cut row rows before hubs ent there c e out =
      let (fresh, rest) = c e out in
      let (other, before_free) = is_one_of-insert_id e ent before fresh in
      (before_free, (inl (λ same. differ e ent other (sym same ∙ there)), rest))
    where
      differ : (a b : Bytes) → bytes_eq a b ≡ false → some a ≡ some b → ⊥
      differ a b other same = ground (arith, bytes_eq_iff a b)

  hubs_of-Complete :
      (cut : D) (rule : HubRule D) (rows : List Row) (before : List Bytes)
      → AllOk (Complete cut rows before) (hubs_of sc rule cut rows before)
  unfolding hubs_of
  hubs_of-Complete cut rule [] before = λ e out. (out, tt)
  hubs_of-Complete cut rule (row ∷ rows) before =
      bind-AllOk _ _ _ _ (at_key-value (codes "n") row) λ n at.
        elim (Bool-cases (sc.greater (sc.atof n) cut)) [
          | inr low ↦ rw low (
              AllOk-map (Complete cut rows before) (Complete cut (row ∷ rows) before)
                (hubs_of sc rule cut rows before) (hubs_of-Complete cut rule rows before)
                λ hubs. low-Complete cut row rows before hubs n at low)
          | inl high ↦ rw high (
              bind-AllOk _ _ _ _ (at_key-value (codes "ent") row) λ ent there.
                AllOk-map (Complete cut rows (insert_id ent before))
                  (Complete cut (row ∷ rows) before)
                  (hubs_of sc rule cut rows (insert_id ent before))
                  (hubs_of-Complete cut rule rows (insert_id ent before))
                  λ hubs. high-Complete cut row rows before hubs ent there)
        ]

  module _ (rule : HubRule D) (lib : JsonLib D) (ask : Bytes → Option Bytes) where
    -- A sibling of a kept candidate, or a chunk that shares with one an entity below the cut.
    abbrev pub HasReason : ℕ → List Bytes → Bytes → Type 0
    HasReason total_chunks ids cid =
        let rows = rows_for sc rule lib ask in
        let cut = hub_cut sc rule total_chunks in
        Any (IsSibling cid) (rows (siblings_query ids))
        ⊎ Any (IsCoMention (λ e. All (IsBelow cut e) (rows hubs_query)) cid)
            (rows (mentions_query ids))

    expand_around-HasReason :
        (total_chunks : ℕ) (taken ids : List Bytes)
        → AllOk
            (λ found.
              Ascending found.0
              × All (λ cid. IsNew taken cid × HasReason total_chunks ids cid) found.0)
            (expand_around sc rule lib ask total_chunks taken ids)
    unfolding expand_around
    expand_around-HasReason total_chunks taken ids =
        let rows = rows_for sc rule lib ask in
        let cut = hub_cut sc rule total_chunks in
        let Q = HasReason total_chunks ids in
        let near : Collected taken Q (siblings taken (rows (siblings_query ids)) []) =
          siblings-Collected taken Q (rows (siblings_query ids)) []
            (All-map
              {P = λ row.
                (cid : Bytes) → IsSibling cid row → Any (IsSibling cid) (rows (siblings_query ids))}
              (rows (siblings_query ids)) (Any-each IsSibling (rows (siblings_query ids)))
              (λ row f cid s. inl (f cid s)))
            (tt, tt) in
        bind-AllOk (Complete cut (rows hubs_query) []) _ _ _
          (hubs_of-Complete cut rule (rows hubs_query) [])
          λ hubs c.
            bind-AllOk (Collected taken Q) _ _ _
              (co_mentions-Collected taken Q hubs (rows (mentions_query ids)) _
                (All-map
                  {P = λ row.
                    (cid : Bytes)
                    → IsCoMention (λ e. All (IsBelow cut e) (rows hubs_query)) cid row
                    → Any (IsCoMention (λ e. All (IsBelow cut e) (rows hubs_query)) cid)
                        (rows (mentions_query ids))}
                  (rows (mentions_query ids))
                  (Any-each (IsCoMention (λ e. All (IsBelow cut e) (rows hubs_query)))
                    (rows (mentions_query ids)))
                  (λ row f cid (e, at, out, names). inr (f cid (e, at, (c e out).1, names))))
                near)
              λ expansion (h, up).
                then-AllOk _ (receipts_of (rows (receipts_query ids))) _ λ receipts. (up, h)

    -- The chunks that are added to the candidates come in the order of their identifiers, each once;
    -- none is empty or a candidate, and each is a sibling of a kept one, or shares with it an entity
    -- that no row of the counts puts above the cut. An exception ends the expansion instead only if a
    -- row of an answer lacks a variable that is read.
    pub expand_around-IsExplained :
        (total_chunks : ℕ) (taken ids : List Bytes)
        → AllOk
            (λ found.
              Ascending found.0
              × All (λ cid. IsNew taken cid × HasReason total_chunks ids cid) found.0)
            (expand_around sc rule lib ask total_chunks taken ids)
          × ErrOnly
              (IsIncomplete sc rule lib ask ids)
              (expand_around sc rule lib ask total_chunks taken ids)
    expand_around-IsExplained total_chunks taken ids = (
      expand_around-HasReason total_chunks taken ids,
      expand_around-ErrOnly sc rule lib ask total_chunks taken ids,
    )
