-- ===== src/Search/Crawl.antt =====
-- src/search.cpp: the crawl, which fetches the texts of the candidates and what the graph has next to
-- them. The error of a result is an exception that ends the run.
pub mod Expansion
pub mod Errors
pub mod Reasons
use mathlib.Core.Option
use chimera_ape.Base.{
  ℕ, ◌+◌, Bool, true, false, not, ◌&&◌, ◌||◌, Option, none, some, List, [], ◌∷◌, ◌++◌, map, ltb,
  if◌then◌else◌, Bytes, codes, utf8, bytes_eq, is_empty, find, length, drop, Result, ok, err, ◌>>=◌,
  stream,
}
use chimera_ape.Json.{JsonLib}
use chimera_ape.Util.Strtol.{ℤ, pos, negsuc}
use chimera_ape.Walk.Names.{last_index_of, is_one_of}
use chimera_ape.Search.{chunk_id_from_iri, values_block}
use chimera_ape.Search.Context.{Card}
use chimera_ape.Search.Rank.{Scores, Candidate, Row, value_of, bytes_lt}
use chimera_ape.Search.Rows.{rows_of, at_key}
use chimera_ape.Search.Cards.{prefix, put_rows, card_for, cards_query}

unfoldable pub siblings_query : List Bytes → Bytes
unfolding values_block
siblings_query ids = stream (
    prefix
    ∷ codes "SELECT ?chunk ?next ?prev WHERE { "
    ∷ values_block ids
    ∷ codes " OPTIONAL { ?chunk ch:nextChunk ?next } OPTIONAL { ?prev ch:nextChunk ?chunk } }"
    ∷ [])

abbrev pub hubs_query : Bytes
hubs_query =
    prefix ++ codes "SELECT ?ent (COUNT(?c) AS ?n) WHERE { ?c ch:mentions ?ent } GROUP BY ?ent"

unfoldable pub mentions_query : List Bytes → Bytes
unfolding values_block
mentions_query ids = stream (
    prefix
    ∷ codes "SELECT ?ent ?other WHERE { "
    ∷ values_block ids
    ∷ codes
        " ?chunk ch:mentions ?ent . ?other ch:mentions ?ent . FILTER(?other != ?chunk) } LIMIT 200"
    ∷ [])

unfoldable pub receipts_query : List Bytes → Bytes
unfolding values_block
receipts_query ids = stream (
    prefix
    ∷ codes "SELECT ?s ?p ?obj ?conf WHERE { "
    ∷ values_block ids
    ∷ codes
        " ?r a ch:Relation ; ch:evidencedBy ?chunk ; ch:subject ?s ; ch:predicate ?p ; ch:object ?obj ; ch:confidence ?conf }"
    ∷ [])

-- `set::insert`, in the order of the identifiers.
unfoldable pub insert_id : Bytes → List Bytes → List Bytes
unfolding bytes_eq bytes_lt
insert_id id [] = id ∷ []
insert_id id (j ∷ js) =
    let later = insert_id id js in
    if bytes_eq id j then j ∷ js else if bytes_lt id j then id ∷ j ∷ js else j ∷ later

-- A chunk that is none of the candidates. `taken` has the identifiers of `cands`.
unfoldable pub expand : List Bytes → Bytes → List Bytes → List Bytes
unfolding is_one_of insert_id chunk_id_from_iri
expand taken iri expansion =
    let cid = chunk_id_from_iri iri in
    if not (is_empty cid) && not (is_one_of cid taken) then insert_id cid expansion else expansion

abbrev pub expand_option : List Bytes → Option Bytes → List Bytes → List Bytes
expand_option taken none expansion = expansion
expand_option taken (some iri) expansion = expand taken iri expansion

-- The chunks before and after.
unfoldable pub siblings : List Bytes → List Row → List Bytes → List Bytes
unfolding expand value_of
siblings taken [] expansion = expansion
siblings taken (row ∷ rows) expansion = siblings taken rows (
    expand_option taken (value_of (codes "prev") row)
      (expand_option taken (value_of (codes "next") row) expansion))

-- Chunks that mention an entity of a candidate, unless it is a hub.
unfoldable pub co_mentions : List Bytes → List Bytes → List Row → List Bytes → Result (List Bytes)
unfolding expand at_key is_one_of
co_mentions hubs taken [] expansion = ok expansion
co_mentions hubs taken (row ∷ rows) expansion = at_key (codes "ent") row >>= λ ent.
    elim (is_one_of ent hubs) [
      | true ↦ co_mentions hubs taken rows expansion
      | false ↦ at_key (codes "other") row >>= λ other.
          co_mentions hubs taken rows (expand taken other expansion)
    ]

-- What follows the last slash.
unfoldable pub tail : Bytes → Bytes
unfolding last_index_of
tail iri = elim (last_index_of b'/' iri) [ none ↦ iri | some sl ↦ drop (sl + 1) iri ]

unfoldable pub receipt : Row → Result Bytes
unfolding at_key tail
receipt row = at_key (codes "s") row >>= λ s. at_key (codes "p") row >>= λ p.
    at_key (codes "obj") row >>= λ o. at_key (codes "conf") row >>= λ conf. ok (
      stream (
        tail s ∷ utf8 " —" ∷ tail p ∷ utf8 "→ " ∷ tail o ∷ codes " (conf " ∷ conf ∷ codes ")" ∷ []))

unfoldable pub receipts_of : List Row → Result (List Bytes)
unfolding receipt
receipts_of [] = ok []
receipts_of (row ∷ rows) = receipt row >>= λ r. receipts_of rows >>= λ rs. ok (r ∷ rs)

-- The numbers of the stop-entity rule: `2.0`, and `0.05` times the number of chunks.
pub record HubRule (D : Type 0) : Type 0 where
  pub two : D
  pub twentieth : ℕ → D

module _ {D : Type 0} (sc : Scores D) (rule : HubRule D) where
  -- `std::max(2.0, 0.05 * total_chunks)`
  unfoldable pub hub_cut : ℕ → D
  hub_cut total_chunks =
      let share = rule.twentieth total_chunks in
      if sc.greater share rule.two then share else rule.two

  unfoldable pub hubs_of : D → List Row → List Bytes → Result (List Bytes)
  unfolding at_key insert_id
  hubs_of cut [] hubs = ok hubs
  hubs_of cut (row ∷ rows) hubs = at_key (codes "n") row >>= λ n.
      elim (sc.greater (sc.atof n) cut) [
        | true ↦ at_key (codes "ent") row >>= λ ent. hubs_of cut rows (insert_id ent hubs)
        | false ↦ hubs_of cut rows hubs
      ]

-- What the crawl finds.
pub record Crawled : Type 0 where
  pub top : List Card
  pub expansion : List Card
  pub receipts : List Bytes

abbrev pub is_positive : ℤ → Bool
is_positive (pos n) = ltb 0 n
is_positive (negsuc n) = false

-- `ask` is the query of the graph server.
module _ {D : Type 0} (sc : Scores D) (rule : HubRule D) (lib : JsonLib D)
    (ask : Bytes → Option Bytes) where
  -- The rows of an answer; none without one.
  unfoldable pub rows_for : Bytes → List Row
  unfolding rows_of
  rows_for sparql = elim (ask sparql) [ none ↦ [] | some body ↦ rows_of lib body ]

  unfoldable pub fetch_cards : List Bytes → Result (List Card)
  unfolding rows_for put_rows cards_query
  fetch_cards [] = ok []
  fetch_cards (id ∷ ids) = put_rows (rows_for (cards_query (id ∷ ids))) []

  -- The expansion and the receipts. `taken` has the identifiers of all candidates, `ids` those of the
  -- ones that are kept.
  unfoldable pub expand_around : ℕ → List Bytes → List Bytes → Result (List Bytes × List Bytes)
  unfolding rows_for siblings hubs_of hub_cut co_mentions receipts_of siblings_query mentions_query
      receipts_query
  expand_around total_chunks taken ids =
      let near = siblings taken (rows_for (siblings_query ids)) [] in
      hubs_of sc rule (hub_cut sc rule total_chunks) (rows_for hubs_query) [] >>= λ hubs.
      co_mentions hubs taken (rows_for (mentions_query ids)) near >>= λ expansion.
      receipts_of (rows_for (receipts_query ids)) >>= λ receipts. ok (expansion, receipts)

  unfoldable pub expansion_for : ℤ → ℕ → List Bytes → List Bytes → Result (List Bytes × List Bytes)
  unfolding expand_around
  expansion_for hops total_chunks taken ids =
      if is_positive hops then expand_around total_chunks taken ids else ok ([], [])

  unfoldable pub crawl : ℤ → ℕ → List Bytes → List Bytes → Result Crawled
  unfolding fetch_cards expansion_for card_for
  crawl hops total_chunks taken ids = fetch_cards ids >>= λ cards.
      expansion_for hops total_chunks taken ids >>= λ found. fetch_cards found.0 >>= λ more.
      ok (record { top = map (card_for cards) ids; expansion = more; receipts = found.1 })
