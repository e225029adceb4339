-- ===== src/Search/Cards.antt =====
-- src/search.cpp: the cards of chunks, from the rows of the graph server. The error of a result is an
-- exception that ends the run.
use chimera_ape.Base.{
  ◌+◌, not, Option, none, some, List, [], ◌∷◌, ltb, if◌then◌else◌, Bytes, codes, bytes_eq, is_empty,
  find, length, drop, Result, ok, err, ◌>>=◌, stream,
}
use chimera_ape.Search.{chunk_id_from_iri, values_block}
use chimera_ape.Search.Context.{Card}
use chimera_ape.Search.Rank.{Row, value_of, bytes_lt}
use chimera_ape.Search.Rows.{at_key}

abbrev blank : Card
blank = record { chunk_id = []; doc_id = []; path = []; summary = []; text = [] }

-- `iri.substr(iri.find(p) + p.size())`: without the prefix the sum wraps to 13, and `substr` throws
-- for a shorter text.
unfoldable pub doc_of_iri : Bytes → Result Bytes
unfolding find
doc_of_iri iri = elim (find (codes "chimera://doc/") iri) [
  | none ↦ if ltb (length iri) 13 then err (codes "substr") else ok (drop 13 iri)
  | some at ↦ ok (drop (at + 14) iri)
]

-- The fields of a row, on top of what the card has.
unfoldable pub card_of_row : Bytes → Row → Card → Result Card
unfolding at_key doc_of_iri value_of
card_of_row cid row before = (at_key (codes "doc") row >>= doc_of_iri) >>= λ doc.
    at_key (codes "path") row >>= λ path. at_key (codes "text") row >>= λ text. ok (record {
      chunk_id = cid;
      doc_id = doc;
      path = path;
      summary = elim (value_of (codes "summary") row) [ none ↦ before.summary | some s ↦ s ];
      text = text;
    })

unfoldable pub find_card : Bytes → List Card → Option Card
unfolding bytes_eq
find_card id [] = none
find_card id (c ∷ cs) = if bytes_eq c.chunk_id id then some c else find_card id cs

-- `out[cid] = …`, in the order of the identifiers.
unfoldable pub put_card : Card → List Card → List Card
unfolding bytes_eq bytes_lt
put_card c [] = c ∷ []
put_card c (d ∷ ds) =
    let later = put_card c ds in
    if bytes_eq c.chunk_id d.chunk_id
    then c ∷ ds
    else if bytes_lt c.chunk_id d.chunk_id
    then c ∷ d ∷ ds
    else d ∷ later

-- A chunk that has a card keeps it: the first path wins.
unfoldable pub put_row : Bytes → Row → Option Card → List Card → Result (List Card)
unfolding card_of_row put_card
put_row cid row none cards = card_of_row cid row blank >>= λ c. ok (put_card c cards)
put_row cid row (some old) cards =
    if not (is_empty old.chunk_id)
    then ok cards
    else card_of_row cid row old >>= λ c. ok (put_card c cards)

unfoldable pub put_rows : List Row → List Card → Result (List Card)
unfolding put_row find_card at_key chunk_id_from_iri
put_rows [] cards = ok cards
put_rows (row ∷ rows) cards = at_key (codes "chunk") row >>= λ iri.
    put_row (chunk_id_from_iri iri) row (find_card (chunk_id_from_iri iri) cards) cards
    >>= put_rows rows

-- The card of a candidate, or its identifier alone.
unfoldable pub card_for : List Card → Bytes → Card
unfolding find_card
card_for cards id = elim (find_card id cards) [
  | none ↦ record blank { chunk_id = id }
  | some k ↦ record k { chunk_id = id }
]

abbrev pub prefix : Bytes
prefix = codes "PREFIX ch: <chimera://ontology#> "

unfoldable pub cards_query : List Bytes → Bytes
unfolding values_block
cards_query ids = stream (
    prefix
    ∷ codes "SELECT ?chunk ?doc ?path ?text ?summary WHERE { "
    ∷ values_block ids
    ∷ codes
        " ?chunk ch:partOf ?doc ; ch:text ?text . ?doc ch:locatedAt ?path . OPTIONAL { ?chunk ch:summary ?summary } }"
    ∷ [])
