-- ===== src/Search/Crawl/Expansion.antt =====
-- src/search.cpp: which chunks the crawl adds to the candidates.
use chimera_ape.Base.{
  ◌≡◌, ◌⊎◌, inl, inr, refl, arith, true, false, not, ◌&&◌, some, List, [], ◌∷◌, Bytes, codes,
  bytes_eq, bytes_eq_iff, is_empty, All, Any, Bool-cases, Option-cases, if-cases, AllOk, bind-AllOk,
}
use chimera_ape.Walk.Names.{is_one_of}
use chimera_ape.Search.{chunk_id_from_iri}
use chimera_ape.Search.Rank.{Row, value_of, bytes_lt}
use chimera_ape.Search.Rank.Order.{bytes_lt_trans, bytes_lt_total}
use chimera_ape.Search.Rows.{at_key}
use chimera_ape.Search.Crawl.{insert_id, expand, expand_option, siblings, co_mentions}

-- In the order of the identifiers, each once.
abbrev pub Ascending : List Bytes → Type 0
Ascending [] = Unit
Ascending (id ∷ ids) = All (λ j. bytes_lt id j ≡ true) ids × Ascending ids

insert_id-All :
    (P : Bytes → Type 0) (id : Bytes) (ids : List Bytes)
    → P id
    → All P ids
    → All P (insert_id id ids)
unfolding insert_id
insert_id-All P id [] p h = (p, tt)
insert_id-All P id (j ∷ js) p h =
    if-cases (All P) (bytes_eq id j) _ _ (λ _. h)
      (λ _.
        if-cases (All P) (bytes_lt id j) _ _ (λ _. (p, h))
          (λ _. (h.0, insert_id-All P id js p h.1)))

below-All :
    (a b : Bytes) (ids : List Bytes)
    → bytes_lt a b ≡ true
    → All (λ j. bytes_lt b j ≡ true) ids
    → All (λ j. bytes_lt a j ≡ true) ids
below-All a b [] lt h = tt
below-All a b (j ∷ js) lt h = (bytes_lt_trans a b j lt h.0, below-All a b js lt h.1)

pub insert_id-Ascending :
    (id : Bytes) (ids : List Bytes) → Ascending ids → Ascending (insert_id id ids)
unfolding insert_id
insert_id-Ascending id [] h = (tt, tt)
insert_id-Ascending id (j ∷ js) h =
    if-cases Ascending (bytes_eq id j) _ _ (λ _. h)
      (λ other.
        if-cases Ascending (bytes_lt id j) _ _
          (λ before. ((before, below-All id j js before h.0), h))
          (λ after. (
            insert_id-All (λ k. bytes_lt j k ≡ true) id js (bytes_lt_total id j other after) h.0,
            insert_id-Ascending id js h.1,
          )))

pub is_one_of-insert_id :
    (e id : Bytes) (ids : List Bytes)
    → is_one_of e (insert_id id ids) ≡ false
    → (bytes_eq e id ≡ false) × (is_one_of e ids ≡ false)
unfolding insert_id is_one_of
is_one_of-insert_id e id [] h = ground arith
is_one_of-insert_id e id (j ∷ js) h = ground (arith, bytes_eq_iff id j, is_one_of-insert_id e id js)

pub at_key-value : (k : Bytes) (row : Row) → AllOk (λ v. value_of k row ≡ some v) (at_key k row)
unfolding at_key
at_key-value k row = elim (Option-cases (value_of k row)) [
  | inl e ↦ rw (e, AllOk) tt
  | inr (v, e) ↦ rw (e, AllOk) e
]

-- What holds of each row's find holds of the finds of some row.
pub Any-each :
    (P : Bytes → Row → Type 0) (rows : List Row)
    → All (λ row. (x : Bytes) → P x row → Any (P x) rows) rows
Any-each P [] = tt
Any-each P (row ∷ rows) = (λ x p. inl p, later rows (Any-each P rows))
  where
    later :
        (some_rows : List Row)
        → All (λ r. (x : Bytes) → P x r → Any (P x) rows) some_rows
        → All (λ r. (x : Bytes) → P x r → P x row ⊎ Any (P x) rows) some_rows
    later [] h = tt
    later (r ∷ rs) h = (λ x p. inr (h.0 x p), later rs h.1)

-- The row's variable `k` is an identifier's IRI.
abbrev pub Names : Bytes → Bytes → Row → Type 0
Names k cid row = (iri : Bytes) × (value_of k row ≡ some iri) × (chunk_id_from_iri iri ≡ cid)

abbrev pub IsSibling : Bytes → Row → Type 0
IsSibling cid row = Names (codes "next") cid row ⊎ Names (codes "prev") cid row

-- An entity that is no hub is mentioned by the chunk too.
abbrev pub IsCoMention : (Bytes → Type 0) → Bytes → Row → Type 0
IsCoMention Small cid row =
    (ent : Bytes) × (value_of (codes "ent") row ≡ some ent)
    × Small ent
    × Names (codes "other") cid row

abbrev pub IsNew : List Bytes → Bytes → Type 0
IsNew taken cid = (is_empty cid ≡ false) × (is_one_of cid taken ≡ false)

module _ (taken : List Bytes) (Q : Bytes → Type 0) where
  abbrev pub Collected : List Bytes → Type 0
  Collected ids = All (λ cid. IsNew taken cid × Q cid) ids × Ascending ids

  expand-Collected :
      (iri : Bytes) (ids : List Bytes)
      → Q (chunk_id_from_iri iri)
      → Collected ids
      → Collected (expand taken iri ids)
  unfolding expand
  expand-Collected iri ids q (h, up) =
      let cid = chunk_id_from_iri iri in
      if-cases Collected (not (is_empty cid) && not (is_one_of cid taken)) _ _
        (λ new. (
          insert_id-All (λ k. IsNew taken k × Q k) cid ids ((ground arith, ground arith), q) h,
          insert_id-Ascending cid ids up,
        ))
        (λ _. (h, up))

  expand_option-Collected :
      (k : Bytes) (row : Row) (ids : List Bytes)
      → ((cid : Bytes) → Names k cid row → Q cid)
      → Collected ids
      → Collected (expand_option taken (value_of k row) ids)
  expand_option-Collected k row ids q h = elim (Option-cases (value_of k row)) [
    | inl e ↦ rw e h
    | inr (iri, e) ↦ rw e (expand-Collected iri ids (q (chunk_id_from_iri iri) (iri, e, refl)) h)
  ]

  pub siblings-Collected :
      (rows : List Row) (ids : List Bytes)
      → All (λ row. (cid : Bytes) → IsSibling cid row → Q cid) rows
      → Collected ids
      → Collected (siblings taken rows ids)
  unfolding siblings
  siblings-Collected [] ids q h = h
  siblings-Collected (row ∷ rows) ids q h = siblings-Collected rows _ q.1 (
      expand_option-Collected (codes "prev") row _ (λ cid n. q.0 cid (inr n))
        (expand_option-Collected (codes "next") row ids (λ cid n. q.0 cid (inl n)) h))

  pub co_mentions-Collected :
      (hubs : List Bytes) (rows : List Row) (ids : List Bytes)
      → All
          (λ row. (cid : Bytes) → IsCoMention (λ e. is_one_of e hubs ≡ false) cid row → Q cid)
          rows
      → Collected ids
      → AllOk Collected (co_mentions hubs taken rows ids)
  unfolding co_mentions
  co_mentions-Collected hubs [] ids q h = h
  co_mentions-Collected hubs (row ∷ rows) ids q h =
      bind-AllOk _ Collected _ _ (at_key-value (codes "ent") row) λ ent at.
        elim (Bool-cases (is_one_of ent hubs)) [
          | inl hub ↦ rw hub (co_mentions-Collected hubs rows ids q.1 h)
          | inr small ↦ rw small (
              bind-AllOk _ Collected _ _ (at_key-value (codes "other") row) λ other there.
                co_mentions-Collected hubs rows _ q.1 (
                  expand-Collected other ids
                    (q.0 (chunk_id_from_iri other) (ent, at, small, (other, there, refl))) h))
        ]
