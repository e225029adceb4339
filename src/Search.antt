-- ===== src/Search.antt =====
-- src/search.cpp: the texts and terms that a search sends to the graph store.
pub mod Terms
pub mod Context
pub mod Rank
pub mod Verify
pub mod Vacuum
pub mod Rows
pub mod Cards
pub mod Crawl
pub mod Report
pub mod Retrieve
pub mod Run
use mathlib.Core.Option
use chimera_ape.Base.{
  ℕ, ◌+◌, Bool, true, false, not, ◌&&◌, Option, none, some, List, [], ◌∷◌, ◌++◌, ltb, leb,
  if◌then◌else◌, Bytes, codes, bytes_eq, find, length, take, drop, isalnum, tolower,
}
use chimera_ape.Walk.Names.{is_one_of}

abbrev pub chunk_prefix : Bytes
chunk_prefix = codes "chimera://chunk/"

unfoldable pub chunk_id_from_iri : Bytes → Bytes
unfolding find
chunk_id_from_iri iri = elim (find chunk_prefix iri) [
  | none ↦ []
  | some at ↦ drop (at + length chunk_prefix) iri
]

unfoldable pub value_items : List Bytes → Bytes
value_items [] = []
value_items (c ∷ cs) = codes "<chimera://chunk/" ++ c ++ codes "> " ++ value_items cs

unfoldable pub values_block : List Bytes → Bytes
unfolding value_items
values_block chunk_ids = codes "VALUES ?chunk { " ++ value_items chunk_ids ++ codes "}"

-- `kStop`
abbrev pub stop_words : List Bytes
stop_words =
    codes "the"
    ∷ codes "and"
    ∷ codes "for"
    ∷ codes "are"
    ∷ codes "but"
    ∷ codes "not"
    ∷ codes "with"
    ∷ codes "this"
    ∷ codes "that"
    ∷ codes "from"
    ∷ codes "have"
    ∷ codes "has"
    ∷ codes "was"
    ∷ codes "were"
    ∷ codes "will"
    ∷ codes "would"
    ∷ codes "could"
    ∷ codes "should"
    ∷ codes "what"
    ∷ codes "when"
    ∷ codes "where"
    ∷ codes "which"
    ∷ codes "who"
    ∷ codes "how"
    ∷ codes "why"
    ∷ codes "does"
    ∷ codes "did"
    ∷ codes "their"
    ∷ codes "there"
    ∷ codes "about"
    ∷ codes "into"
    ∷ codes "than"
    ∷ codes "then"
    ∷ codes "them"
    ∷ codes "they"
    ∷ codes "its"
    ∷ codes "his"
    ∷ codes "her"
    ∷ codes "you"
    ∷ codes "your"
    ∷ codes "can"
    ∷ codes "all"
    ∷ codes "any"
    ∷ codes "one"
    ∷ codes "out"
    ∷ codes "use"
    ∷ codes "used"
    ∷ []

-- The word that is being read, and the terms so far.
pub record TermState : Type 0 where
  pub cur : Bytes
  pub terms : List Bytes

unfoldable pub is_term : Bytes → Bool
unfolding is_one_of bytes_eq
is_term cur = leb 3 (length cur) && not (is_one_of cur stop_words)

unfoldable pub flush : TermState → TermState
unfolding is_term
flush st =
    if is_term st.cur
    then record { cur = []; terms = st.terms ++ st.cur ∷ [] }
    else record st { cur = [] }

unfoldable pub term_byte : ℕ → TermState → TermState
unfolding flush isalnum tolower
term_byte c st = if isalnum c then record st { cur = st.cur ++ tolower c ∷ [] } else flush st

unfoldable pub term_bytes : Bytes → TermState → TermState
unfolding term_byte
term_bytes [] st = st
term_bytes (c ∷ q) st = term_bytes q (term_byte c st)

-- `std::sort` by size, the longest first. The code leaves the order of terms of one size open; here
-- they keep theirs.
unfoldable pub insert_term : Bytes → List Bytes → List Bytes
insert_term x [] = x ∷ []
insert_term x (y ∷ ys) =
    let later = insert_term x ys in if ltb (length x) (length y) then y ∷ later else x ∷ y ∷ ys

unfoldable pub sort_terms : List Bytes → List Bytes
unfolding insert_term
sort_terms [] = []
sort_terms (x ∷ xs) = insert_term x (sort_terms xs)

-- `std::unique`, after a term that is kept.
unfoldable pub unique_after : Bytes → List Bytes → List Bytes
unfolding bytes_eq
unique_after x [] = []
unique_after x (y ∷ ys) =
    let same = unique_after x ys in
    let other = unique_after y ys in if bytes_eq x y then same else y ∷ other

unfoldable pub unique : List Bytes → List Bytes
unfolding unique_after
unique [] = []
unique (x ∷ xs) = x ∷ unique_after x xs

unfoldable pub salient_terms : Bytes → ℕ → List Bytes
unfolding flush term_bytes sort_terms unique
salient_terms q max_terms =
    let st = flush (term_bytes q (record { cur = []; terms = [] })) in
    take max_terms (unique (sort_terms st.terms))
