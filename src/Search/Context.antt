-- ===== src/Search/Context.antt =====
-- src/search.cpp: the sources that fit the context, the prompt made of them, and the check of the
-- sources that an answer cites.
pub mod Budget
use mathlib.Core.Option
use chimera_ape.Base.{
  ℕ, zero, suc, ◌+◌, ◌-◌, ◌*◌, Bool, true, false, not, ◌&&◌, ◌||◌, Option, none, some, List, [],
  ◌∷◌, ◌++◌, ltb, leb, ◌==◌, if◌then◌else◌, Bytes, codes, utf8, bytes_eq, is_empty, index_of,
  length, drop, stream,
}
use chimera_ape.Util.Decimal.{decimal}
use chimera_ape.Util.Strtol.{ℤ, pos, negsuc, int_of_text}

-- What the later steps read of a `Candidate`.
pub record Card : Type 0 where
  pub chunk_id : Bytes
  pub doc_id : Bytes
  pub path : Bytes
  pub summary : Bytes
  pub text : Bytes

pub record Source : Type 0 where
  pub chunk_id : Bytes
  pub path : Bytes
  pub text : Bytes
  pub ordinal : ℤ
  pub doc_id : Bytes

-- `kBytesPerToken`
abbrev pub bytes_per_token : ℕ
bytes_per_token = 4

unfoldable pub ordinal_of : Bytes → ℤ
unfolding index_of int_of_text
ordinal_of chunk_id = elim (index_of b':' chunk_id) [
  | none ↦ pos 0
  | some colon ↦ int_of_text (drop (colon + 1) chunk_id)
]

unfoldable pub source_of : Card → Source
unfolding ordinal_of
source_of c = record {
  chunk_id = c.chunk_id;
  path = c.path;
  text = c.text;
  ordinal = ordinal_of c.chunk_id;
  doc_id = c.doc_id;
}

-- `budget_bytes` and `sources`
pub record ContextState : Type 0 where
  pub budget : ℤ
  pub sources : List Source

-- What is left after `n` bytes, if that is not negative.
unfoldable pub spend : ℕ → ℤ → Option ℤ
spend n (pos b) = if leb n b then some (pos (b - n)) else none
spend n (negsuc b) = none

unfoldable pub try_add : Card → ContextState → ContextState
unfolding spend source_of
try_add c st = elim (spend (length c.text) st.budget) [
  | none ↦ st
  | some left ↦ record { budget = left; sources = st.sources ++ source_of c ∷ [] }
]

unfoldable pub add_all : List Card → ContextState → ContextState
unfolding try_add
add_all [] st = st
add_all (c ∷ cs) st = add_all cs (try_add c st)

abbrev pub budget_of : ℤ → ℤ
budget_of (pos n) = pos (n * bytes_per_token)
budget_of (negsuc n) = negsuc ((n + 1) * bytes_per_token - 1)

-- The candidates in their order, then the expansion.
unfoldable pub choose_sources : ℤ → List Card → List Card → List Source
unfolding add_all
choose_sources ctx_budget top expansion =
    (add_all expansion
      (add_all top (record { budget = budget_of ctx_budget; sources = [] }))).sources

unfoldable pub show_int : ℤ → Bytes
unfolding decimal
show_int (pos n) = decimal n
show_int (negsuc n) = codes "-" ++ decimal (n + 1)

unfoldable pub show_sources : ℕ → List Source → Bytes
unfolding show_int
show_sources n [] = []
show_sources n (s ∷ ss) =
    stream (
      codes "["
      ∷ decimal n
      ∷ codes "] ("
      ∷ s.path
      ∷ codes "#"
      ∷ show_int s.ordinal
      ∷ codes ")\n"
      ∷ s.text
      ∷ codes "\n\n"
      ∷ [])
    ++ show_sources (n + 1) ss

unfoldable pub show_receipts : List Bytes → Bytes
show_receipts [] = []
show_receipts (r ∷ rs) = codes "- " ++ r ++ codes "\n" ++ show_receipts rs

-- The user's part of the synthesis request.
unfoldable pub context_text : Bytes → List Source → List Bytes → Bytes
unfolding show_sources show_receipts
context_text query_text sources receipts = stream (
    codes "QUESTION: "
    ∷ query_text
    ∷ codes "\n\nCONTEXT:\n"
    ∷ show_sources 1 sources
    ∷ (elim receipts [
      | [] ↦ []
      | r ∷ rs ↦ codes "KNOWN RELATIONS (from the knowledge graph):\n" ++ show_receipts (r ∷ rs)
    ])
    ∷ [])

abbrev is_number : ℕ → ℤ → Bool
is_number n (pos m) = n == m
is_number n (negsuc m) = false

-- The answer has a marker `[n`, with at least two bytes after the bracket.
unfoldable pub mentions : ℕ → Bytes → Bool
unfolding int_of_text
mentions n [] = false
mentions n (c ∷ s) = (ltb 1 (length s) && c == b'[' && is_number n (int_of_text s)) || mentions n s

-- `i0`, …, for `n` values, as far as `keep` says.
unfoldable pub kept_from : (ℕ → Bool) → ℕ → ℕ → List ℕ
kept_from keep i zero = []
kept_from keep i (suc n) =
    let later = kept_from keep (i + 1) n in if keep i then i ∷ later else later

-- `if (cited.empty())`
unfoldable pub or_all : ℕ → List ℕ → List ℕ
unfolding kept_from
or_all n [] = kept_from (λ i. true) 0 n
or_all n (i ∷ is) = i ∷ is

-- The positions of the cited sources in rising order; all if there is no marker.
unfoldable pub cited : Bytes → ℕ → List ℕ
unfolding mentions or_all
cited answer n = or_all n (kept_from (λ i. mentions (i + 1) answer) 0 n)

-- The mark of a source: `tap` is the identifier of the file's present contents.
unfoldable pub mark_of : (Bytes → Bool) → (Bytes → Option Bytes) → Bytes → Source → Bytes
unfolding bytes_eq
mark_of exists tap corpus_root s =
    let abs = corpus_root ++ codes "/" ++ s.path in
    let drifted = utf8 "⚠ drifted since ingest (re-ingest advised)" in
    if not (exists abs) then utf8 "⚠ missing" else elim (tap abs) [
      | none ↦ drifted
      | some id ↦ if bytes_eq id s.doc_id then utf8 "✓ verified" else drifted
    ]
