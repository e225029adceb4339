-- ===== src/Search/Report.antt =====
-- src/search.cpp: what a search prints on standard output.
use chimera_ape.Base.{
  ℕ, ◌+◌, Bool, Option, none, some, List, [], ◌∷◌, ◌++◌, map, ◌==◌, if◌then◌else◌, Bytes, codes,
  get_elem?, Result, ok, ◌>>=◌, stream,
}
use chimera_ape.Json.{Json, Items, nil, cons, end, field, string, number, arr, obj}
use chimera_ape.Util.Decimal.{decimal}
use chimera_ape.Util.Strtol.{ℤ, pos}
use chimera_ape.Search.Context.{Card, Source, show_int, mark_of}
use chimera_ape.Search.Rank.{Candidate}

-- What `%s` and `std::puts` print of a string: up to its first zero byte.
unfoldable pub c_str : Bytes → Bytes
c_str [] = []
c_str (c ∷ s) = let rest = c_str s in if c == 0 then [] else c ∷ rest

pub record Verdict : Type 0 where
  pub mark : Bytes
  pub path : Bytes
  pub ordinal : ℤ

-- `sources[i]`; the cited positions are those of sources.
abbrev no_source : Source
no_source = record { chunk_id = []; path = []; text = []; ordinal = pos 0; doc_id = [] }

abbrev pub source_at : List Source → ℕ → Source
source_at [] i = no_source
source_at (s ∷ ss) i = elim (get_elem? (s ∷ ss) i) [ none ↦ no_source | some t ↦ t ]

-- The verdicts of the cited sources, in their order.
unfoldable pub verdicts_of :
    (Bytes → Bool) → (Bytes → Option Bytes) → Bytes → List Source → List ℕ → List Verdict
unfolding mark_of
verdicts_of exists tap corpus_root sources [] = []
verdicts_of exists tap corpus_root sources (i ∷ is) =
    let s = source_at sources i in
    record { mark = mark_of exists tap corpus_root s; path = s.path; ordinal = s.ordinal }
    ∷ verdicts_of exists tap corpus_root sources is

-- The mark of source `i`: the loop over the cited positions keeps the last one that is `i`.
unfoldable pub mark_at : ℕ → List ℕ → List Verdict → Bytes → Bytes
mark_at i (ci ∷ cited) (v ∷ verdicts) mark =
    mark_at i cited verdicts (if ci == i then v.mark else mark)
mark_at i cited verdicts mark = mark

unfoldable pub source_lines : ℕ → List Source → List ℕ → List Verdict → Bytes
unfolding mark_at show_int decimal c_str
source_lines i [] cited verdicts = []
source_lines i (s ∷ ss) cited verdicts =
    stream (
      codes "  ["
      ∷ decimal (i + 1)
      ∷ codes "] "
      ∷ c_str s.path
      ∷ codes "#"
      ∷ show_int s.ordinal
      ∷ codes "  "
      ∷ c_str (mark_at i cited verdicts (codes "(uncited)"))
      ∷ codes "\n"
      ∷ [])
    ++ source_lines (i + 1) ss cited verdicts

unfoldable pub plain_report : Bytes → List Source → List ℕ → List Verdict → Bytes
unfolding source_lines c_str
plain_report answer sources cited verdicts = stream (
    codes "\n" ∷ c_str answer ∷ codes "\n\nSources:\n" ∷ source_lines 0 sources cited verdicts ∷ [])

-- `{"answer":null,"reason":"no candidates"}`, or a sentence.
abbrev pub no_match : Bool → Bytes
no_match json =
    if json
    then codes "{\"answer\":null,\"reason\":\"no candidates\"}\n"
    else codes "No matching content found.\n"

module _ {D : Type 0} (of_int : ℤ → D) where
  abbrev array : List (Json D) → Json D
  array vs = arr (go vs)
    where
      go : List (Json D) → Items D
      go [] = nil
      go (v ∷ vs) = cons v (go vs)

  abbrev candidate_json : Candidate D × Card → Json D
  candidate_json (c, card) = obj (
      field (codes "chunk") (string c.chunk_id) (
        field (codes "cosine") (number c.cosine)
          (field (codes "fused") (number c.fused) (field (codes "path") (string card.path) end))))

  unfoldable pub candidates_json : List (Candidate D) → List Card → List (Json D)
  candidates_json (c ∷ cs) (d ∷ ds) = candidate_json (c, d) ∷ candidates_json cs ds
  candidates_json cs ds = []

  unfoldable pub sources_json : ℕ → List Source → List (Json D)
  sources_json i [] = []
  sources_json i (s ∷ ss) =
      obj (
        field (codes "chunk") (string s.chunk_id) (
          field (codes "n") (number (of_int (pos (i + 1)))) (
            field (codes "ordinal") (number (of_int s.ordinal))
              (field (codes "path") (string s.path) end))))
      ∷ sources_json (i + 1) ss

  unfoldable pub verification_json : List ℕ → List Verdict → List (Json D)
  verification_json (i ∷ is) (v ∷ vs) =
      obj (
        field (codes "n") (number (of_int (pos (i + 1))))
          (field (codes "path") (string v.path) (field (codes "status") (string v.mark) end)))
      ∷ verification_json is vs
  verification_json is vs = []

  -- The value that `--json` prints. The keys of an object are in the library's order.
  unfoldable pub json_report :
      Bytes
      → Bytes
      → List (Candidate D)
      → List Card
      → List Source
      → List ℕ
      → List Verdict
      → List Bytes
      → Json D
  unfolding candidates_json sources_json verification_json
  json_report query answer top cards sources cited verdicts receipts = obj (
      field (codes "answer") (string answer) (
        field (codes "candidates") (array (candidates_json top cards)) (
          field (codes "query") (string query) (
            field (codes "relations") (relations receipts) (
              field (codes "sources") (array (sources_json 0 sources))
                (field (codes "verification") (array (verification_json cited verdicts)) end))))))
    where
      relations : List Bytes → Json D
      relations rs = array (map string rs)

  -- The printed text: `out.dump(2)` throws on a text that is no UTF-8.
  unfoldable pub report :
      (Json D → Result Bytes)
      → Bool
      → Bytes
      → Bytes
      → List (Candidate D)
      → List Card
      → List Source
      → List ℕ
      → List Verdict
      → List Bytes
      → Result Bytes
  unfolding json_report plain_report c_str
  report dump json query answer top cards sources cited verdicts receipts =
      if json
      then (dump (json_report query answer top cards sources cited verdicts receipts) >>= λ text.
          ok (c_str text ++ codes "\n"))
      else ok (plain_report answer sources cited verdicts)
