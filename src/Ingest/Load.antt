-- ===== src/Ingest/Load.antt =====
-- src/ingest.cpp: stage 7, the Turtle text that goes to the graph store. The staged files are given
-- by their contents, in the order of the directory.
pub mod Handed
use chimera_ape.Base.{
  ℕ, suc, Bool, true, false, not, ◌&&◌, Option, none, some, List, [], ◌∷◌, ◌++◌, ltb, ◌==◌,
  if◌then◌else◌, Bytes, codes, starts_with, find, stream,
}
use chimera_ape.Ttl.Emit.{ttl_prologue}

abbrev pub first_more : ℕ → List Bytes → List Bytes
first_more c [] = (c ∷ []) ∷ []
first_more c (l ∷ ls) = (c ∷ l) ∷ ls

-- The lines that `std::getline` reads: the last one need not end in a newline.
unfoldable pub lines : Bytes → List Bytes
lines [] = []
lines (c ∷ s) = let rest = lines s in if c == b'\n' then [] ∷ rest else first_more c rest

-- `_bulk.ttl`
unfoldable pub bulk : List Bytes → Bytes
unfolding ttl_prologue
bulk staged = ttl_prologue ++ stream staged

abbrev is_some {ℓ} : {A : Type ℓ} → Option A → Bool
is_some none = false
is_some (some _) = true

unfoldable pub count_chunk_lines : List Bytes → ℕ
unfolding find
count_chunk_lines [] = 0
count_chunk_lines (l ∷ ls) =
    let rest = count_chunk_lines ls in
    if is_some (find (codes "a ch:Chunk ") l) then suc rest else rest

-- `n_chunks > 0 && ttl_chunks < n_chunks`
unfoldable pub is_truncated : ℕ → Bytes → Bool
unfolding count_chunk_lines lines
is_truncated n_chunks all =
    let ttl_chunks = count_chunk_lines (lines all) in ltb 0 n_chunks && ltb ttl_chunks n_chunks

-- `build` is `organs.build_qlever_index`.
unfoldable pub load_initial : (Bytes → Bool) → ℕ → List Bytes → Bool
unfolding is_truncated bulk
load_initial build n_chunks staged =
    if is_truncated n_chunks (bulk staged) then false else build (bulk staged)

unfoldable pub without_prefixes : List Bytes → Bytes
unfolding starts_with
without_prefixes [] = []
without_prefixes (l ∷ ls) =
    let rest = without_prefixes ls in
    if not (starts_with (codes "@prefix") l) then l ++ b'\n' ∷ rest else rest

unfoldable pub update_query : List Bytes → Bytes
unfolding without_prefixes lines
update_query staged = stream (
    codes
      "PREFIX ch: <chimera://ontology#> PREFIX xsd: <http://www.w3.org/2001/XMLSchema#> INSERT DATA {\n"
    ∷ without_prefixes (lines (stream staged))
    ∷ codes "}"
    ∷ [])
