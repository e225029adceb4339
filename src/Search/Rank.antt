-- ===== src/Search/Rank.antt =====
-- src/search.cpp: the scores of the keyword query and the fusion of the three rankings. A score is a
-- double: its type and its operations are parameters. `std::sort` leaves the order of equal scores
-- open; here it is the one of an insertion sort.
pub mod Order
pub mod Candidates
use mathlib.Core.Option
use chimera_ape.Base.{
  ℕ, suc, ◌+◌, Bool, true, false, ◌&&◌, ◌||◌, Option, none, some, List, [], ◌∷◌, ◌++◌, map, ltb,
  ◌==◌, if◌then◌else◌, Bytes, codes, bytes_eq, is_empty, take,
}
use chimera_ape.Walk.Names.{last_index_of}
use chimera_ape.Search.{chunk_id_from_iri}

-- `rrf i` is `1 / (60 + i + 1)`.
pub record Scores (D : Type 0) : Type 0 where
  pub zero : D
  pub plus : D → D → D
  pub greater : D → D → Bool
  pub is_zero : D → Bool
  pub rrf : ℕ → D
  pub atof : Bytes → D

pub record Candidate (D : Type 0) : Type 0 where
  pub chunk_id : Bytes
  pub fused : D
  pub cosine : D

-- `a < b` on strings.
unfoldable pub bytes_lt : Bytes → Bytes → Bool
bytes_lt a [] = false
bytes_lt [] (y ∷ b) = true
bytes_lt (x ∷ a) (y ∷ b) = ltb x y || (x == y && bytes_lt a b)

abbrev pub Ranked : Type 0 → Type 0
Ranked D = List (Bytes × D)

-- A row of a result: the values of its variables.
abbrev pub Row : Type 0
Row = List (Bytes × Bytes)

unfoldable pub value_of : Bytes → Row → Option Bytes
unfolding bytes_eq
value_of k [] = none
value_of k ((j, v) ∷ row) = if bytes_eq j k then some v else value_of k row

module _ {D : Type 0} (sc : Scores D) where
  -- `kw_scores`: the best score of each chunk, by chunk.
  unfoldable pub keep_best : Bytes → D → Ranked D → Ranked D
  unfolding bytes_eq bytes_lt
  keep_best id s [] = (id, s) ∷ []
  keep_best id s ((j, t) ∷ rest) =
      if bytes_eq id j
      then (j, if sc.greater s t then s else t) ∷ rest
      else if bytes_lt id j
      then (id, s) ∷ (j, t) ∷ rest
      else (j, t) ∷ keep_best id s rest

  abbrev score_of_row : Row → D
  score_of_row row = elim (value_of (codes "ql_score_t_var_text") row) [
    | none ↦ sc.zero
    | some text ↦ sc.atof text
  ]

  abbrev chunk_of_row : Row → Bytes
  chunk_of_row row = elim (value_of (codes "chunk") row) [
    | none ↦ []
    | some iri ↦ chunk_id_from_iri iri
  ]

  unfoldable pub score_rows : List Row → Ranked D → Ranked D
  unfolding value_of keep_best chunk_id_from_iri
  score_rows [] best = best
  score_rows (row ∷ rows) best =
      let later = score_rows rows (keep_best (chunk_of_row row) (score_of_row row) best) in
      let skipped = score_rows rows best in if is_empty (chunk_of_row row) then skipped else later

  -- The rows of all terms whose query was answered.
  unfoldable pub score_terms : List (Option (List Row)) → Ranked D → Ranked D
  unfolding score_rows
  score_terms [] best = best
  score_terms (none ∷ terms) best = score_terms terms best
  score_terms (some rows ∷ terms) best = score_terms terms (score_rows rows best)

  unfoldable pub insert_score : Bytes × D → Ranked D → Ranked D
  insert_score x [] = x ∷ []
  insert_score x (y ∷ ys) = if sc.greater y.1 x.1 then y ∷ insert_score x ys else x ∷ y ∷ ys

  unfoldable pub sort_scores : Ranked D → Ranked D
  unfolding insert_score
  sort_scores [] = []
  sort_scores (x ∷ xs) = insert_score x (sort_scores xs)

  abbrev fresh : Bytes → Candidate D
  fresh id = record { chunk_id = id; fused = sc.zero; cosine = sc.zero }

  -- `cands[id]`, changed by `f`, in the order of the identifiers.
  unfoldable pub touch :
      Bytes → (Candidate D → Candidate D) → List (Candidate D) → List (Candidate D)
  unfolding bytes_eq bytes_lt
  touch id f [] = f (fresh id) ∷ []
  touch id f (c ∷ cs) =
      if bytes_eq id c.chunk_id
      then f c ∷ cs
      else if bytes_lt id c.chunk_id
      then f (fresh id) ∷ c ∷ cs
      else c ∷ touch id f cs

  abbrev pub with_vector : ℕ → D → Candidate D → Candidate D
  with_vector i score c = record c { fused = sc.plus c.fused (sc.rrf i); cosine = score }

  abbrev pub with_keyword : ℕ → Candidate D → Candidate D
  with_keyword i c = record c { fused = sc.plus c.fused (sc.rrf i) }

  abbrev pub with_media : ℕ → D → Candidate D → Candidate D
  with_media i score c = record c {
    fused = sc.plus c.fused (sc.rrf i);
    cosine = if sc.is_zero c.cosine then score else c.cosine;
  }

  unfoldable pub fuse_vectors : ℕ → Ranked D → List (Candidate D) → List (Candidate D)
  unfolding touch
  fuse_vectors i [] cands = cands
  fuse_vectors i ((id, score) ∷ more) cands =
      fuse_vectors (i + 1) more (touch id (with_vector i score) cands)

  unfoldable pub fuse_keywords : ℕ → Ranked D → List (Candidate D) → List (Candidate D)
  unfolding touch
  fuse_keywords i [] cands = cands
  fuse_keywords i ((id, score) ∷ more) cands =
      fuse_keywords (i + 1) more (touch id (with_keyword i) cands)

  -- A media hit stands for the first chunk of its document.
  unfoldable pub routed : Bytes → Bytes
  unfolding last_index_of
  routed cid = elim (last_index_of b':' cid) [
    | none ↦ cid
    | some colon ↦ take colon cid ++ codes ":0001"
  ]

  unfoldable pub fuse_media : ℕ → Ranked D → List (Candidate D) → List (Candidate D)
  unfolding touch routed
  fuse_media i [] cands = cands
  fuse_media i ((id, score) ∷ more) cands =
      fuse_media (i + 1) more (touch (routed id) (with_media i score) cands)

  unfoldable pub insert_candidate : Candidate D → List (Candidate D) → List (Candidate D)
  insert_candidate x [] = x ∷ []
  insert_candidate x (y ∷ ys) =
      if sc.greater y.fused x.fused then y ∷ insert_candidate x ys else x ∷ y ∷ ys

  unfoldable pub sort_candidates : List (Candidate D) → List (Candidate D)
  unfolding insert_candidate
  sort_candidates [] = []
  sort_candidates (x ∷ xs) = insert_candidate x (sort_candidates xs)

  unfoldable pub fuse : Ranked D → Ranked D → Ranked D → List (Candidate D)
  unfolding fuse_vectors fuse_keywords fuse_media
  fuse vec_ranked kw_ranked media_ranked =
      fuse_media 0 media_ranked (fuse_keywords 0 kw_ranked (fuse_vectors 0 vec_ranked []))

  -- `kTopN`
  abbrev pub top_n : ℕ
  top_n = 12

  unfoldable pub top_candidates : Ranked D → Ranked D → Ranked D → List (Candidate D)
  unfolding fuse sort_candidates
  top_candidates vec_ranked kw_ranked media_ranked =
      take top_n (sort_candidates (fuse vec_ranked kw_ranked media_ranked))
