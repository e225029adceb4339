-- ===== src/Search/Rank/Candidates.antt =====
-- src/search.cpp: the identifiers of the candidates.
use mathlib.Core.Path.{subst}
use chimera_ape.Base.{
  ℕ, zero, suc, ◌+◌, ◌≤◌, ◌≡◌, ◌≢◌, inl, inr, refl, sym, arith, true, false, List, [], ◌∷◌, Bytes,
  bytes_eq, take, length, length-take, All, Bool-cases, if-cases,
}
use chimera_ape.Search.Rank.{
  Scores, Candidate, bytes_lt, Ranked, touch, fresh, with_vector, with_keyword, with_media,
  fuse_vectors, fuse_keywords, fuse_media, routed, insert_candidate, sort_candidates, fuse,
  top_candidates,
}
use chimera_ape.Search.Rank.Order.{bytes_lt_irrefl, bytes_lt_trans, bytes_lt_total}

module _ {D : Type 0} (sc : Scores D) where
  -- In the order of the identifiers, each once.
  Ascending : List (Candidate D) → Type 0
  Ascending [] = Unit
  Ascending (c ∷ cs) = All (λ d. bytes_lt c.chunk_id d.chunk_id ≡ true) cs × Ascending cs

  Keeps : (Candidate D → Candidate D) → Type 0
  Keeps f = (c : Candidate D) → (f c).chunk_id ≡ c.chunk_id

  touch-All :
      (P : Bytes → Type 0) (id : Bytes) (f : Candidate D → Candidate D) (cs : List (Candidate D))
      → Keeps f
      → P id
      → All (λ d. P d.chunk_id) cs
      → All (λ d. P d.chunk_id) (touch sc id f cs)
  unfolding touch Keeps
  touch-All P id f [] keeps p h = (subst P (sym (keeps (fresh sc id))) p, tt)
  touch-All P id f (c ∷ cs) keeps p h =
      if-cases (All (λ d. P d.chunk_id)) (bytes_eq id c.chunk_id) _ _
        (λ _. (subst P (sym (keeps c)) h.0, h.1))
        (λ _.
          if-cases (All (λ d. P d.chunk_id)) (bytes_lt id c.chunk_id) _ _
            (λ _. (subst P (sym (keeps (fresh sc id))) p, h))
            (λ _. (h.0, touch-All P id f cs keeps p h.1)))

  below-All :
      (a b : Bytes) (cs : List (Candidate D))
      → bytes_lt a b ≡ true
      → All (λ d. bytes_lt b d.chunk_id ≡ true) cs
      → All (λ d. bytes_lt a d.chunk_id ≡ true) cs
  below-All a b [] lt h = tt
  below-All a b (c ∷ cs) lt h = (bytes_lt_trans a b c.chunk_id lt h.0, below-All a b cs lt h.1)

  touch-Ascending :
      (id : Bytes) (f : Candidate D → Candidate D) (cs : List (Candidate D))
      → Keeps f
      → Ascending cs
      → Ascending (touch sc id f cs)
  unfolding touch Ascending Keeps
  touch-Ascending id f [] keeps h = (tt, tt)
  touch-Ascending id f (c ∷ cs) keeps h = elim (Bool-cases (bytes_eq id c.chunk_id)) [
    | inl same ↦
        rw same (subst (λ i. All (λ d. bytes_lt i d.chunk_id ≡ true) cs) (sym (keeps c)) h.0, h.1)
    | inr other ↦ elim (Bool-cases (bytes_lt id c.chunk_id)) [
      | inl before ↦
          rw (other, before)
            (
              subst (λ i. All (λ d. bytes_lt i d.chunk_id ≡ true) (c ∷ cs))
                  (sym (keeps (fresh sc id))) (before, below-All id c.chunk_id cs before h.0),
              h,
            )
      | inr after ↦
          rw (other, after)
            (
              touch-All (λ i. bytes_lt c.chunk_id i ≡ true) id f cs keeps
                  (bytes_lt_total id c.chunk_id other after) h.0,
              touch-Ascending id f cs keeps h.1,
            )
    ]
  ]

  fuse_vectors-Ascending :
      (i : ℕ) (r : Ranked D) (cs : List (Candidate D))
      → Ascending cs
      → Ascending (fuse_vectors sc i r cs)
  unfolding fuse_vectors Keeps
  fuse_vectors-Ascending i [] cs h = h
  fuse_vectors-Ascending i ((id, score) ∷ more) cs h =
      fuse_vectors-Ascending (i + 1) more _
        (touch-Ascending id (with_vector sc i score) cs (λ c. refl) h)

  fuse_keywords-Ascending :
      (i : ℕ) (r : Ranked D) (cs : List (Candidate D))
      → Ascending cs
      → Ascending (fuse_keywords sc i r cs)
  unfolding fuse_keywords Keeps
  fuse_keywords-Ascending i [] cs h = h
  fuse_keywords-Ascending i ((id, score) ∷ more) cs h =
      fuse_keywords-Ascending (i + 1) more _
        (touch-Ascending id (with_keyword sc i) cs (λ c. refl) h)

  fuse_media-Ascending :
      (i : ℕ) (r : Ranked D) (cs : List (Candidate D))
      → Ascending cs
      → Ascending (fuse_media sc i r cs)
  unfolding fuse_media Keeps
  fuse_media-Ascending i [] cs h = h
  fuse_media-Ascending i ((id, score) ∷ more) cs h =
      fuse_media-Ascending (i + 1) more _
        (touch-Ascending (routed sc id) (with_media sc i score) cs (λ c. refl) h)

  -- No two have one identifier.
  abbrev pub Distinct : List (Candidate D) → Type 0
  Distinct [] = Unit
  Distinct (c ∷ cs) = All (λ d. c.chunk_id ≢ d.chunk_id) cs × Distinct cs

  lt-distinct : (a b : Bytes) → bytes_lt a b ≡ true → a ≢ b
  lt-distinct a b lt e =
      let no_loop = subst (λ x. bytes_lt a x ≡ false) e (bytes_lt_irrefl a) in
      ground (arith, lt, no_loop)

  All-distinct :
      (a : Bytes) (cs : List (Candidate D))
      → All (λ d. bytes_lt a d.chunk_id ≡ true) cs
      → All (λ d. a ≢ d.chunk_id) cs
  All-distinct a [] h = tt
  All-distinct a (c ∷ cs) h = (lt-distinct a c.chunk_id h.0, All-distinct a cs h.1)

  Ascending-Distinct : (cs : List (Candidate D)) → Ascending cs → Distinct cs
  unfolding Ascending
  Ascending-Distinct [] h = tt
  Ascending-Distinct (c ∷ cs) h = (All-distinct c.chunk_id cs h.0, Ascending-Distinct cs h.1)

  All-insert_candidate :
      (P : Candidate D → Type 0) (x : Candidate D) (cs : List (Candidate D))
      → P x
      → All P cs
      → All P (insert_candidate sc x cs)
  unfolding insert_candidate
  All-insert_candidate P x [] p h = (p, tt)
  All-insert_candidate P x (c ∷ cs) p h =
      if-cases (All P) (sc.greater c.fused x.fused) _ _
        (λ _. (h.0, All-insert_candidate P x cs p h.1)) (λ _. (p, h))

  All-sort_candidates :
      (P : Candidate D → Type 0) (cs : List (Candidate D))
      → All P cs
      → All P (sort_candidates sc cs)
  unfolding sort_candidates
  All-sort_candidates P [] h = tt
  All-sort_candidates P (c ∷ cs) h =
      All-insert_candidate P c (sort_candidates sc cs) h.0 (All-sort_candidates P cs h.1)

  differ-sym :
      (x : Candidate D) (c : Candidate D) → x.chunk_id ≢ c.chunk_id → c.chunk_id ≢ x.chunk_id
  differ-sym x c h e = h (sym e)

  insert_candidate-Distinct :
      (x : Candidate D) (cs : List (Candidate D))
      → All (λ d. x.chunk_id ≢ d.chunk_id) cs
      → Distinct cs
      → Distinct (insert_candidate sc x cs)
  unfolding insert_candidate
  insert_candidate-Distinct x [] new h = (tt, tt)
  insert_candidate-Distinct x (c ∷ cs) new h =
      if-cases Distinct (sc.greater c.fused x.fused) _ _
        (λ _. (
          All-insert_candidate (λ d. c.chunk_id ≢ d.chunk_id) x cs (differ-sym x c new.0) h.0,
          insert_candidate-Distinct x cs new.1 h.1,
        ))
        (λ _. (new, h))

  sort_candidates-Distinct :
      (cs : List (Candidate D)) → Distinct cs → Distinct (sort_candidates sc cs)
  unfolding sort_candidates
  sort_candidates-Distinct [] h = tt
  sort_candidates-Distinct (c ∷ cs) h =
      insert_candidate-Distinct c (sort_candidates sc cs)
        (All-sort_candidates (λ d. c.chunk_id ≢ d.chunk_id) cs h.0)
        (sort_candidates-Distinct cs h.1)

  All-take :
      (P : Candidate D → Type 0) (n : ℕ) (cs : List (Candidate D)) → All P cs → All P (take n cs)
  All-take P zero cs h = tt
  All-take P (suc n) [] h = tt
  All-take P (suc n) (c ∷ cs) h = (h.0, All-take P n cs h.1)

  take-Distinct : (n : ℕ) (cs : List (Candidate D)) → Distinct cs → Distinct (take n cs)
  take-Distinct zero cs h = tt
  take-Distinct (suc n) [] h = tt
  take-Distinct (suc n) (c ∷ cs) h =
      (All-take (λ d. c.chunk_id ≢ d.chunk_id) n cs h.0, take-Distinct n cs h.1)

  -- However the three rankings overlap, and whatever repeats in one of them, the candidates are at
  -- most twelve and no two of them are one chunk.
  pub top_candidates-Distinct :
      (vec_ranked kw_ranked media_ranked : Ranked D)
      → Distinct (top_candidates sc vec_ranked kw_ranked media_ranked)
        × (length (top_candidates sc vec_ranked kw_ranked media_ranked) ≤ 12)
  unfolding top_candidates fuse Ascending
  top_candidates-Distinct vec_ranked kw_ranked media_ranked =
      let cands = fuse sc vec_ranked kw_ranked media_ranked in
      let ascending : Ascending cands =
        fuse_media-Ascending 0 media_ranked _
          (fuse_keywords-Ascending 0 kw_ranked _ (fuse_vectors-Ascending 0 vec_ranked [] tt)) in
      (
        take-Distinct 12 (sort_candidates sc cands)
            (sort_candidates-Distinct cands (Ascending-Distinct cands ascending)),
        omega (arith, length-take 12 (sort_candidates sc cands)),
      )
