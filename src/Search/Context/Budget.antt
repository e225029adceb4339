-- ===== src/Search/Context/Budget.antt =====
-- src/search.cpp: the bounds of the context.
use chimera_ape.Base.{
  ℕ, zero, suc, ◌+◌, ◌-◌, ◌*◌, ◌≤◌, ◌<◌, ◌≡◌, refl, ap, ◌∙◌, ◌⊎◌, inl, inr, arith, Bool, true,
  false, none, some, List, [], ◌∷◌, ◌++◌, append_assoc, append-nil, leb, leb→le, if-cases,
  Bool-cases, Bytes, length, All,
}
use chimera_ape.Util.Strtol.{ℤ, pos, negsuc}
use chimera_ape.Search.Context.{
  Card, Source, source_of, ContextState, spend, try_add, add_all, choose_sources, kept_from,
  mentions, or_all, cited,
}

-- First fit: what is chosen from the cards when `b` bytes are left, and what is left then.
pub data FirstFit : ℕ → List Card → List Source → ℕ → Type 0 where
  fit_done : {b : ℕ} → FirstFit b [] [] b
  fit_take :
      {b left : ℕ} {c : Card} {cs : List Card} {ss : List Source}
      → length c.text ≤ b
      → FirstFit (b - length c.text) cs ss left
      → FirstFit b (c ∷ cs) (source_of c ∷ ss) left
  fit_skip :
      {b left : ℕ} {c : Card} {cs : List Card} {ss : List Source}
      → b < length c.text
      → FirstFit b cs ss left
      → FirstFit b (c ∷ cs) ss left

abbrev pub text_bytes : List Source → ℕ
text_bytes [] = 0
text_bytes (s ∷ ss) = length s.text + text_bytes ss

abbrev state_at : ℕ → List Source → ContextState
state_at left ss = record { budget = pos left; sources = ss }

spend-fits : (n b : ℕ) → leb n b ≡ true → spend n (pos b) ≡ some (pos (b - n))
unfolding spend
spend-fits n b h = rw h refl

spend-none : (n b : ℕ) → leb n b ≡ false → spend n (pos b) ≡ none
unfolding spend
spend-none n b h = rw h refl

try_add-fits :
    (c : Card) (b : ℕ) (ss : List Source)
    → leb (length c.text) b ≡ true
    → try_add c (state_at b ss) ≡ state_at (b - length c.text) (ss ++ source_of c ∷ [])
unfolding try_add
try_add-fits c b ss h = rw (spend-fits (length c.text) b h, try_add) refl

try_add-none :
    (c : Card) (b : ℕ) (ss : List Source)
    → leb (length c.text) b ≡ false
    → try_add c (state_at b ss) ≡ state_at b ss
unfolding try_add
try_add-none c b ss h = rw (spend-none (length c.text) b h, try_add) refl

add_all-FirstFit :
    (cs : List Card) (b : ℕ) (before : List Source)
    → (ss : List Source) × (left : ℕ) × (add_all cs (record { budget = pos b; sources = before })
        ≡ record { budget = pos left; sources = before ++ ss })
      × FirstFit b cs ss left
unfolding add_all
add_all-FirstFit [] b before = ([], b, rw (append-nil before) refl, fit_done)
add_all-FirstFit (c ∷ cs) b before = elim (Bool-cases (leb (length c.text) b)) [
  | inl fits ↦
      let (ss, left, e, f) = add_all-FirstFit cs (b - length c.text) (before ++ source_of c ∷ []) in
      (
        source_of c ∷ ss,
        left,
        ap (add_all cs) (try_add-fits c b before fits)
            ∙ e
            ∙ ap (state_at left) (append_assoc before (source_of c ∷ []) ss),
        fit_take (leb→le (length c.text) b fits) f,
      )
  | inr big ↦
      let (ss, left, e, f) = add_all-FirstFit cs b before in
      (ss, left, ap (add_all cs) (try_add-none c b before big) ∙ e, fit_skip (ground arith) f)
]

FirstFit-append :
    {b m l : ℕ} {cs ds : List Card} {ss ts : List Source}
    → FirstFit b cs ss m
    → FirstFit m ds ts l
    → FirstFit b (cs ++ ds) (ss ++ ts) l
FirstFit-append fit_done g = g
FirstFit-append (fit_take le f) g = fit_take le (FirstFit-append f g)
FirstFit-append (fit_skip lt f) g = fit_skip lt (FirstFit-append f g)

FirstFit-bytes :
    {b l : ℕ} {cs : List Card} {ss : List Source} → FirstFit b cs ss l → text_bytes ss + l ≡ b
unfolding source_of
FirstFit-bytes fit_done = omega arith
FirstFit-bytes (fit_take le f) = omega (arith, le, FirstFit-bytes f)
FirstFit-bytes (fit_skip lt f) = FirstFit-bytes f

kept_from-lt : (keep : ℕ → Bool) (i n m : ℕ) → i + n ≤ m → All (λ k. k < m) (kept_from keep i n)
unfolding kept_from
kept_from-lt keep i zero m h = tt
kept_from-lt keep i (suc n) m h =
    let later = kept_from-lt keep (i + 1) n m (omega arith) in
    if-cases (All (λ k. k < m)) (keep i) (i ∷ kept_from keep (i + 1) n) (kept_from keep (i + 1) n)
      (λ e. (omega (arith, h), later)) (λ e. later)

or_all-lt : (n : ℕ) (marked : List ℕ) → All (λ k. k < n) marked → All (λ k. k < n) (or_all n marked)
unfolding or_all
or_all-lt n [] h = kept_from-lt (λ i. true) 0 n n (omega arith)
or_all-lt n (i ∷ is) h = h

-- Some source is cited where there is one.
or_all-some : (n : ℕ) (marked : List ℕ) → (n ≡ 0) ⊎ (0 < length (or_all n marked))
unfolding or_all kept_from
or_all-some zero marked = inl refl
or_all-some (suc n) [] = inr (omega arith)
or_all-some (suc n) (i ∷ is) = inr (omega arith)

-- The cited positions are positions.
pub cited-lt : (answer : Bytes) (n : ℕ) → All (λ k. k < n) (cited answer n)
unfolding cited
cited-lt answer n =
    or_all-lt n (kept_from (λ i. mentions (i + 1) answer) 0 n)
      (kept_from-lt (λ i. mentions (i + 1) answer) 0 n n (omega arith))

-- The texts of the sources fit a budget of tokens; there are none for a negative one.
abbrev pub FitsIn : ℤ → List Source → Type 0
FitsIn (pos tokens) sources = text_bytes sources ≤ tokens * 4
FitsIn (negsuc n) sources = sources ≡ []

add_all_negative :
    (cs : List Card) (n : ℕ) (ss : List Source)
    → add_all cs (record { budget = negsuc n; sources = ss })
      ≡ record { budget = negsuc n; sources = ss }
unfolding add_all try_add spend
add_all_negative [] n ss = refl
add_all_negative (c ∷ cs) n ss = add_all_negative cs n ss

pub choose_sources-FitsIn :
    (budget : ℤ) (top expansion : List Card) → FitsIn budget (choose_sources budget top expansion)
unfolding choose_sources
choose_sources-FitsIn (pos tokens) top expansion =
    let (ss, m, e, f) = add_all-FirstFit top (tokens * 4) [] in
    let (ts, left, e', f') = add_all-FirstFit expansion m ss in
    let chosen : choose_sources (pos tokens) top expansion ≡ ss ++ ts =
      ap (λ st. (add_all expansion st).sources) e ∙ ap (λ (st : ContextState). st.sources) e' in
    rw chosen (omega (arith, FirstFit-bytes (FirstFit-append f f')))
choose_sources-FitsIn (negsuc n) top expansion =
    ap (λ st. (add_all expansion st).sources) (add_all_negative top ((n + 1) * 4 - 1) [])
    ∙ ap (λ (st : ContextState). st.sources) (add_all_negative expansion ((n + 1) * 4 - 1) [])

-- The sources are the first fit of the candidates and then of the expansion, within four bytes for
-- each token of the budget; and an answer's cited sources are among them, with at least one where
-- there is a source.
pub choose_sources-FirstFit :
    (tokens : ℕ) (top expansion : List Card) (answer : Bytes)
    → (left : ℕ) × FirstFit
        (tokens * 4)
        (top ++ expansion)
        (choose_sources (pos tokens) top expansion)
        left
      × (text_bytes (choose_sources (pos tokens) top expansion) + left ≡ tokens * 4)
      × All
          (λ k. k < length (choose_sources (pos tokens) top expansion))
          (cited answer (length (choose_sources (pos tokens) top expansion)))
      × ((length (choose_sources (pos tokens) top expansion) ≡ 0)
          ⊎ (0 < length (cited answer (length (choose_sources (pos tokens) top expansion)))))
unfolding choose_sources cited
choose_sources-FirstFit tokens top expansion answer =
    let (ss, m, e, f) = add_all-FirstFit top (tokens * 4) [] in
    let (ts, left, e', f') = add_all-FirstFit expansion m ss in
    let chosen : choose_sources (pos tokens) top expansion ≡ ss ++ ts =
      ap (λ st. (add_all expansion st).sources) e ∙ ap (λ (st : ContextState). st.sources) e' in
    let fit = FirstFit-append f f' in
    let n = length (choose_sources (pos tokens) top expansion) in
    let marked = kept_from (λ i. mentions (i + 1) answer) 0 n in
    (
      left,
      rw chosen fit,
      rw chosen (FirstFit-bytes fit),
      or_all-lt n marked (kept_from-lt (λ i. mentions (i + 1) answer) 0 n n (omega arith)),
      or_all-some n marked,
    )
