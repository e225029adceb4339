-- ===== src/Ingest/Visit/NoOp.antt =====
-- A corpus that did not change costs one look at each path.
use mathlib.Core.Path.{subst}
use chimera_ape.Base.{
  ℕ, ◌≤◌, ◌≡◌, ◌↔◌, refl, sym, ◌∙◌, ap, ◌+◌, Bool, true, Option, none, some, List, [], ◌∷◌, arith,
  Bytes, length, All, Bool-cases, Option-cases, ◌⊎◌, inl, inr,
}
use chimera_ape.Hash.{Hashes, triple_tap}
use chimera_ape.Manifest.{Manifest, PathInfo}
use chimera_ape.Manifest.Ops.{path_info, stage_of}
use chimera_ape.Walk.{WalkEntry}
use chimera_ape.Ingest.{WalkState}
use chimera_ape.Ingest.Visit.{has_reached, fully_ingested, is_unchanged, skip, visit, visit_all}

-- The manifest has the file with this time and size, and its document went through the whole pipeline.
pub record IsSettled (m : Manifest) (e : WalkEntry) : Type 0 where
  pub known : PathInfo
  pub found : path_info e.rel_path m ≡ some known
  pub same_time : known.mtime ≡ e.mtime
  pub same_size : known.size ≡ e.size
  pub stage : ℕ
  pub reached : stage_of known.doc_id m ≡ some stage
  pub through : 6 ≤ stage

settled_of : (stage : Option ℕ) → has_reached 6 stage ≡ true → (n : ℕ) × (stage ≡ some n) × (6 ≤ n)
settled_of none up = absurd (ground arith)
settled_of (some n) up = (n, refl, ground arith)

unchanged-IsSettled :
    (e : WalkEntry) (m : Manifest)
    → is_unchanged e (path_info e.rel_path m) m ≡ true
    → IsSettled m e
unfolding is_unchanged fully_ingested
unchanged-IsSettled e m h = elim (Option-cases (path_info e.rel_path m)) [
  | inl new ↦ let h' = rw new at h in absurd (ground arith)
  | inr (known, found) ↦
      let h' = rw found at h in
      let (n, at, big) = settled_of (stage_of known.doc_id m) (ground (arith, h')) in
      record {
        known = known;
        found = found;
        same_time = ground (arith, h');
        same_size = ground (arith, h');
        stage = n;
        reached = at;
        through = big;
      }
]

IsSettled-unchanged :
    (e : WalkEntry) (m : Manifest)
    → IsSettled m e
    → is_unchanged e (path_info e.rel_path m) m ≡ true
unfolding is_unchanged fully_ingested
IsSettled-unchanged e m s =
    let stage = s.reached in
    rw s.found (ground (arith, s.same_time, s.same_size, s.reached, s.through))

only_counts :
    (files : Bytes → Option Bytes) (h : Hashes) (paranoid : Bool) (es : List WalkEntry)
    (st : WalkState)
    → All (IsSettled st.manifest) es
    → visit_all files h paranoid es st ≡ record st { n_skipped = st.n_skipped + length es }
unfolding visit_all visit skip
only_counts files h paranoid [] st settled =
    let same : st.n_skipped ≡ st.n_skipped + 0 = omega arith in
    ap (λ k. record st { n_skipped = k }) same
only_counts files h paranoid (e ∷ es) st settled =
    let sum : st.n_skipped + 1 + length es ≡ st.n_skipped + length (e ∷ es) = omega arith in
    rw (visit, IsSettled-unchanged e st.manifest settled.0)
      (only_counts files h paranoid es (skip st) settled.1
        ∙ ap (λ k. record st { n_skipped = k }) sum)

-- Where no file can be read.
module _ (h : Hashes) (paranoid : Bool) where
  abbrev blind : List WalkEntry → WalkState → WalkState
  blind es st = visit_all (λ p. none) h paranoid es st

  blind-visit :
      (e : WalkEntry) (st : WalkState)
      → ((is_unchanged e (path_info e.rel_path st.manifest) st.manifest ≡ true)
          × (visit (λ p. none) h paranoid e st ≡ skip st))
        ⊎ (visit (λ p. none) h paranoid e st ≡ st)
  unfolding visit triple_tap
  blind-visit e st =
      elim (Bool-cases (is_unchanged e (path_info e.rel_path st.manifest) st.manifest)) [
        | inl same ↦ inl (same, rw same refl)
        | inr other ↦ inr (rw other refl)
      ]

  blind-le :
      (es : List WalkEntry) (st : WalkState) → (blind es st).n_skipped ≤ st.n_skipped + length es
  unfolding visit_all skip
  blind-le [] st = omega arith
  blind-le (e ∷ es) st = elim (blind-visit e st) [
    | inl (same, v) ↦
        let later = blind-le es (skip st) in
        subst (λ s. (blind es s).n_skipped ≤ st.n_skipped + length (e ∷ es)) (sym v)
          (omega (arith, later))
    | inr v ↦
        let later = blind-le es st in
        subst (λ s. (blind es s).n_skipped ≤ st.n_skipped + length (e ∷ es)) (sym v)
          (omega (arith, later))
  ]

  blind-IsSettled :
      (es : List WalkEntry) (st : WalkState)
      → (blind es st).n_skipped ≡ st.n_skipped + length es
      → All (IsSettled st.manifest) es
  unfolding visit_all skip
  blind-IsSettled [] st all = tt
  blind-IsSettled (e ∷ es) st all = elim (blind-visit e st) [
    | inl (same, v) ↦
        let all' : (blind es (skip st)).n_skipped ≡ st.n_skipped + length (e ∷ es) =
          subst (λ s. (blind es s).n_skipped ≡ st.n_skipped + length (e ∷ es)) v all in
        (unchanged-IsSettled e st.manifest same, blind-IsSettled es (skip st) (omega (arith, all')))
    | inr v ↦
        let all' : (blind es st).n_skipped ≡ st.n_skipped + length (e ∷ es) =
          subst (λ s. (blind es s).n_skipped ≡ st.n_skipped + length (e ∷ es)) v all in
        let less = blind-le es st in absurd (omega (arith, all', less))
  ]

-- A walk only counts its files, whatever can be read of them, exactly when the manifest has each with
-- its time and its size and has its document committed; then it reads none, enqueues none and leaves
-- the manifest alone.
pub visit_all-IsSettled :
    (h : Hashes) (paranoid : Bool) (es : List WalkEntry) (st : WalkState)
    → All (IsSettled st.manifest) es ↔ (
        (files : Bytes → Option Bytes)
        → visit_all files h paranoid es st ≡ record st { n_skipped = st.n_skipped + length es })
visit_all-IsSettled h paranoid es st = (
  (λ settled files. only_counts files h paranoid es st settled),
  (λ counts.
      blind-IsSettled h paranoid es st (ap (λ (x : WalkState). x.n_skipped) (counts (λ p. none)))),
)
