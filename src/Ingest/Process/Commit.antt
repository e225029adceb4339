-- ===== src/Ingest/Process/Commit.antt =====
-- Which watermarks stage 8 moves.
use mathlib.Core.Path.{subst}
use chimera_ape.Base.{
  ℕ, ◌≡◌, refl, Bool, true, false, ◌&&◌, ◌||◌, Option, none, some, List, [], ◌∷◌, arith,
  if◌then◌else◌, Bytes, bytes_eq, bytes_eq_iff, Bool-cases, Option-cases, inl, inr, ◌∙◌,
}
use chimera_ape.Manifest.{committed, vectors_written, stage_number, Manifest}
use chimera_ape.Manifest.Ops.{stage_of, has_doc, find_doc}
use chimera_ape.Manifest.Ops.Laws.{stage_of-set_stage}
use chimera_ape.Ingest.{DocWork}
use chimera_ape.Ingest.Visit.{has_reached}
use chimera_ape.Ingest.Process.{commit_one, commit_all, commit_work}

-- The document is in the work list.
abbrev pub is_work : Bytes → List DocWork → Bool
is_work j [] = false
is_work j (w ∷ ws) = bytes_eq w.doc_id j || is_work j ws

-- The watermark of a document with a row, once stage 8 was over its entry.
abbrev pub promote : Bool → Option ℕ → Option ℕ
promote listed before =
    if listed && has_reached (stage_number vectors_written) before
    then some (stage_number committed)
    else before

has_doc-reached :
    (j : Bytes) (m : Manifest) → has_reached 4 (stage_of j m) ≡ true → has_doc j m ≡ true
unfolding has_doc stage_of
has_doc-reached j m h = elim (Option-cases (find_doc j m)) [
  | inl e ↦
      let none_known : stage_of j m ≡ none = rw e refl in
      let low : has_reached 4 (stage_of j m) ≡ false = rw none_known refl in absurd (ground arith)
  | inr (d, e) ↦ rw e refl
]

-- The same document has the same watermark.
reached_at :
    (k j : Bytes) (m : Manifest) (b : Bool)
    → bytes_eq k j ≡ true
    → has_reached 4 (stage_of k m) ≡ b
    → has_reached 4 (stage_of j m) ≡ b
reached_at k j m b same e =
    subst (λ x. has_reached 4 (stage_of x m) ≡ b) ((bytes_eq_iff k j).0 same) e

promote-promote :
    (a b : Bool) (before : Option ℕ) → promote b (promote a before) ≡ promote (a || b) before
promote-promote false b before = refl
promote-promote true b before = elim (Bool-cases (has_reached 4 before)) [
  | inl e ↦ rw e (again b)
  | inr e ↦ rw e (ground arith)
]
  where
    again : (b : Bool) → promote b (some 6) ≡ some 6
    again true = refl
    again false = refl

stage_of-commit_one :
    (w : DocWork) (m : Manifest) (j : Bytes)
    → stage_of j (commit_one w m) ≡ promote (bytes_eq w.doc_id j) (stage_of j m)
unfolding commit_one
stage_of-commit_one w m j = elim (Bool-cases (has_reached 4 (stage_of w.doc_id m))) [
  | inl done ↦ rw done (
      stage_of-set_stage w.doc_id committed m j ∙ elim (Bool-cases (bytes_eq w.doc_id j)) [
        | inl same ↦
            let there : has_reached 4 (stage_of j m) ≡ true =
              reached_at w.doc_id j m true same done in
            rw (same, there, has_doc-reached j m there) refl
        | inr other ↦ rw other refl
      ])
  | inr low ↦ rw low (elim (Bool-cases (bytes_eq w.doc_id j)) [
    | inl same ↦ rw (same, reached_at w.doc_id j m false same low) refl
    | inr other ↦ rw other refl
  ])
]

stage_of-commit_all :
    (ws : List DocWork) (m : Manifest) (j : Bytes)
    → stage_of j (commit_all ws m) ≡ promote (is_work j ws) (stage_of j m)
unfolding commit_all
stage_of-commit_all [] m j = refl
stage_of-commit_all (w ∷ ws) m j =
    stage_of-commit_all ws (commit_one w m) j
    ∙ rw (stage_of-commit_one w m j)
        (promote-promote (bytes_eq w.doc_id j) (is_work j ws) (stage_of j m))

-- After stage 8 a document is committed if the graph was written, it is in the work list and its
-- vectors were written; every other watermark is as it was.
pub stage_of-commit_work :
    (graph_ok : Bool) (ws : List DocWork) (m : Manifest) (j : Bytes)
    → stage_of j (commit_work graph_ok ws m) ≡ promote (graph_ok && is_work j ws) (stage_of j m)
unfolding commit_work
stage_of-commit_work true ws m j = stage_of-commit_all ws m j
stage_of-commit_work false ws m j = refl
