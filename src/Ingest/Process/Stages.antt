-- ===== src/Ingest/Process/Stages.antt =====
-- How the watermark and the chunk rows of a manifest fare under the operations of the pipeline.
use mathlib.Core.Path.{subst}
use chimera_ape.Base.{
  ℕ, ◌≡◌, refl, ◌∙◌, true, false, none, some, Bytes, Option-cases, inl, inr, bytes_eq_refl,
}
use chimera_ape.Manifest.{Stage, stage_number, Manifest}
use chimera_ape.Manifest.Ops.{
  insert_doc, upsert_path, set_stage, stage_of, has_doc, find_doc, relpath_of,
}
use chimera_ape.Manifest.Table.{first, has_key}
use chimera_ape.Manifest.Ops.Laws.{stage_of-set_stage, stage_of-insert_doc}
use chimera_ape.Ingest.Visit.{has_reached}

-- The watermark of a document that has a row.
abbrev pub HasStage : Bytes → Manifest → ℕ → Type 0
HasStage j m n = stage_of j m ≡ some n

pub has_doc-HasStage : (j : Bytes) (m : Manifest) (n : ℕ) → HasStage j m n → has_doc j m ≡ true
unfolding has_doc stage_of
has_doc-HasStage j m n e = elim (Option-cases (find_doc j m)) [
  | inl missing ↦ let gone : stage_of j m ≡ none = rw missing refl in absurd (cc gone)
  | inr (d, found) ↦ rw found refl
]

pub set_stage-HasStage :
    (j : Bytes) (st : Stage) (m : Manifest) (n : ℕ)
    → HasStage j m n
    → HasStage j (set_stage j st m) (stage_number st)
set_stage-HasStage j st m n e =
    stage_of-set_stage j st m j ∙ rw (bytes_eq_refl j, has_doc-HasStage j m n e) refl

pub stage_of-doc : (j : Bytes) (m m' : Manifest) → m.doc ≡ m'.doc → stage_of j m ≡ stage_of j m'
unfolding stage_of
stage_of-doc j m m' e = rw e refl

pub chunk-insert_doc :
    (now id : Bytes) (bytes : ℕ) (mime : Bytes) (m : Manifest)
    → (insert_doc now id bytes mime m).chunk ≡ m.chunk
unfolding insert_doc
chunk-insert_doc now id bytes mime m = elim (Option-cases (find_doc id m)) [
  | inl e ↦ rw (e, insert_doc) refl
  | inr (d, e) ↦ rw (e, insert_doc) refl
]

pub chunk-upsert_path :
    (p : Bytes) (mtime size : ℕ) (id : Bytes) (m : Manifest)
    → (upsert_path p mtime size id m).chunk ≡ m.chunk
unfolding upsert_path
chunk-upsert_path p mtime size id m = elim (Option-cases (first (has_key relpath_of p) m.path)) [
  | inl e ↦ rw (e, upsert_path) refl
  | inr (r, e) ↦ rw (e, upsert_path) refl
]

-- A document that has a row keeps its watermark, and a new one starts at 0.
pub stage_of-inserted :
    (now id : Bytes) (bytes : ℕ) (mime : Bytes) (m : Manifest)
    → has_reached 4 (stage_of id m) ≡ false
    → (n : ℕ) × HasStage id (insert_doc now id bytes mime m) n × (has_reached 4 (some n) ≡ false)
unfolding stage_of has_doc
stage_of-inserted now id bytes mime m low = elim (Option-cases (find_doc id m)) [
  | inl e ↦
      let fresh : has_doc id m ≡ false = rw e refl in
      (0, stage_of-insert_doc now id bytes mime m id ∙ rw (bytes_eq_refl id, fresh) refl, refl)
  | inr (d, e) ↦
      let known : has_doc id m ≡ true = rw e refl in
      let at : stage_of id m ≡ some d.stage = rw e refl in
      (
        d.stage,
        stage_of-insert_doc now id bytes mime m id ∙ rw (bytes_eq_refl id, known) at,
        subst (λ x. has_reached 4 x ≡ false) at low,
      )
]
