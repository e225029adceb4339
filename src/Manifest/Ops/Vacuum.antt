-- ===== src/Manifest/Ops/Vacuum.antt =====
-- Forgetting every superseded document, as a vacuum does.
use chimera_ape.Base.{
  refl, ap, ◌∙◌, Bool, true, false, ◌||◌, List, [], ◌∷◌, map, arith, if◌then◌else◌, Bytes, bytes_eq,
  bytes_eq_iff, bytes_eq_refl, Bool-cases, All, inl, inr, if-cases, ◌≡◌,
}
use chimera_ape.Manifest.{ChunkRow, DocRow, Manifest}
use chimera_ape.Manifest.Table.{select, update, has_key, select-delete}
use chimera_ape.Manifest.Ops.{
  docid_of, is_pending, superseded_docs, forget_doc, chunks_of, order_by, stage_of,
}
use chimera_ape.Manifest.Ops.Laws.{stage_of-forget_doc}

-- `for (const auto& d : dead) m.forget_doc(d);`
unfoldable pub forget_docs : List Bytes → Manifest → Manifest
unfolding forget_doc
forget_docs [] m = m
forget_docs (d ∷ ds) m = forget_docs ds (forget_doc d m)

abbrev pub is_among : Bytes → List Bytes → Bool
is_among k [] = false
is_among k (d ∷ ds) = bytes_eq k d || is_among k ds

-- Every row that is pending is one of the documents.
abbrev Covered : List Bytes → List DocRow → Type 0
Covered ds xs = All (λ d. is_pending d ≡ true → is_among d.docid ds ≡ true) xs

Covered-cons :
    (k : Bytes) (ds : List Bytes) (xs : List DocRow) → Covered ds xs → Covered (k ∷ ds) xs
Covered-cons k ds [] h = tt
Covered-cons k ds (x ∷ xs) h = (λ p. ground (arith, h.0 p), Covered-cons k ds xs h.1)

Covered-all : (xs : List DocRow) → Covered (map docid_of (select is_pending xs)) xs
Covered-all [] = tt
Covered-all (x ∷ xs) =
    if-cases (λ l. Covered (map docid_of l) (x ∷ xs)) (is_pending x) (x ∷ select is_pending xs)
      (select is_pending xs)
      (λ e. (λ p. rw (bytes_eq_refl x.docid), Covered-cons x.docid _ xs (Covered-all xs)))
      (λ e. (λ p. cc (e, p), Covered-all xs))

Covered-update :
    (k : Bytes) (ds : List Bytes) (xs : List DocRow)
    → Covered (k ∷ ds) xs
    → Covered ds (update (has_key docid_of k) (λ d. record d { vacuumed = true }) xs)
Covered-update k ds [] h = tt
Covered-update k ds (x ∷ xs) h = elim (Bool-cases (bytes_eq x.docid k)) [
  | inl e ↦ rw e (λ p. ground arith, Covered-update k ds xs h.1)
  | inr e ↦ rw e (λ p. ground (arith, h.0 p), Covered-update k ds xs h.1)
]

Covered-none : (xs : List DocRow) → Covered [] xs → select is_pending xs ≡ []
Covered-none [] h = refl
Covered-none (x ∷ xs) h = elim (Bool-cases (is_pending x)) [
  | inl e ↦ cc (h.0 e)
  | inr e ↦ rw e (Covered-none xs h.1)
]

forget_docs-Covered :
    (ds : List Bytes) (m : Manifest)
    → Covered ds m.doc
    → select is_pending (forget_docs ds m).doc ≡ []
unfolding forget_docs
forget_docs-Covered [] m h = Covered-none m.doc h
forget_docs-Covered (d ∷ ds) m h =
    forget_docs-Covered ds (forget_doc d m) (unfold forget_doc in Covered-update d ds m.doc h)

chunks_of-forget_doc :
    (text k : Bytes) (m : Manifest) (j : Bytes)
    → chunks_of text j (forget_doc k m) ≡ (if bytes_eq k j then [] else chunks_of text j m)
unfolding chunks_of forget_doc
chunks_of-forget_doc text k m j = elim (Bool-cases (bytes_eq k j)) [
  | inl e ↦ rw (select-delete (λ (c : ChunkRow). c.doc_id) k m.chunk j, e) (unfold order_by in refl)
  | inr e ↦ rw (select-delete (λ (c : ChunkRow). c.doc_id) k m.chunk j, e)
]

pub chunks_of-forget_docs :
    (text : Bytes) (ds : List Bytes) (m : Manifest) (j : Bytes)
    → chunks_of text j (forget_docs ds m) ≡ (if is_among j ds then [] else chunks_of text j m)
unfolding forget_docs
chunks_of-forget_docs text [] m j = refl
chunks_of-forget_docs text (d ∷ ds) m j = ground (
  arith,
  bytes_eq_iff d j,
  bytes_eq_iff j d,
  chunks_of-forget_docs text ds (forget_doc d m) j,
  chunks_of-forget_doc text d m j,
)

pub stage_of-forget_docs :
    (ds : List Bytes) (m : Manifest) (j : Bytes) → stage_of j (forget_docs ds m) ≡ stage_of j m
unfolding forget_docs
stage_of-forget_docs [] m j = refl
stage_of-forget_docs (d ∷ ds) m j =
    stage_of-forget_docs ds (forget_doc d m) j ∙ stage_of-forget_doc d m j

-- When every superseded document has been forgotten, none is pending, the chunks of each are gone,
-- and the chunks of every other document and all watermarks are as before.
pub vacuum-superseded_docs :
    (text : Bytes) (m : Manifest)
    → (superseded_docs (forget_docs (superseded_docs m) m) ≡ [])
      × ((j : Bytes)
          → chunks_of text j (forget_docs (superseded_docs m) m)
            ≡ (if is_among j (superseded_docs m) then [] else chunks_of text j m))
      × ((j : Bytes) → stage_of j (forget_docs (superseded_docs m) m) ≡ stage_of j m)
vacuum-superseded_docs text m = (
  unfold superseded_docs in ap (map docid_of) (forget_docs-Covered _ m (Covered-all m.doc)),
  chunks_of-forget_docs text (superseded_docs m) m,
  stage_of-forget_docs (superseded_docs m) m,
)
