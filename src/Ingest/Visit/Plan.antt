-- ===== src/Ingest/Visit/Plan.antt =====
-- What the work list holds after any walk.
use chimera_ape.Base.{
  ℕ, ◌+◌, ◌≡◌, refl, Bool, true, false, ◌&&◌, ◌||◌, Option, List, [], ◌∷◌, arith, Bytes, bytes_eq,
  bytes_eq_iff, All, inl, inr, Bool-cases, Option-cases, ◌∙◌, codes, if-cases, All-append,
}
use chimera_ape.Chunk.{Chunk}
use chimera_ape.Hash.{Hashes, triple_tap}
use chimera_ape.Manifest.{Manifest, PathInfo}
use chimera_ape.Manifest.Table.{Unique, Unique-snoc, Fresh, Fresh-snoc, first, has_key}
use chimera_ape.Manifest.Ops.{path_info, find_doc, upsert_path, has_doc, stage_of, relpath_of}
use chimera_ape.Walk.{WalkEntry}
use chimera_ape.Ingest.{DocWork, WalkState, start_walk}
use chimera_ape.Ingest.Visit.{
  fully_ingested, is_known_as, supersedes, is_enqueued, is_unchanged, skip, upsert_entry, locate,
  push_work, enqueue, visit_id, visit, visit_all, text_chunks,
}

abbrev pub work_id : DocWork → Bytes
work_id w = w.doc_id

-- No document is twice in the work list, and none of it went through the whole pipeline before.
pub record IsPlan (st : WalkState) : Type 0 where
  pub distinct : Unique work_id st.work
  pub enqueued_all : (id : Bytes) → is_enqueued id st.enqueued ≡ false → Fresh work_id id st.work
  pub unfinished : All (λ w. fully_ingested w.doc_id st.manifest ≡ false) st.work

pub doc-upsert_path :
    (p : Bytes) (mtime size : ℕ) (id : Bytes) (m : Manifest)
    → (upsert_path p mtime size id m).doc ≡ m.doc
unfolding upsert_path
doc-upsert_path p mtime size id m = elim (Option-cases (first (has_key relpath_of p) m.path)) [
  | inl e ↦ rw (e, upsert_path) refl
  | inr (r, e) ↦ rw (e, upsert_path) refl
]

-- A path's row says nothing of a document's watermark.
fully_ingested-upsert_path :
    (p : Bytes) (mtime size : ℕ) (id : Bytes) (m : Manifest) (j : Bytes)
    → fully_ingested j (upsert_path p mtime size id m) ≡ fully_ingested j m
unfolding fully_ingested stage_of
fully_ingested-upsert_path p mtime size id m j = rw (doc-upsert_path p mtime size id m) refl

skip-IsPlan : (st : WalkState) → IsPlan st → IsPlan (skip st)
unfolding skip
skip-IsPlan st p = record {
  distinct = p.distinct;
  enqueued_all = p.enqueued_all;
  unfinished = p.unfinished;
}

locate-IsPlan : (e : WalkEntry) (id : Bytes) (st : WalkState) → IsPlan st → IsPlan (locate e id st)
unfolding locate
locate-IsPlan e id st p = record {
  distinct = p.distinct;
  enqueued_all = p.enqueued_all;
  unfinished = p.unfinished;
}

All-unfinished :
    (m m' : Manifest) (ws : List DocWork)
    → ((j : Bytes) → fully_ingested j m' ≡ fully_ingested j m)
    → All (λ w. fully_ingested w.doc_id m ≡ false) ws
    → All (λ w. fully_ingested w.doc_id m' ≡ false) ws
All-unfinished m m' [] same h = tt
All-unfinished m m' (w ∷ ws) same h = (same w.doc_id ∙ h.0, All-unfinished m m' ws same h.1)

upsert_entry-IsPlan :
    (e : WalkEntry) (id : Bytes) (st : WalkState) → IsPlan st → IsPlan (upsert_entry e id st)
unfolding upsert_entry
upsert_entry-IsPlan e id st p = record {
  distinct = p.distinct;
  enqueued_all = p.enqueued_all;
  unfinished =
      All-unfinished st.manifest _ st.work
        (fully_ingested-upsert_path e.rel_path e.mtime e.size id st.manifest) p.unfinished;
}

disagree : (a b : Bytes) → a ≡ b → bytes_eq a b ≡ false → ⊥
disagree a b same other = ground (arith, bytes_eq_iff a b)

push_work-IsPlan :
    (e : WalkEntry) (id : Bytes) (known : Option PathInfo) (chunks : List Chunk) (st : WalkState)
    → is_enqueued id st.enqueued ≡ false
    → fully_ingested id st.manifest ≡ false
    → IsPlan st
    → IsPlan (push_work e id known chunks st)
unfolding push_work is_enqueued
push_work-IsPlan e id known chunks st new low p = record {
  distinct = Unique-snoc work_id st.work _ p.distinct (p.enqueued_all id new);
  enqueued_all = λ j h.
      Fresh-snoc work_id j st.work _ (p.enqueued_all j (ground arith))
        (λ same. disagree id j same (ground arith));
  unfinished =
      All-append (λ w. fully_ingested w.doc_id st.manifest ≡ false) st.work _ p.unfinished
        (low, tt);
}

abbrev counted : WalkState → ℕ → WalkState
counted st n = record st { n_superseded = st.n_superseded + n }

counted-IsPlan : (st : WalkState) (n : ℕ) → IsPlan st → IsPlan (counted st n)
counted-IsPlan st n p = record {
  distinct = p.distinct;
  enqueued_all = p.enqueued_all;
  unfinished = p.unfinished;
}

enqueue-IsPlan :
    (files : Bytes → Option Bytes) (e : WalkEntry) (id : Bytes) (known : Option PathInfo)
    (st : WalkState)
    → is_enqueued id st.enqueued ≡ false
    → fully_ingested id st.manifest ≡ false
    → IsPlan st
    → IsPlan (enqueue files e id known st)
unfolding enqueue
enqueue-IsPlan files e id known st new low p =
    elim (Bool-cases (bytes_eq e.modality (codes "text"))) [
      | inl text ↦ elim (Option-cases (files e.abs_path)) [
        | inl gone ↦ rw (text, gone) (counted-IsPlan st (supersedes id known) p)
        | inr (content, found) ↦
            rw (text, found)
              (push_work-IsPlan e id known (text_chunks e.mime content)
                (counted st (supersedes id known)) new low
                (counted-IsPlan st (supersedes id known) p))
      ]
      | inr media ↦ rw media (
          push_work-IsPlan e id known [] (counted st (supersedes id known)) new low
            (counted-IsPlan st (supersedes id known) p))
    ]

has_doc-fully_ingested :
    (id : Bytes) (m : Manifest) → has_doc id m ≡ false → fully_ingested id m ≡ false
unfolding has_doc fully_ingested stage_of
has_doc-fully_ingested id m h = elim (Option-cases (find_doc id m)) [
  | inl e ↦ rw e refl
  | inr (d, e) ↦ let found : has_doc id m ≡ true = rw e refl in absurd (ground arith)
]

visit_id-IsPlan :
    (files : Bytes → Option Bytes) (e : WalkEntry) (id : Bytes) (known : Option PathInfo)
    (st : WalkState)
    → IsPlan st
    → IsPlan (visit_id files e id known st)
unfolding visit_id
visit_id-IsPlan files e id known st p =
    if-cases IsPlan (is_known_as id known && fully_ingested id st.manifest) _ _
      (λ _. skip-IsPlan (upsert_entry e id st) (upsert_entry-IsPlan e id st p))
      (λ _.
        if-cases IsPlan
          (is_enqueued id st.enqueued || (has_doc id st.manifest && fully_ingested id st.manifest))
          _ _
          (λ _.
            skip-IsPlan (locate e id (upsert_entry e id st))
              (locate-IsPlan e id (upsert_entry e id st) (upsert_entry-IsPlan e id st p)))
          (λ n.
            enqueue-IsPlan files e id known st (ground arith)
              (ground (arith, has_doc-fully_ingested id st.manifest)) p))

visit-IsPlan :
    (files : Bytes → Option Bytes) (h : Hashes) (paranoid : Bool) (e : WalkEntry) (st : WalkState)
    → IsPlan st
    → IsPlan (visit files h paranoid e st)
unfolding visit
visit-IsPlan files h paranoid e st p =
    if-cases IsPlan (is_unchanged e (path_info e.rel_path st.manifest) st.manifest) _ _
      (λ _. skip-IsPlan st p)
      (λ _. elim (Option-cases (triple_tap h paranoid (files e.abs_path))) [
        | inl unreadable ↦ rw unreadable p
        | inr (id, e') ↦ rw e' (visit_id-IsPlan files e id (path_info e.rel_path st.manifest) st p)
      ])

visit_all-IsPlan_from :
    (files : Bytes → Option Bytes) (h : Hashes) (paranoid : Bool) (es : List WalkEntry)
    (st : WalkState)
    → IsPlan st
    → IsPlan (visit_all files h paranoid es st)
unfolding visit_all
visit_all-IsPlan_from files h paranoid [] st p = p
visit_all-IsPlan_from files h paranoid (e ∷ es) st p =
    visit_all-IsPlan_from files h paranoid es (visit files h paranoid e st)
      (visit-IsPlan files h paranoid e st p)

-- After a walk over any files, no document is twice in the work list, and none of the list has the
-- committed watermark in the manifest.
pub visit_all-IsPlan :
    (files : Bytes → Option Bytes) (h : Hashes) (paranoid : Bool) (es : List WalkEntry)
    (m : Manifest)
    → IsPlan (visit_all files h paranoid es (start_walk m))
visit_all-IsPlan files h paranoid es m =
    visit_all-IsPlan_from files h paranoid es (start_walk m)
      record { distinct = tt; enqueued_all = λ id n. tt; unfinished = tt }

-- The walk writes to no row of a document.
doc-enqueue :
    (files : Bytes → Option Bytes) (e : WalkEntry) (id : Bytes) (known : Option PathInfo)
    (st : WalkState)
    → (enqueue files e id known st).manifest.doc ≡ st.manifest.doc
unfolding enqueue push_work
doc-enqueue files e id known st =
    if-cases (λ (st' : WalkState). st'.manifest.doc ≡ st.manifest.doc)
      (bytes_eq e.modality (codes "text")) _ _
      (λ _. elim (Option-cases (files e.abs_path)) [
        | inl gone ↦ rw gone refl
        | inr (content, found) ↦ rw found refl
      ])
      (λ _. refl)

doc-visit_id :
    (files : Bytes → Option Bytes) (e : WalkEntry) (id : Bytes) (known : Option PathInfo)
    (st : WalkState)
    → (visit_id files e id known st).manifest.doc ≡ st.manifest.doc
unfolding visit_id skip locate upsert_entry
doc-visit_id files e id known st =
    let same = doc-upsert_path e.rel_path e.mtime e.size id st.manifest in
    if-cases (λ (st' : WalkState). st'.manifest.doc ≡ st.manifest.doc)
      (is_known_as id known && fully_ingested id st.manifest) _ _ (λ _. same)
      (λ _.
        if-cases (λ (st' : WalkState). st'.manifest.doc ≡ st.manifest.doc)
          (is_enqueued id st.enqueued || (has_doc id st.manifest && fully_ingested id st.manifest))
          _ _ (λ _. same) (λ _. doc-enqueue files e id known st))

doc-visit :
    (files : Bytes → Option Bytes) (h : Hashes) (paranoid : Bool) (e : WalkEntry) (st : WalkState)
    → (visit files h paranoid e st).manifest.doc ≡ st.manifest.doc
unfolding visit skip
doc-visit files h paranoid e st =
    if-cases (λ (st' : WalkState). st'.manifest.doc ≡ st.manifest.doc)
      (is_unchanged e (path_info e.rel_path st.manifest) st.manifest) _ _ (λ _. refl)
      (λ _. elim (Option-cases (triple_tap h paranoid (files e.abs_path))) [
        | inl unreadable ↦ rw unreadable refl
        | inr (id, e') ↦ rw e' (doc-visit_id files e id (path_info e.rel_path st.manifest) st)
      ])

pub doc-visit_all :
    (files : Bytes → Option Bytes) (h : Hashes) (paranoid : Bool) (es : List WalkEntry)
    (st : WalkState)
    → (visit_all files h paranoid es st).manifest.doc ≡ st.manifest.doc
unfolding visit_all
doc-visit_all files h paranoid [] st = refl
doc-visit_all files h paranoid (e ∷ es) st =
    doc-visit_all files h paranoid es (visit files h paranoid e st)
    ∙ doc-visit files h paranoid e st
