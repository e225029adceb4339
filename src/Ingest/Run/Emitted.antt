-- ===== src/Ingest/Run/Emitted.antt =====
-- The Turtle texts of documents, in what a run stages.
use mathlib.Core.Path.{subst}
use chimera_ape.Base.{
  ◌≡◌, refl, sym, ◌∙◌, ap, true, false, Option, List, [], ◌∷◌, ◌++◌, arith, Bytes, bytes_eq,
  bytes_eq_iff, is_empty, append_assoc, append-nil, Bool-cases, ◌⊎◌, inl, inr,
}
use chimera_ape.Hash.{Hashes}
use chimera_ape.Manifest.{Manifest}
use chimera_ape.Manifest.Ops.{stage_of}
use chimera_ape.Ingest.{DocWork}
use chimera_ape.Ingest.Visit.{has_reached}
use chimera_ape.Ingest.Document.{Services, RunState, turtle_of}
use chimera_ape.Ingest.Process.{process, process_all}
use chimera_ape.Ingest.Process.Marks.{IsAppended, Turn, process-Turn}

-- The text that some run wrote for a document with chunks.
pub record IsTurtle (F D : Type 0) (j piece : Bytes) : Type 0 where
  pub files : Bytes → Option Bytes
  pub hashes : Hashes
  pub services : Services F D
  pub work : DocWork
  pub same_id : work.doc_id ≡ j
  pub some_chunk : is_empty work.chunks ≡ false
  pub text : piece ≡ turtle_of files hashes services work

-- A text that holds the Turtle text of a document.
pub record Emits (F D : Type 0) (j t : Bytes) : Type 0 where
  pub before : Bytes
  pub piece : Bytes
  pub after : Bytes
  pub turtle : IsTurtle F D j piece
  pub whole : t ≡ before ++ (piece ++ after)

module _ (F D : Type 0) where
  pub Emits-append : (j t more : Bytes) → Emits F D j t → Emits F D j (t ++ more)
  Emits-append j t more e = record {
    before = e.before;
    piece = e.piece;
    after = e.after ++ more;
    turtle = e.turtle;
    whole =
        ap (λ x. x ++ more) e.whole
        ∙ append_assoc e.before (e.piece ++ e.after) more
        ∙ ap (◌++◌ e.before) (append_assoc e.piece e.after more);
  }

  pub Emits-prepend : (j less t : Bytes) → Emits F D j t → Emits F D j (less ++ t)
  Emits-prepend j less t e = record {
    before = less ++ e.before;
    piece = e.piece;
    after = e.after;
    turtle = e.turtle;
    whole = ap (◌++◌ less) e.whole ∙ sym (append_assoc less e.before (e.piece ++ e.after));
  }

-- What the loop over the work list has done by some turn, from the manifest `m` on.
pub record IsLoop (F D : Type 0) (m : Manifest) (st : RunState F) : Type 0 where
  pub same_committed :
      (j : Bytes) → has_reached 6 (stage_of j st.manifest) ≡ has_reached 6 (stage_of j m)
  pub written :
      (j : Bytes)
      → has_reached 4 (stage_of j st.manifest) ≡ true
      → (has_reached 4 (stage_of j m) ≡ true) ⊎ Emits F D j st.ttl

module _ {F D : Type 0} (files : Bytes → Option Bytes) (h : Hashes) (s : Services F D) where
  -- A turn commits nothing.
  Turn-committed :
      (w : DocWork) (st st' : RunState F) (j : Bytes)
      → has_reached 6 (stage_of w.doc_id st.manifest) ≡ false
      → Turn files h s w st st'
      → has_reached 6 (stage_of j st'.manifest) ≡ has_reached 6 (stage_of j st.manifest)
  Turn-committed w st st' j low t = elim (Bool-cases (bytes_eq w.doc_id j)) [
    | inl same ↦
        subst
          (λ k. has_reached 6 (stage_of k st'.manifest) ≡ has_reached 6 (stage_of k st.manifest))
          ((bytes_eq_iff w.doc_id j).0 same) (own t ∙ sym low)
    | inr other ↦ ap (has_reached 6) (others t other)
  ]
    where
      own : Turn files h s w st st' → has_reached 6 (stage_of w.doc_id st'.manifest) ≡ false
      own (inl (e, lower)) = elim (Bool-cases (has_reached 6 (stage_of w.doc_id st'.manifest))) [
        | inl up ↦ let before = lower.own 6 (omega arith) up in absurd (ground arith)
        | inr down ↦ down
      ]
      own (inr done) = elim (Bool-cases (has_reached 6 (stage_of w.doc_id st'.manifest))) [
        | inl up ↦ elim (done.own 6 (omega arith) up) [
          | inl e ↦ absurd (omega arith)
          | inr before ↦ absurd (ground arith)
        ]
        | inr down ↦ down
      ]

      others :
          Turn files h s w st st'
          → bytes_eq w.doc_id j ≡ false
          → stage_of j st'.manifest ≡ stage_of j st.manifest
      others (inl (e, lower)) other = lower.others j other
      others (inr done) other = done.others j other

  appended :
      (w : DocWork) (st st' : RunState F)
      → IsAppended files h s w st st'
      → Emits F D w.doc_id st'.ttl
  appended w st st' done = record {
    before = st.ttl;
    piece = turtle_of files h s (record w { chunks = done.chunks });
    after = [];
    turtle = record {
      files = files;
      hashes = h;
      services = s;
      work = record w { chunks = done.chunks };
      same_id = refl;
      some_chunk = done.some_chunk;
      text = refl;
    };
    whole =
        done.new_ttl
        ∙ ap (◌++◌ st.ttl)
            (sym (append-nil (turtle_of files h s (record w { chunks = done.chunks }))));
  }

  -- A document above `vectors_written` was so before the loop, or has its text in the run's.
  abbrev Known : Manifest → RunState F → Bytes → Type 0
  Known m st j = (has_reached 4 (stage_of j m) ≡ true) ⊎ Emits F D j st.ttl

  Turn-written :
      (m : Manifest) (w : DocWork) (st st' : RunState F) (j : Bytes)
      → IsLoop F D m st
      → Turn files h s w st st'
      → has_reached 4 (stage_of j st'.manifest) ≡ true
      → Known m st' j
  Turn-written m w st st' j loop (inl (e, lower)) up =
      let before : has_reached 4 (stage_of j st.manifest) ≡ true =
        elim (Bool-cases (bytes_eq w.doc_id j)) [
          | inl same ↦
              subst
                (λ k.
                  has_reached 4 (stage_of k st'.manifest) ≡ true
                  → has_reached 4 (stage_of k st.manifest) ≡ true)
                ((bytes_eq_iff w.doc_id j).0 same) (lower.own 4 (omega arith)) up
          | inr other ↦ subst (λ x. has_reached 4 x ≡ true) (lower.others j other) up
        ] in
      subst (λ t. (has_reached 4 (stage_of j m) ≡ true) ⊎ Emits F D j t) (sym e)
        (loop.written j before)
  Turn-written m w st st' j loop (inr done) up = elim (Bool-cases (bytes_eq w.doc_id j)) [
    | inl same ↦ inr (
        subst (λ k. Emits F D k st'.ttl) ((bytes_eq_iff w.doc_id j).0 same)
          (appended w st st' done))
    | inr other ↦
        elim (loop.written j (subst (λ x. has_reached 4 x ≡ true) (done.others j other) up)) [
          | inl old ↦ inl old
          | inr there ↦
              inr (subst (Emits F D j) (sym done.new_ttl) (Emits-append F D j st.ttl _ there))
        ]
  ]

  process-IsLoop :
      (m : Manifest) (w : DocWork) (st : RunState F)
      → IsLoop F D m st
      → IsLoop F D m (process files h s w st)
  process-IsLoop m w st loop = elim (process-Turn files h s w st) [
    | inl same ↦ subst (IsLoop F D m) (sym same) loop
    | inr (low, t) ↦ record {
      same_committed = λ j. Turn-committed w st _ j low t ∙ loop.same_committed j;
      written = λ j. Turn-written m w st _ j loop t;
    }
  ]

  process_all-IsLoop_from :
      (m : Manifest) (ws : List DocWork) (st : RunState F)
      → IsLoop F D m st
      → IsLoop F D m (process_all files h s ws st)
  unfolding process_all
  process_all-IsLoop_from m [] st loop = loop
  process_all-IsLoop_from m (w ∷ ws) st loop =
      process_all-IsLoop_from m ws (process files h s w st) (process-IsLoop m w st loop)

  -- The loop commits nothing, and what it marks as written is in its text.
  pub process_all-IsLoop :
      (ws : List DocWork) (st : RunState F) → IsLoop F D st.manifest (process_all files h s ws st)
  process_all-IsLoop ws st =
      process_all-IsLoop_from st.manifest ws st
        record { same_committed = λ j. refl; written = λ j up. inl up }
