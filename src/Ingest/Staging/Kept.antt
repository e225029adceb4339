-- ===== src/Ingest/Staging/Kept.antt =====
-- What is staged stays staged until it is loaded.
use mathlib.Core.Path.{subst}
use chimera_ape.Base.{
  ℕ, suc, ◌+◌, ◌-◌, ◌≡◌, refl, sym, Bool, true, false, List, [], ◌∷◌, ◌++◌, arith, Bytes, codes,
  bytes_eq, bytes_eq_iff, is_empty, length, drop, Any, inl, inr, if-cases, length-append,
}
use chimera_ape.Util.Decimal.{decimal}
use chimera_ape.Ingest.Staging.{
  StagingFile, is_ttl, is_source, bulk_name, append_to, overwrite, contents_of, run_name,
}

drop-append : (a b : Bytes) → drop (length a) (a ++ b) ≡ b
drop-append [] b = refl
drop-append (c ∷ a) b = drop-append a b

is_ttl-append :
    (stem text : Bytes)
    → is_empty stem ≡ false
    → is_ttl record { name = stem ++ codes ".ttl"; contents = text } ≡ true
unfolding is_ttl bytes_eq
is_ttl-append [] text h = absurd (ground arith)
is_ttl-append (c ∷ stem) text h =
    let all : length (stem ++ codes ".ttl") ≡ length stem + 4 = length-append stem (codes ".ttl") in
    let start : suc (length (stem ++ codes ".ttl")) - 4 ≡ suc (length stem) = omega (arith, all) in
    rw (start, drop-append stem (codes ".ttl")) (ground (arith, all))

-- The text of a run is read again by every later run until it is loaded.
pub is_source-run_name :
    (pid : ℕ) (text : Bytes) → is_source record { name = run_name pid; contents = text } ≡ true
unfolding is_source bytes_eq
is_source-run_name pid text = rw (is_ttl-append (codes "run-" ++ decimal pid) text refl) refl

same_name :
    (f : StagingFile) (text : Bytes)
    → is_source f ≡ true
    → is_source record f { contents = text } ≡ true
unfolding is_source is_ttl
same_name f text h = h

module _ (P : Bytes → Type 0) where
  -- Some file that the bulk text is made from has the property.
  abbrev pub Staged : List StagingFile → Type 0
  Staged fs = Any (λ (f : StagingFile). (is_source f ≡ true) × P f.contents) fs

  pub Staged-contents_of :
      (p : StagingFile → Bool) (fs : List StagingFile)
      → ((f : StagingFile) → is_source f ≡ true → p f ≡ true)
      → Staged fs
      → Any P (contents_of p fs)
  unfolding contents_of
  Staged-contents_of p [] all h = elim h [ ]
  Staged-contents_of p (f ∷ fs) all (inl (source, h)) = rw (all f source) (inl h)
  Staged-contents_of p (f ∷ fs) all (inr h) =
      if-cases (Any P) (p f) _ _ (λ _. inr (Staged-contents_of p fs all h))
        (λ _. Staged-contents_of p fs all h)

  -- A text that grows at its end keeps the property.
  module _ (grows : (a b : Bytes) → P a → P (a ++ b)) where
    pub Staged-append_to :
        (name text : Bytes) (fs : List StagingFile) → Staged fs → Staged (append_to name text fs)
    unfolding append_to
    Staged-append_to name text [] h = elim h [ ]
    Staged-append_to name text (f ∷ fs) (inl (source, h)) =
        if-cases Staged (bytes_eq f.name name) _ _
          (λ _. inl (same_name f (f.contents ++ text) source, grows f.contents text h))
          (λ _. inl (source, h))
    Staged-append_to name text (f ∷ fs) (inr h) =
        if-cases Staged (bytes_eq f.name name) _ _ (λ _. inr h)
          (λ _. inr (Staged-append_to name text fs h))

  pub Staged-overwrite :
      (text : Bytes) (fs : List StagingFile) → Staged fs → Staged (overwrite bulk_name text fs)
  unfolding overwrite is_source
  Staged-overwrite text [] h = elim h [ ]
  Staged-overwrite text (f ∷ fs) (inl (source, h)) =
      if-cases Staged (bytes_eq f.name bulk_name) _ _ (λ bulk. absurd (ground arith))
        (λ _. inl (source, h))
  Staged-overwrite text (f ∷ fs) (inr h) =
      if-cases Staged (bytes_eq f.name bulk_name) _ _ (λ _. inr h)
        (λ _. inr (Staged-overwrite text fs h))

  -- What is written to the end of a source file is staged.
  pub append_to-Staged :
      (name text : Bytes) (fs : List StagingFile)
      → ((contents : Bytes) → is_source record { name = name; contents = contents } ≡ true)
      → ((a : Bytes) → P (a ++ text))
      → Staged (append_to name text fs)
  unfolding append_to
  append_to-Staged name text [] source h = inl (source text, h [])
  append_to-Staged name text (f ∷ fs) source h =
      if-cases Staged (bytes_eq f.name name) _ _
        (λ same. inl (
          subst (λ n. is_source record { name = n; contents = f.contents ++ text } ≡ true)
              (sym ((bytes_eq_iff f.name name).0 same)) (source (f.contents ++ text)),
          h f.contents,
        ))
        (λ _. inr (append_to-Staged name text fs source h))
