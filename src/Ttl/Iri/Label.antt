-- ===== src/Ttl/Iri/Label.antt =====
-- A relation's label is the slug of its predicate, with underscores for hyphens.
use chimera_ape.Base.{
  ℕ, ◌≡◌, ◌≢◌, refl, Bool, true, false, not, ◌&&◌, ◌⊎◌, inl, inr, [], ◌∷◌, ◌++◌, map, append-nil,
  arith, ◌==◌, if◌then◌else◌, Bool-cases, Bytes, codes, is_empty, isalnum, tolower,
}
use mathlib.Core.List.{map-append}
use chimera_ape.Util.Slug.{SlugState, slug_byte, slug_bytes, slugify}
use chimera_ape.Ttl.Iri.{ends_open, rel_byte, rel_bytes, strip_back, or_related, rel_label}

abbrev pub underscore : ℕ → ℕ
underscore c = if c == b'-' then b'_' else c

abbrev pending_bytes : Bool → Bytes
pending_bytes true = b'_' ∷ []
pending_bytes false = []

-- A byte that is neither a hyphen nor an underscore.
abbrev IsLetter : ℕ → Type 0
IsLetter c = (c ≢ b'-') × (c ≢ b'_')

-- The two loops in step: nothing is written yet, or the slug ends in a letter and the label is the
-- slug with underscores, and one more where a hyphen is pending.
abbrev InStep : Bytes → SlugState → Type 0
InStep p st =
    ((st.out ≡ []) × (p ≡ []))
    ⊎ ((xs : Bytes) × (w : ℕ) × IsLetter w
        × (st.out ≡ xs ++ w ∷ [])
        × (p ≡ (map underscore xs ++ w ∷ []) ++ pending_bytes st.pending_dash))

ends_open-concat : (xs : Bytes) (c : ℕ) → ends_open (xs ++ c ∷ []) ≡ not (c == b'_')
unfolding ends_open
ends_open-concat [] c = refl
ends_open-concat (x ∷ []) c = refl
ends_open-concat (x ∷ y ∷ xs) c = ends_open-concat (y ∷ xs) c

is_empty-concat : (xs : Bytes) (c : ℕ) → is_empty (xs ++ c ∷ []) ≡ false
is_empty-concat [] c = refl
is_empty-concat (x ∷ xs) c = refl

tolower-IsLetter : (c : ℕ) → isalnum c ≡ true → IsLetter (tolower c)
unfolding isalnum tolower
tolower-IsLetter c h = ground arith

underscore-IsLetter : (w : ℕ) → IsLetter w → underscore w ≡ w
underscore-IsLetter w h = ground arith

map-underscore-concat :
    (xs : Bytes) (w : ℕ) → IsLetter w → map underscore (xs ++ w ∷ []) ≡ map underscore xs ++ w ∷ []
map-underscore-concat xs w l = rw (map-append, underscore-IsLetter w l)

-- A letter is read, with what the slug had pending.
letter-InStep :
    (t : ℕ) (p out : Bytes) (pending : Bool)
    → IsLetter t
    → InStep p (record { out = out; pending_dash = pending })
    → InStep (p ++ t ∷ []) (record {
      out = (if pending && not (is_empty out) then out ++ b'-' ∷ [] else out) ++ t ∷ [];
      pending_dash = false;
    })
letter-InStep t p out true l (inl (eo, ep)) = rw (eo, ep) (inr ([], t, l, refl, refl))
letter-InStep t p out false l (inl (eo, ep)) = rw (eo, ep) (inr ([], t, l, refl, refl))
letter-InStep t p out true l (inr (xs, w, lw, eo, ep)) =
    rw (eo, ep, is_empty-concat xs w)
      (inr (
        (xs ++ w ∷ []) ++ b'-' ∷ [],
        t,
        l,
        refl,
        rw (map-append, map-underscore-concat xs w lw, append-nil),
      ))
letter-InStep t p out false l (inr (xs, w, lw, eo, ep)) =
    rw (eo, ep)
      (inr (xs ++ w ∷ [], t, l, refl, rw (map-underscore-concat xs w lw, append-nil, append-nil)))

-- Any other byte is read.
other-InStep :
    (p out : Bytes) (pending : Bool)
    → InStep p (record { out = out; pending_dash = pending })
    → InStep (if ends_open p then p ++ b'_' ∷ [] else p) (record { out = out; pending_dash = true })
other-InStep p out pending (inl (eo, ep)) = rw (eo, ep) (unfold ends_open in inl (refl, refl))
other-InStep p out true (inr (xs, w, lw, eo, ep)) =
    rw (eo, ep, ends_open-concat (map underscore xs ++ w ∷ []) b'_') (inr (xs, w, lw, refl, refl))
other-InStep p out false (inr (xs, w, lw, eo, ep)) =
    let e : (w == b'_') ≡ false = ground arith in
    rw (eo, ep, append-nil, ends_open-concat (map underscore xs) w, e) (inr (xs, w, lw, refl, refl))

step-InStep :
    (c : ℕ) (p : Bytes) (st : SlugState) → InStep p st → InStep (rel_byte c p) (slug_byte c st)
unfolding rel_byte slug_byte
step-InStep c p st h = elim (Bool-cases (isalnum c)) [
  | inl alnum ↦
      rw alnum (letter-InStep (tolower c) p st.out st.pending_dash (tolower-IsLetter c alnum) h)
  | inr other ↦ rw other (other-InStep p st.out st.pending_dash h)
]

bytes-InStep :
    (s p : Bytes) (st : SlugState) → InStep p st → InStep (rel_bytes s p) (slug_bytes s st)
unfolding rel_bytes slug_bytes
bytes-InStep [] p st h = h
bytes-InStep (c ∷ s) p st h = bytes-InStep s (rel_byte c p) (slug_byte c st) (step-InStep c p st h)

-- What is stripped is what was pending.
strip_back-letter :
    (xs : Bytes) (w : ℕ) (pending : Bool)
    → IsLetter w
    → strip_back ((xs ++ w ∷ []) ++ pending_bytes pending) ≡ xs ++ w ∷ []
unfolding strip_back
strip_back-letter [] w true l = ground arith
strip_back-letter [] w false l = ground arith
strip_back-letter (x ∷ xs) w pending l = rw (strip_back-letter xs w pending l, is_empty-concat xs w)

label-slug :
    (p : Bytes) (st : SlugState)
    → InStep p st
    → or_related (strip_back p) ≡ or_related (map underscore st.out)
label-slug p st (inl (eo, ep)) = rw (eo, ep) (unfold strip_back in refl)
label-slug p st (inr (xs, w, l, eo, ep)) = rw (
  eo,
  ep,
  strip_back-letter (map underscore xs) w st.pending_dash l,
  map-underscore-concat xs w l,
)

-- The label of a relation is the slug of its predicate with each hyphen made an underscore, and
-- `related_to` where the slug is empty.
pub rel_label-slugify :
    (s : Bytes)
    → rel_label s ≡ (
        let label = map underscore (slugify s) in
        if is_empty label then codes "related_to" else label)
unfolding rel_label slugify
rel_label-slugify s =
    label-slug (rel_bytes s []) (slug_bytes s (record { out = []; pending_dash = false }))
      (bytes-InStep s [] (record { out = []; pending_dash = false }) (inl (refl, refl)))
