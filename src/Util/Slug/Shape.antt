-- ===== src/Util/Slug/Shape.antt =====
-- What a slug looks like: words of lower-case letters and digits, single hyphens between them.
use chimera_ape.Base.{
  ℕ, ◌≡◌, refl, Bool, true, false, not, ◌&&◌, ◌||◌, inl, inr, [], ◌∷◌, ◌++◌, arith, leb,
  if◌then◌else◌, Bool-cases, Bytes, is_empty, isalnum, tolower,
}
use chimera_ape.Util.Slug.{SlugState, slug_byte, slug_bytes, slugify}

-- A byte of a slug's word.
abbrev pub is_word : ℕ → Bool
is_word c = leb b'0' c && leb c b'9' || leb b'a' c && leb c b'z'

-- The rest of a slug. The flag says that a word's byte must come next: at the start, and after a
-- hyphen.
pub data SlugTail : Bool → Bytes → Type 0 where
  stop : SlugTail false []
  word : {b : Bool} {c : ℕ} {s : Bytes} → is_word c ≡ true → SlugTail false s → SlugTail b (c ∷ s)
  dash : {c : ℕ} {s : Bytes} → c ≡ b'-' → SlugTail true s → SlugTail false (c ∷ s)

-- Empty, or words with single hyphens between them.
abbrev pub IsSlug : Bytes → Type 0
IsSlug [] = Unit
IsSlug (c ∷ s) = SlugTail true (c ∷ s)

tolower-is_word : (c : ℕ) → isalnum c ≡ true → is_word (tolower c) ≡ true
unfolding isalnum tolower
tolower-is_word c h = ground arith

SlugTail-word :
    {b : Bool} {s : Bytes} (c : ℕ) → SlugTail b s → is_word c ≡ true → SlugTail b (s ++ c ∷ [])
SlugTail-word c stop h = word h stop
SlugTail-word c (word w t) h = word w (SlugTail-word c t h)
SlugTail-word c (dash e t) h = dash e (SlugTail-word c t h)

SlugTail-dash-word :
    {b : Bool} {s : Bytes} (c : ℕ)
    → SlugTail b s
    → is_word c ≡ true
    → SlugTail b ((s ++ b'-' ∷ []) ++ c ∷ [])
SlugTail-dash-word c stop h = dash refl (word h stop)
SlugTail-dash-word c (word w t) h = word w (SlugTail-dash-word c t h)
SlugTail-dash-word c (dash e t) h = dash e (SlugTail-dash-word c t h)

slug_byte-IsSlug : (c : ℕ) (st : SlugState) → IsSlug st.out → IsSlug (slug_byte c st).out
unfolding slug_byte
slug_byte-IsSlug c st h = elim (Bool-cases (isalnum c)) [
  | inr other ↦ rw other h
  | inl alnum ↦ rw alnum (push st.out st.pending_dash (tolower-is_word c alnum) h)
]
  where
    push :
        (out : Bytes) (pending : Bool)
        → is_word (tolower c) ≡ true
        → IsSlug out
        → IsSlug
            ((if pending && not (is_empty out) then out ++ b'-' ∷ [] else out) ++ tolower c ∷ [])
    push [] true w h = word w stop
    push [] false w h = word w stop
    push (x ∷ xs) true w h = SlugTail-dash-word (tolower c) h w
    push (x ∷ xs) false w h = SlugTail-word (tolower c) h w

slug_bytes-IsSlug : (s : Bytes) (st : SlugState) → IsSlug st.out → IsSlug (slug_bytes s st).out
unfolding slug_bytes
slug_bytes-IsSlug [] st h = h
slug_bytes-IsSlug (c ∷ s) st h = slug_bytes-IsSlug s (slug_byte c st) (slug_byte-IsSlug c st h)

-- Every slug is empty, or words of lower-case letters and digits with single hyphens between them.
pub slugify-IsSlug : (s : Bytes) → IsSlug (slugify s)
unfolding slugify
slugify-IsSlug s = slug_bytes-IsSlug s (record { out = []; pending_dash = false }) tt
