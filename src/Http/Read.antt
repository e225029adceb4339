-- ===== src/Http/Read.antt =====
-- src/http.cpp: how a response is put together from the pieces in which it arrives.
use mathlib.Core.Path.{subst}
use chimera_ape.Base.{
  ℕ, zero, suc, ◌+◌, ◌≤◌, ◌<◌, ◌≡◌, ◌≢◌, ◌⊎◌, inl, inr, refl, sym, ◌∙◌, ap, arith, true, false,
  Option, none, some, List, [], ◌∷◌, ◌++◌, append_assoc, append-nil, map, leb, ◌&&◌, ◌==◌, Bytes,
  starts_with, find, length, take, stream, tolower, All, length-append, Bool-cases, Option-cases,
}
use chimera_ape.Util.Strtol.{ℤ, pos, negsuc}
use chimera_ape.Http.{
  Recv, got, failed, closed, ReadState, blank_line, announced, announced_in, unknown, is_whole,
  append_bytes, read_loop, read_response,
}

starts_with-append :
    (p s t : Bytes) → length p ≤ length s → starts_with p (s ++ t) ≡ starts_with p s
unfolding starts_with
starts_with-append [] s t h = refl
starts_with-append (x ∷ p) [] t h = absurd (omega arith)
starts_with-append (x ∷ p) (c ∷ s) t h =
    ap (λ b. x == c && b) (starts_with-append p s t (omega arith))

starts_with-length : (p s : Bytes) → starts_with p s ≡ true → length p ≤ length s
unfolding starts_with
starts_with-length [] s h = omega arith
starts_with-length (x ∷ p) [] h = absurd (ground arith)
starts_with-length (x ∷ p) (c ∷ s) h = ground (arith, starts_with-length p s)

-- Where a nonempty text is found: here, or one further in the rest.
find-cases :
    (x : ℕ) (q : Bytes) (c : ℕ) (s : Bytes) (k : ℕ)
    → find (x ∷ q) (c ∷ s) ≡ some k
    → ((starts_with (x ∷ q) (c ∷ s) ≡ true) × (k ≡ 0))
      ⊎ ((starts_with (x ∷ q) (c ∷ s) ≡ false)
          × ((j : ℕ) × (find (x ∷ q) s ≡ some j) × (k ≡ suc j)))
unfolding find
find-cases x q c s k h = elim (Bool-cases (starts_with (x ∷ q) (c ∷ s))) [
  | inl e ↦ inl (e, ground (arith, h, e))
  | inr e ↦ elim (Option-cases (find (x ∷ q) s)) [
    | inl n ↦ absurd (ground (arith, h, e, n))
    | inr (j, f) ↦ inr (e, (j, f, ground (arith, h, e, f)))
  ]
]

find-bound : (x : ℕ) (q s : Bytes) (k : ℕ) → find (x ∷ q) s ≡ some k → k + length (x ∷ q) ≤ length s
find-bound x q [] k h = absurd (unfold find starts_with in ground (arith, h))
find-bound x q (c ∷ s) k h = elim (find-cases x q c s k h) [
  | inl (e, z) ↦ omega (arith, starts_with-length (x ∷ q) (c ∷ s) e)
  | inr (e, (j, f, z)) ↦ omega (arith, find-bound x q s j f)
]

-- More bytes do not move what has been found.
find-append :
    (x : ℕ) (q s t : Bytes) (k : ℕ) → find (x ∷ q) s ≡ some k → find (x ∷ q) (s ++ t) ≡ some k
unfolding find
find-append x q [] t k h = absurd (unfold starts_with in ground (arith, h))
find-append x q (c ∷ s) t k h = elim (find-cases x q c s k h) [
  | inl (e, z) ↦
      rw (starts_with-append (x ∷ q) (c ∷ s) t (starts_with-length (x ∷ q) (c ∷ s) e), e, z) refl
  | inr (e, (j, f, z)) ↦
      rw
        (
          starts_with-append (x ∷ q) (c ∷ s) t (omega (arith, find-bound x q s j f)),
          e,
          find-append x q s t j f,
          z,
        )
        refl
]

take-length-append : {A : Type 0} (n : ℕ) (s t : List A) → n ≤ length s → take n (s ++ t) ≡ take n s
take-length-append zero s t h = refl
take-length-append (suc n) [] t h = absurd (omega arith)
take-length-append (suc n) (x ∷ s) t h = ap (◌∷◌ x) (take-length-append n s t (omega arith))

-- The total that the bytes read so far announce.
abbrev total_at : Bytes → Option ℕ → ℤ
total_at s none = unknown
total_at s (some h) = announced s h

-- What a response announces as its size, header included.
unfoldable pub total : Bytes → ℤ
unfolding find announced
total s = total_at s (find blank_line s)

-- The client's state after the bytes `s`.
abbrev after : Bytes → ReadState
after s = record { buf = s; want = total s; header_end = find blank_line s }

announced-append : (s t : Bytes) (h : ℕ) → h ≤ length s → announced (s ++ t) h ≡ announced s h
unfolding announced
announced-append s t h le = ap (λ b. announced_in (map tolower b) h) (take-length-append h s t le)

total-append : (s t : Bytes) (h : ℕ) → find blank_line s ≡ some h → total (s ++ t) ≡ total s
unfolding total
total-append s t h e =
    rw (find-append 13 (10 ∷ 13 ∷ 10 ∷ []) s t h e, e)
      (announced-append s t h (omega (arith, find-bound 13 (10 ∷ 13 ∷ 10 ∷ []) s h e)))

append_bytes-after : (s t : Bytes) → append_bytes t (after s) ≡ after (s ++ t)
unfolding append_bytes total
append_bytes-after s t = elim (Option-cases (find blank_line s)) [
  | inl n ↦ elim (Option-cases (find blank_line (s ++ t))) [
    | inl n' ↦ rw (n, append_bytes) (rw n' (rw n refl))
    | inr (h, e) ↦ rw (n, append_bytes) (rw e refl)
  ]
  | inr (h, e) ↦
      rw (e, append_bytes)
        (rw (find-append 13 (10 ∷ 13 ∷ 10 ∷ []) s t h e) (
          rw e (
            rw (announced-append s t h (omega (arith, find-bound 13 (10 ∷ 13 ∷ 10 ∷ []) s h e)))
              refl)))
]

-- The pieces in the order of arrival.
abbrev pub arriving : List Bytes → List Recv → List Recv
arriving [] evs = evs
arriving (b ∷ bs) evs = got b ∷ arriving bs evs

-- The response ends where its header says, or the connection is closed after it.
pub data Ends (raw : Bytes) : List Recv → Type 0 where
  by_length : {evs : List Recv} → total raw ≡ pos (length raw) → Ends raw evs
  by_close : {evs : List Recv} → Ends raw (closed ∷ evs)

read_loop-whole :
    (st : ReadState) (evs : List Recv)
    → is_whole st.want st.buf ≡ true
    → read_loop evs st ≡ some st.buf
unfolding read_loop
read_loop-whole st [] h = rw h refl
read_loop-whole st (failed ∷ evs) h = rw h refl
read_loop-whole st (closed ∷ evs) h = refl
read_loop-whole st (got b ∷ evs) h = rw h refl

lebb : (n : ℕ) → leb n n ≡ true
lebb n = ground arith

read_loop-Ends :
    (raw : Bytes) (evs : List Recv) → Ends raw evs → read_loop evs (after raw) ≡ some raw
unfolding read_loop
read_loop-Ends raw evs (by_length e) = read_loop-whole (after raw) evs (rw e (lebb (length raw)))
read_loop-Ends raw (closed ∷ evs) by_close = refl

append-some : (a b : Bytes) → a ≢ [] → a ++ b ≢ []
append-some [] b h = absurd (h refl)
append-some (x ∷ a) b h = λ e. cc

positive : (t : Bytes) → t ≢ [] → 0 < length t
positive [] h = absurd (h refl)
positive (x ∷ t) h = omega arith

not_whole :
    (want : ℤ) (s : Bytes) (size : ℕ)
    → ((n : ℕ) → want ≡ pos n → size ≤ n)
    → length s < size
    → is_whole want s ≡ false
not_whole (pos n) s size enough less = let le = enough n refl in ground (arith, le, less)
not_whole (negsuc n) s size enough less = refl

-- Bytes are missing: the loop goes on.
part-unfinished :
    (s t : Bytes)
    → t ≢ []
    → ((n : ℕ) → total (s ++ t) ≡ pos n → length (s ++ t) ≤ n)
    → is_whole (total s) s ≡ false
unfolding total
part-unfinished s t some_byte enough = elim (Option-cases (find blank_line s)) [
  | inl n ↦ rw (n, total) refl
  | inr (h, e) ↦
      not_whole (total s) s (length (s ++ t)) (λ n f. enough n (total-append s t h e ∙ f))
        (omega (arith, length-append s t, positive t some_byte))
]

read_loop-arriving :
    (bs : List Bytes) (s raw : Bytes) (evs : List Recv)
    → All (λ b. b ≢ []) bs
    → s ++ stream bs ≡ raw
    → ((n : ℕ) → total raw ≡ pos n → length raw ≤ n)
    → Ends raw evs
    → read_loop (arriving bs evs) (after s) ≡ some raw
unfolding read_loop
read_loop-arriving [] s raw evs some_bytes e enough ends =
    rw (sym (append-nil s) ∙ e) (read_loop-Ends raw evs ends)
read_loop-arriving (b ∷ bs) s raw evs some_bytes e enough ends =
    let rest = b ++ stream bs in
    let waits =
      part-unfinished s rest (append-some b (stream bs) some_bytes.0)
        (subst (λ r. (n : ℕ) → total r ≡ pos n → length r ≤ n) (sym e) enough) in
    rw (waits, append_bytes-after s b)
      (read_loop-arriving bs (s ++ b) raw evs some_bytes.1 (append_assoc s b (stream bs) ∙ e) enough
        ends)

-- However a response is cut into pieces that are not empty, the bytes read are those of the
-- response, where its header announces no less than it has and either just its size or the
-- connection is closed after it.
pub read_response-arriving :
    (bs : List Bytes) (evs : List Recv)
    → All (λ b. b ≢ []) bs
    → ((n : ℕ) → total (stream bs) ≡ pos n → length (stream bs) ≤ n)
    → Ends (stream bs) evs
    → read_response (arriving bs evs) ≡ some (stream bs)
unfolding read_response total
read_response-arriving bs evs some_bytes enough ends =
    read_loop-arriving bs [] (stream bs) evs some_bytes refl enough ends
