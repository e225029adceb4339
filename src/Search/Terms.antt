-- ===== src/Search/Terms.antt =====
-- What the salient terms of a query are.
use chimera_ape.Base.{
  ℕ, zero, suc, ◌≤◌, ◌≡◌, true, ◌⊎◌, List, [], ◌∷◌, arith, ltb, ltb→lt, ltb→le, if-cases, Bytes,
  bytes_eq, length, take, All, All-append, isalnum, tolower, isupper, isdigit, bytes_eq_iff, false,
  length-take,
}
use chimera_ape.Walk.Names.{is_one_of}
use chimera_ape.Search.{
  stop_words, TermState, is_term, flush, term_byte, term_bytes, insert_term, sort_terms,
  unique_after, unique, salient_terms,
}

-- A lower-case letter or a digit.
abbrev IsWordByte : ℕ → Type 0
IsWordByte c = ((b'a' ≤ c) × (c ≤ b'z')) ⊎ ((b'0' ≤ c) × (c ≤ b'9'))

-- A word of at least three bytes that is no stop word.
pub record IsTerm (t : Bytes) : Type 0 where
  pub word : All IsWordByte t
  pub long : 3 ≤ length t
  pub significant : All (λ s. ¬ (t ≡ s)) stop_words

-- No term is longer than one before it.
abbrev pub Descending : List Bytes → Type 0
Descending [] = Unit
Descending (x ∷ xs) = All (λ (y : Bytes). length y ≤ length x) xs × Descending xs

tolower-IsWordByte : (c : ℕ) → isalnum c ≡ true → IsWordByte (tolower c)
unfolding isalnum tolower isupper isdigit
tolower-IsWordByte c h = ground arith

not_one_of : (t : Bytes) (ss : List Bytes) → is_one_of t ss ≡ false → All (λ s. ¬ (t ≡ s)) ss
unfolding is_one_of
not_one_of t [] h = tt
not_one_of t (s ∷ ss) h = (
  (λ e. let same = (bytes_eq_iff t s).1 e in ground (arith, same, h)),
  not_one_of t ss (ground (arith, h)),
)

-- What is read so far are terms, and a word that goes on.
record IsReading (st : TermState) : Type 0 where
  current : All IsWordByte st.cur
  all_terms : All IsTerm st.terms

flush-IsReading : (st : TermState) → IsReading st → IsReading (flush st)
unfolding flush is_term
flush-IsReading st r =
    if-cases IsReading (is_term st.cur) _ _
      (λ h. record {
        current = tt;
        all_terms = All-append IsTerm st.terms (st.cur ∷ []) r.all_terms (
          record {
            word = r.current;
            long = ground (arith, h);
            significant = not_one_of st.cur stop_words (ground (arith, h));
          },
          tt,
        );
      })
      (λ _. record { current = tt; all_terms = r.all_terms })

term_byte-IsReading : (c : ℕ) (st : TermState) → IsReading st → IsReading (term_byte c st)
unfolding term_byte
term_byte-IsReading c st r =
    if-cases IsReading (isalnum c) _ _
      (λ h. record {
        current = All-append IsWordByte st.cur _ r.current (tolower-IsWordByte c h, tt);
        all_terms = r.all_terms;
      })
      (λ _. flush-IsReading st r)

term_bytes-IsReading : (q : Bytes) (st : TermState) → IsReading st → IsReading (term_bytes q st)
unfolding term_bytes
term_bytes-IsReading [] st r = r
term_bytes-IsReading (c ∷ q) st r =
    term_bytes-IsReading q (term_byte c st) (term_byte-IsReading c st r)

module _ (P : Bytes → Type 0) where
  All-insert_term : (x : Bytes) (xs : List Bytes) → P x → All P xs → All P (insert_term x xs)
  unfolding insert_term
  All-insert_term x [] p h = (p, tt)
  All-insert_term x (y ∷ ys) p h =
      if-cases (All P) (ltb (length x) (length y)) _ _ (λ _. (h.0, All-insert_term x ys p h.1))
        (λ _. (p, h))

  All-sort_terms : (xs : List Bytes) → All P xs → All P (sort_terms xs)
  unfolding sort_terms
  All-sort_terms [] h = tt
  All-sort_terms (x ∷ xs) h = All-insert_term x (sort_terms xs) h.0 (All-sort_terms xs h.1)

  All-unique_after : (x : Bytes) (xs : List Bytes) → All P xs → All P (unique_after x xs)
  unfolding unique_after
  All-unique_after x [] h = tt
  All-unique_after x (y ∷ ys) h =
      if-cases (All P) (bytes_eq x y) _ _ (λ _. All-unique_after x ys h.1)
        (λ _. (h.0, All-unique_after y ys h.1))

  All-take : (n : ℕ) (xs : List Bytes) → All P xs → All P (take n xs)
  All-take zero xs h = tt
  All-take (suc n) [] h = tt
  All-take (suc n) (x ∷ xs) h = (h.0, All-take n xs h.1)

All-le :
    (m n : ℕ) (xs : List Bytes)
    → m ≤ n
    → All (λ (y : Bytes). length y ≤ m) xs
    → All (λ (y : Bytes). length y ≤ n) xs
All-le m n [] le h = tt
All-le m n (x ∷ xs) le h = (omega (arith, h.0), All-le m n xs le h.1)

insert_term-Descending :
    (x : Bytes) (xs : List Bytes) → Descending xs → Descending (insert_term x xs)
unfolding insert_term
insert_term-Descending x [] d = (tt, tt)
insert_term-Descending x (y ∷ ys) d =
    if-cases Descending (ltb (length x) (length y)) _ _
      (λ e. (
        All-insert_term (λ (z : Bytes). length z ≤ length y) x ys (omega (arith, ltb→lt _ _ e)) d.0,
        insert_term-Descending x ys d.1,
      ))
      (λ e.
        let le : length y ≤ length x = ltb→le (length x) (length y) e in
        ((le, All-le (length y) (length x) ys le d.0), d))

sort_terms-Descending : (xs : List Bytes) → Descending (sort_terms xs)
unfolding sort_terms
sort_terms-Descending [] = tt
sort_terms-Descending (x ∷ xs) = insert_term-Descending x (sort_terms xs) (sort_terms-Descending xs)

unique_after-Descending :
    (x : Bytes) (xs : List Bytes) → Descending xs → Descending (unique_after x xs)
unfolding unique_after
unique_after-Descending x [] d = tt
unique_after-Descending x (y ∷ ys) d =
    if-cases Descending (bytes_eq x y) _ _ (λ _. unique_after-Descending x ys d.1)
      (λ _. (
        All-unique_after (λ (z : Bytes). length z ≤ length y) y ys d.0,
        unique_after-Descending y ys d.1,
      ))

take-Descending : (n : ℕ) (xs : List Bytes) → Descending xs → Descending (take n xs)
take-Descending zero xs d = tt
take-Descending (suc n) [] d = tt
take-Descending (suc n) (x ∷ xs) d =
    (All-take (λ (y : Bytes). length y ≤ length x) n xs d.0, take-Descending n xs d.1)

unique-both :
    (xs : List Bytes)
    → All IsTerm xs
    → Descending xs
    → All IsTerm (unique xs) × Descending (unique xs)
unfolding unique
unique-both [] h d = (tt, tt)
unique-both (x ∷ xs) h d = (
  (h.0, All-unique_after IsTerm x xs h.1),
  (
    All-unique_after (λ (y : Bytes). length y ≤ length x) x xs d.0,
    unique_after-Descending x xs d.1,
  ),
)

-- The salient terms of a query are words of lower-case letters and digits, of at least three bytes and
-- no stop words, at most the number asked for, and none is longer than one before it.
pub salient_terms-Descending :
    (q : Bytes) (max_terms : ℕ)
    → All IsTerm (salient_terms q max_terms)
      × Descending (salient_terms q max_terms)
      × (length (salient_terms q max_terms) ≤ max_terms)
unfolding salient_terms
salient_terms-Descending q max_terms =
    let last = term_bytes q (record { cur = []; terms = [] }) in
    let st = flush last in
    let first : IsReading (record { cur = []; terms = [] }) = record {
      current = tt;
      all_terms = tt;
    } in
    let words = flush-IsReading last (term_bytes-IsReading q _ first) in
    let sorted = sort_terms st.terms in
    let (h, d) =
      unique-both sorted (All-sort_terms IsTerm st.terms words.all_terms)
        (sort_terms-Descending st.terms) in
    (
      All-take IsTerm max_terms (unique sorted) h,
      take-Descending max_terms (unique sorted) d,
      omega (arith, length-take max_terms (unique sorted)),
    )
