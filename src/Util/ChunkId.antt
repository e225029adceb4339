-- ===== src/Util/ChunkId.antt =====
-- src/util.h: `chunk_id`, the identifier `{docID}:{0001}` under which a chunk stands in every store.
use chimera_ape.Base.{
  ℕ, suc, ◌+◌, ◌≡◌, ◌≢◌, refl, sym, ap, ◌∙◌, some, [], ◌∷◌, ◌++◌, arith, ltb, if◌then◌else◌, Bytes,
  All, index_of, drop, length, some,
}
use chimera_ape.Util.Decimal.{decimal, atoi, atoi-decimal, atoi_zero}

-- `%04d`
pub pad4 : ℕ → Bytes
pad4 n =
    if ltb n 10
    then b'0' ∷ b'0' ∷ b'0' ∷ decimal n
    else if ltb n 100
    then b'0' ∷ b'0' ∷ decimal n
    else if ltb n 1000
    then b'0' ∷ decimal n
    else decimal n

unfoldable pub chunk_id : Bytes → ℕ → Bytes
unfolding pad4 decimal
chunk_id doc_id ordinal = doc_id ++ b':' ∷ pad4 ordinal

atoi-pad4 : (n : ℕ) → atoi (pad4 n) ≡ n
unfolding pad4
atoi-pad4 n = ground (
  arith,
  atoi-decimal n,
  atoi_zero (b'0' ∷ b'0' ∷ decimal n),
  atoi_zero (b'0' ∷ decimal n),
  atoi_zero (decimal n),
)

-- A document's identifier holds no colon.
abbrev pub HasNoColon : Bytes → Type 0
HasNoColon = All (λ c. c ≢ b':')

index_of-append :
    (doc rest : Bytes) → HasNoColon doc → index_of b':' (doc ++ b':' ∷ rest) ≡ some (length doc)
unfolding index_of
index_of-append [] rest h = refl
index_of-append (c ∷ doc) rest h = ground (arith, index_of-append doc rest h.1)

drop-length-append :
    (doc : Bytes) (c : ℕ) (rest : Bytes) → drop (length doc + 1) (doc ++ c ∷ rest) ≡ rest
drop-length-append [] c rest = refl
drop-length-append (d ∷ doc) c rest =
    let e : suc (length doc) + 1 ≡ suc (length doc + 1) = omega arith in
    rw e (drop-length-append doc c rest)

-- The first colon of a chunk's identifier ends the document's, and the number after it is the
-- ordinal.
pub chunk_id-parts :
    (doc : Bytes) (n : ℕ)
    → HasNoColon doc
    → (index_of b':' (chunk_id doc n) ≡ some (length doc))
      × (atoi (drop (length doc + 1) (chunk_id doc n)) ≡ n)
unfolding chunk_id
chunk_id-parts doc n h =
    (index_of-append doc (pad4 n) h, rw (drop-length-append doc b':' (pad4 n)) (atoi-pad4 n))

append-injective :
    (a b : Bytes) (x y : Bytes)
    → HasNoColon a
    → HasNoColon b
    → a ++ b':' ∷ x ≡ b ++ b':' ∷ y
    → (a ≡ b) × (x ≡ y)
append-injective [] [] x y ha hb e = (refl, cc)
append-injective [] (b ∷ bs) x y ha hb e = absurd (hb.0 (cc))
append-injective (a ∷ as') [] x y ha hb e = absurd (ha.0 (cc))
append-injective (a ∷ as') (b ∷ bs) x y ha hb e =
    let (p, q) = append-injective as' bs x y ha.1 hb.1 (cc) in (cc, q)

-- Two chunks have one identifier only if they are the same chunk of the same document.
pub chunk_id-injective :
    (doc doc' : Bytes) (n n' : ℕ)
    → HasNoColon doc
    → HasNoColon doc'
    → chunk_id doc n ≡ chunk_id doc' n'
    → (doc ≡ doc') × (n ≡ n')
unfolding chunk_id
chunk_id-injective doc doc' n n' h h' e =
    let (same_doc, same) = append-injective doc doc' (pad4 n) (pad4 n') h h' e in
    (same_doc, sym (atoi-pad4 n) ∙ ap atoi same ∙ atoi-pad4 n')
