-- ===== src/Ttl/Emit/Receipts.antt =====
-- The blank nodes of a chunk's relations.
use chimera_ape.Base.{
  ℕ, ◌≡◌, ◌≢◌, refl, sym, ap, ◌∙◌, true, [], ◌∷◌, ◌++◌, map, append-nil, arith, Bytes, codes, All,
  isdigit, All-append,
}
use mathlib.Core.List.{map-append, append_cancel_left}
use chimera_ape.Util.Decimal.{decimal, decimal-isdigit, atoi, atoi-decimal}
use chimera_ape.Ttl.Emit.{no_colon, relation_node}

no_colon-digits : (s : Bytes) → All (λ c. isdigit c ≡ true) s → map no_colon s ≡ s
unfolding isdigit
no_colon-digits [] h = refl
no_colon-digits (c ∷ s) h = let e : no_colon c ≡ c = ground arith in rw (e, no_colon-digits s h.1)

no_colon-ne : (s : Bytes) → All (λ c. c ≢ b':') (map no_colon s)
no_colon-ne [] = tt
no_colon-ne (c ∷ s) = (ground arith, no_colon-ne s)

-- The label behind `_:`.
label : Bytes → ℕ → Bytes
label chunk_id n = codes "rel_" ++ map no_colon chunk_id ++ b'_' ∷ decimal n

relation_node-label :
    (chunk_id : Bytes) (n : ℕ) → relation_node chunk_id n ≡ codes "_:" ++ label chunk_id n
unfolding relation_node label
relation_node-label chunk_id n =
    simp (append-nil, map-append) (rw (no_colon-digits (decimal n) (decimal-isdigit n)))

digits-ne_colon : (s : Bytes) → All (λ c. isdigit c ≡ true) s → All (λ c. c ≢ b':') s
unfolding isdigit
digits-ne_colon [] h = tt
digits-ne_colon (c ∷ s) h = (ground arith, digits-ne_colon s h.1)

label-ne_colon : (chunk_id : Bytes) (n : ℕ) → All (λ c. c ≢ b':') (label chunk_id n)
unfolding label
label-ne_colon chunk_id n = (
  omega arith,
  (
    omega arith,
    (
      omega arith,
      (
        omega arith,
        All-append (λ c. c ≢ b':') (map no_colon chunk_id) (b'_' ∷ decimal n) (no_colon-ne chunk_id)
            (omega arith, digits-ne_colon (decimal n) (decimal-isdigit n)),
      ),
    ),
  ),
)

label-injective : (chunk_id : Bytes) (n m : ℕ) → label chunk_id n ≡ label chunk_id m → n ≡ m
unfolding label
label-injective chunk_id n m e =
    let tails =
      append_cancel_left (codes "rel_" ++ map no_colon chunk_id) (b'_' ∷ decimal n)
        (b'_' ∷ decimal m) e in
    let same : decimal n ≡ decimal m = cc tails in
    sym (atoi-decimal n) ∙ ap atoi same ∙ atoi-decimal m

-- The blank node of a relation is `_:` and a label with no colon, and within a chunk two relations
-- with different numbers have different blank nodes.
pub relation_node_unique :
    (chunk_id : Bytes) (n m : ℕ)
    → ((rest : Bytes) × (relation_node chunk_id n ≡ codes "_:" ++ rest) × All (λ c. c ≢ b':') rest)
      × (relation_node chunk_id n ≡ relation_node chunk_id m → n ≡ m)
relation_node_unique chunk_id n m = (
  (label chunk_id n, relation_node-label chunk_id n, label-ne_colon chunk_id n),
  λ e. label-injective chunk_id n m (
      append_cancel_left (codes "_:") (label chunk_id n) (label chunk_id m)
        (sym (relation_node-label chunk_id n) ∙ e ∙ relation_node-label chunk_id m)),
)
