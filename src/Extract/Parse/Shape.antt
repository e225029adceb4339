-- ===== src/Extract/Parse/Shape.antt =====
-- src/extract.cpp: the parts of a clean extraction.
use chimera_ape.Base.{
  ℕ, zero, suc, ◌≡◌, ◌≢◌, inl, inr, ◌≤◌, arith, true, false, List, [], ◌∷◌, Bytes, codes, bytes_eq,
  bytes_eq_iff, is_empty, length, take, All, Bool-cases, if-cases,
}
use mathlib.Core.Path.{subst}
use chimera_ape.Util.Slug.{slugify}
use chimera_ape.Walk.Names.{is_one_of}
use chimera_ape.Ttl.{EntityRef, RelationRef}
use chimera_ape.Extract.{Extraction}
use chimera_ape.Extract.Parse.{entity_types, entity_slugs, known_type}

-- `x` occurs in the list.
pub data Occurs (x : Bytes) : List Bytes → Type 0 where
  here : {xs : List Bytes} → Occurs x (x ∷ xs)
  there : {y : Bytes} {xs : List Bytes} → Occurs x xs → Occurs x (y ∷ xs)

abbrev pub HasSlug : Bytes → Type 0
HasSlug s = slugify s ≢ []

abbrev pub IsEntity : EntityRef → Type 0
IsEntity e = HasSlug e.name × Occurs e.type entity_types

-- Both ends of the relation are among the entities, by their slugs.
abbrev pub IsLinked : {D : Type 0} → List EntityRef → RelationRef D → Type 0
IsLinked es r =
    Occurs (slugify r.subject) (entity_slugs es)
    × Occurs (slugify r.object) (entity_slugs es)
    × (r.predicate ≢ [])

pub record IsClean {D : Type 0} (x : Extraction D) : Type 0 where
  pub summary_bound : length x.summary ≤ 400
  pub tags_bound : length x.tags ≤ 8
  pub tags_named : All HasSlug x.tags
  pub entities_known : All IsEntity x.entities
  pub relations_linked : All (IsLinked x.entities) x.relations

pub is_one_of_sound : (e : Bytes) (bs : List Bytes) → is_one_of e bs ≡ true → Occurs e bs
unfolding is_one_of
is_one_of_sound e [] h = absurd (ground arith)
is_one_of_sound e (b ∷ bs) h = elim (Bool-cases (bytes_eq e b)) [
  | inl p ↦ subst (λ y. Occurs e (y ∷ bs)) ((bytes_eq_iff e b).0 p) here
  | inr p ↦ there (is_one_of_sound e bs (ground arith))
]

pub nonempty : (s : Bytes) → is_empty s ≡ false → s ≢ []
nonempty [] h e = ground arith
nonempty (x ∷ s) h e = cc

pub take-All : {A : Type 0} (P : A → Type 0) (n : ℕ) (xs : List A) → All P xs → All P (take n xs)
take-All P zero xs h = tt
take-All P (suc n) [] h = tt
take-All P (suc n) (x ∷ xs) h = (h.0, take-All P n xs h.1)

pub known_type-Occurs : (type : Bytes) → Occurs (known_type type) entity_types
known_type-Occurs type =
    if-cases (λ t. Occurs t entity_types) (is_one_of type entity_types) type (codes "concept")
      (λ e. is_one_of_sound type entity_types e) (λ e. there (there (there here)))
