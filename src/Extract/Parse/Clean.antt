-- ===== src/Extract/Parse/Clean.antt =====
-- src/extract.cpp: the fields of an accepted answer of the model.
use chimera_ape.Base.{
  ◌≡◌, inl, inr, arith, Option, none, some, List, [], ◌∷◌, ◌++◌, Bytes, codes, is_empty,
  length-take, Result, ok, err, All, All-append, Option-cases, Result-cases, if-cases, AllOk,
  bind-AllOk, then-AllOk,
}
use mathlib.Core.Path.{subst}
use chimera_ape.Util.Slug.{slugify}
use chimera_ape.Ttl.{EntityRef, RelationRef}
use chimera_ape.Json.{Json, JsonLib, is_object, find_key, null, bool, number, string, arr, obj}
use chimera_ape.Extract.{Extraction}
use chimera_ape.Extract.Parse.{
  entity_slugs, known_type, has_slug, add_tag, add_tags, push_entity, add_entity, add_entities,
  is_kept, push_relation, add_relation, add_relations, members, read_fields, cut, checked,
  parse_value, parse_extraction, unfence, attempt, retry_user, extract_chunk,
  extraction_system_prompt,
}
use chimera_ape.Extract.Parse.Shape.{
  HasSlug, IsEntity, IsLinked, IsClean, is_one_of_sound, nonempty, take-All, known_type-Occurs,
}

module _ {D : Type 0} where
  add_tag-All : (t : Json D) (tags : List Bytes) → All HasSlug tags → All HasSlug (add_tag t tags)
  unfolding add_tag
  add_tag-All (string s) tags h =
      if-cases (All HasSlug) (has_slug s) (tags ++ s ∷ []) tags
        (λ e. All-append HasSlug tags (s ∷ []) h (nonempty (slugify s) (ground arith), tt)) (λ e. h)
  add_tag-All null tags h = h
  add_tag-All (bool b) tags h = h
  add_tag-All (number d) tags h = h
  add_tag-All (arr vs) tags h = h
  add_tag-All (obj fs) tags h = h

  add_tags-All :
      (ts : List (Json D)) (tags : List Bytes) → All HasSlug tags → All HasSlug (add_tags ts tags)
  unfolding add_tags
  add_tags-All [] tags h = h
  add_tags-All (t ∷ ts) tags h = add_tags-All ts (add_tag t tags) (add_tag-All t tags h)

  module _ (lib : JsonLib D) (zero_confidence : D) where
    push_entity-All :
        (name type : Bytes) (es : List EntityRef)
        → All IsEntity es
        → All IsEntity (push_entity lib zero_confidence name type es)
    unfolding push_entity
    push_entity-All name type es h =
        let e : EntityRef = record { name = name; type = known_type type } in
        if-cases (All IsEntity) (is_empty (slugify name)) es (es ++ e ∷ []) (λ p. h)
          (λ p.
            All-append IsEntity es (e ∷ []) h
              ((nonempty (slugify name) p, known_type-Occurs type), tt))

    add_entity-AllOk :
        (e : Json D) (es : List EntityRef)
        → All IsEntity es
        → AllOk (All IsEntity) (add_entity lib zero_confidence e es)
    unfolding add_entity
    add_entity-AllOk e es h = elim (Option-cases (find_key (codes "name") e)) [
      | inl p ↦ rw (p, AllOk) h
      | inr (v, p) ↦
          rw (p, AllOk)
            (then-AllOk (All IsEntity) _ _
              λ name. then-AllOk (All IsEntity) _ _ λ type. push_entity-All name type es h)
    ]

    add_entities-AllOk :
        (vs : List (Json D)) (es : List EntityRef)
        → All IsEntity es
        → AllOk (All IsEntity) (add_entities lib zero_confidence vs es)
    unfolding add_entities
    add_entities-AllOk [] es h = h
    add_entities-AllOk (v ∷ vs) es h =
        bind-AllOk (All IsEntity) (All IsEntity) _ _ (add_entity-AllOk v es h)
          (add_entities-AllOk vs)

    push_relation-All :
        (r : RelationRef D) (es : List EntityRef) (rs : List (RelationRef D))
        → All (IsLinked es) rs
        → All (IsLinked es) (push_relation lib zero_confidence r es rs)
    unfolding push_relation
    push_relation-All r es rs h =
        let from = is_one_of_sound (slugify r.subject) (entity_slugs es) in
        let to = is_one_of_sound (slugify r.object) (entity_slugs es) in
        if-cases (All (IsLinked es)) (is_kept r es) (rs ++ r ∷ []) rs
          (λ e.
            All-append (IsLinked es) rs (r ∷ []) h
              ((from (ground arith), to (ground arith), nonempty r.predicate (ground arith)), tt))
          (λ e. h)

    add_relation-AllOk :
        (es : List EntityRef) (r : Json D) (rs : List (RelationRef D))
        → All (IsLinked es) rs
        → AllOk (All (IsLinked es)) (add_relation lib zero_confidence es r rs)
    unfolding add_relation
    add_relation-AllOk es r rs h =
        if-cases (AllOk (All (IsLinked es))) (is_object r) _ (ok rs)
          (λ e. then-AllOk (All (IsLinked es)) _ _ λ subject.
            then-AllOk (All (IsLinked es)) _ _ λ predicate.
              then-AllOk (All (IsLinked es)) _ _ λ object.
                then-AllOk (All (IsLinked es)) _ _ λ confidence.
                  push_relation-All
                    (record {
                      subject = subject;
                      predicate = predicate;
                      object = object;
                      confidence = confidence;
                    })
                    es rs h)
          (λ e. h)

    add_relations-AllOk :
        (es : List EntityRef) (vs : List (Json D)) (rs : List (RelationRef D))
        → All (IsLinked es) rs
        → AllOk (All (IsLinked es)) (add_relations lib zero_confidence es vs rs)
    unfolding add_relations
    add_relations-AllOk es [] rs h = h
    add_relations-AllOk es (v ∷ vs) rs h =
        bind-AllOk (All (IsLinked es)) (All (IsLinked es)) _ _ (add_relation-AllOk es v rs h)
          (add_relations-AllOk es vs)

    cut-IsClean :
        (x : Extraction D)
        → All HasSlug x.tags
        → All IsEntity x.entities
        → All (IsLinked x.entities) x.relations
        → IsClean (cut x)
    cut-IsClean x tags entities relations = record {
      summary_bound = omega (arith, length-take 400 x.summary);
      tags_bound = omega (arith, length-take 8 x.tags);
      tags_named = take-All HasSlug 8 x.tags tags;
      entities_known = entities;
      relations_linked = relations;
    }

    -- The fields that were read, cut to their bounds.
    read_fields-AllOk :
        (j : Json D) → AllOk (λ x. IsClean (cut x)) (read_fields lib zero_confidence j)
    unfolding read_fields
    read_fields-AllOk j =
        then-AllOk (λ x. IsClean (cut x)) _ _
          λ summary.
            bind-AllOk (All IsEntity) (λ x. IsClean (cut x)) _ _
              (add_entities-AllOk (members lib zero_confidence (codes "entities") j) [] tt)
              λ es hes.
                bind-AllOk (All (IsLinked es)) (λ x. IsClean (cut x)) _ _
                  (add_relations-AllOk es (members lib zero_confidence (codes "relations") j) [] tt)
                  λ rs hrs.
                    cut-IsClean
                      (record {
                        summary = summary;
                        tags = add_tags (members lib zero_confidence (codes "tags") j) [];
                        entities = es;
                        relations = rs;
                      })
                      (add_tags-All (members lib zero_confidence (codes "tags") j) [] tt) hes hrs

    checked-AllOk :
        (r : Result (Extraction D))
        → AllOk (λ x. IsClean (cut x)) r
        → AllOk IsClean (checked lib zero_confidence r)
    unfolding checked
    checked-AllOk (ok x) h = h
    checked-AllOk (err e) h = tt

    parse_value-AllOk : (r : Result (Json D)) → AllOk IsClean (parse_value lib zero_confidence r)
    unfolding parse_value
    parse_value-AllOk (ok j) =
        if-cases (AllOk IsClean) (is_object j) _ (err (codes "top level is not an object"))
          (λ e. checked-AllOk _ (read_fields-AllOk j)) (λ e. tt)
    parse_value-AllOk (err e) = tt

    AllOk_elim : {A : Type 0} (P : A → Type 0) (r : Result A) {a : A} → AllOk P r → r ≡ ok a → P a
    AllOk_elim P (ok b) {a = a} h e = subst P {x = b} {y = a} (cc) h
    AllOk_elim P (err w) h e = absurd cc

    parse_extraction-IsClean :
        (json_text : Bytes) {x : Extraction D}
        → parse_extraction lib zero_confidence json_text ≡ ok x
        → IsClean x
    unfolding parse_extraction
    parse_extraction-IsClean json_text h =
        AllOk_elim IsClean (parse_extraction lib zero_confidence json_text)
          (parse_value-AllOk (lib.parse (unfence json_text))) h

    attempt-AllOk : (answer : Option Bytes) → AllOk IsClean (attempt lib zero_confidence answer)
    unfolding attempt parse_extraction
    attempt-AllOk none = tt
    attempt-AllOk (some answer) = parse_value-AllOk (lib.parse (unfence answer))

    -- What a chunk's two attempts come to.
    pub data Extracted (chat : Bytes → Bytes → Option Bytes) (text : Bytes)
        : Option (Extraction D) → Type 0 where
      accepted : {x : Extraction D} → IsClean x → Extracted chat text (some x)
      gave_up :
          {first second : Bytes}
          → attempt lib zero_confidence (chat extraction_system_prompt text) ≡ err first
          → attempt lib zero_confidence
              (chat extraction_system_prompt (retry_user lib zero_confidence text first))
            ≡ err second
          → Extracted chat text none

    -- An extraction that is returned is clean: a summary of at most 400 bytes, at most 8 tags, each
    -- with a slug, entities with a slug and one of the six types, relations with a predicate and
    -- both ends among the entities. None is returned only if the answer to the chunk is refused,
    -- and so is the answer to the chunk with that refusal's message.
    pub extract_chunk-Extracted :
        (chat : Bytes → Bytes → Option Bytes) (text : Bytes)
        → Extracted chat text (extract_chunk lib zero_confidence chat text)
    unfolding extract_chunk
    extract_chunk-Extracted chat text =
        let answer = chat extraction_system_prompt text in
        elim (Result-cases (attempt lib zero_confidence answer)) [
          | inl (x, e) ↦
              rw (e, extract_chunk) (accepted (AllOk_elim IsClean _ (attempt-AllOk answer) e))
          | inr (first, e) ↦
              rw (e, extract_chunk)
                (let again =
                    chat extraction_system_prompt (retry_user lib zero_confidence text first) in
                  elim (Result-cases (attempt lib zero_confidence again)) [
                    | inl (x, e') ↦ rw e' (accepted (AllOk_elim IsClean _ (attempt-AllOk again) e'))
                    | inr (second, e') ↦ rw e' (gave_up e e')
                  ])
        ]
