-- ===== src/Extract/Parse.antt =====
-- src/extract.cpp: the model's answer is read against the schema, with one retry.
pub mod Shape
pub mod Clean
use mathlib.Core.Option
use chimera_ape.Base.{
  ℕ, Bool, true, false, not, ◌&&◌, ◌||◌, Option, none, some, List, [], ◌∷◌, ◌++◌, map, ltb, leb,
  ◌+◌, ◌-◌, suc, if◌then◌else◌, Bytes, codes, utf8, bytes_eq, is_empty, index_of, length, take,
  substr, Result, ok, err, ◌>>=◌,
}
use chimera_ape.Util.Slug.{slugify}
use chimera_ape.Walk.Names.{is_one_of, last_index_of}
use chimera_ape.Ttl.{EntityRef, RelationRef}
use chimera_ape.Json.{
  Json, JsonLib, is_object, elements, find_key, get_string, value_string, value_number, string,
}
use chimera_ape.Extract.{Extraction}

-- `kExtractionSystemPrompt`
abbrev pub extraction_system_prompt : Bytes
extraction_system_prompt =
    utf8
      "You extract structured metadata from a text chunk. Respond with JSON only — no prose, no markdown fences. Schema:\n{\n  \"summary\": \"≤50 words\",\n  \"tags\": [\"3-8 kebab-case topical tags\"],\n  \"entities\": [{\"name\": \"string\", \"type\": \"person|org|place|concept|artifact|event\"}],\n  \"relations\": [{\"subject\": \"string\", \"predicate\": \"lower_snake_verb\", \"object\": \"string\", \"confidence\": 0.0}]\n}\nEvery relation's subject and object MUST appear in entities. Extract only what the text states or directly implies — no outside knowledge. If a field has nothing, return it empty."

-- From the first `{` to the last `}`.
unfoldable pub unfence : Bytes → Bytes
unfolding index_of last_index_of
unfence s = elim (index_of b'{' s) [
  | none ↦ s
  | some a ↦ elim (last_index_of b'}' s) [
    | none ↦ s
    | some b ↦ if ltb b a then s else substr s a (suc b - a)
  ]
]

-- `kEntityTypes`
abbrev pub entity_types : List Bytes
entity_types =
    codes "person"
    ∷ codes "org"
    ∷ codes "place"
    ∷ codes "concept"
    ∷ codes "artifact"
    ∷ codes "event"
    ∷ []

abbrev pub has_slug : Bytes → Bool
has_slug s = not (is_empty (slugify s))

abbrev pub known_type : Bytes → Bytes
known_type type = if is_one_of type entity_types then type else codes "concept"

-- `entity_slugs`
abbrev pub entity_slugs : List EntityRef → List Bytes
entity_slugs [] = []
entity_slugs (e ∷ es) = slugify e.name ∷ entity_slugs es

module _ {D : Type 0} where
  unfoldable pub add_tag : Json D → List Bytes → List Bytes
  unfolding slugify
  add_tag (string s) tags = if has_slug s then tags ++ s ∷ [] else tags
  add_tag _ tags = tags

  unfoldable pub add_tags : List (Json D) → List Bytes → List Bytes
  unfolding add_tag
  add_tags [] tags = tags
  add_tags (t ∷ ts) tags = add_tags ts (add_tag t tags)

  abbrev pub is_kept : RelationRef D → List EntityRef → Bool
  is_kept r es =
      is_one_of (slugify r.subject) (entity_slugs es)
      && is_one_of (slugify r.object) (entity_slugs es)
      && not (is_empty r.predicate)

  abbrev pub cut : Extraction D → Extraction D
  cut x = record x { summary = take 400 x.summary; tags = take 8 x.tags }

  module _ (lib : JsonLib D) (zero_confidence : D) where
    -- The members of an optional field.
    unfoldable pub members : Bytes → Json D → List (Json D)
    unfolding find_key
    members k j = elim (find_key k j) [ none ↦ [] | some v ↦ elements v ]

    unfoldable pub push_entity : Bytes → Bytes → List EntityRef → List EntityRef
    unfolding slugify is_one_of
    push_entity name type es =
        if is_empty (slugify name)
        then es
        else es ++ record { name = name; type = known_type type } ∷ []

    unfoldable pub add_entity : Json D → List EntityRef → Result (List EntityRef)
    unfolding find_key get_string value_string push_entity
    add_entity e es = elim (find_key (codes "name") e) [
      | none ↦ ok es
      | some v ↦ get_string lib v >>= λ name.
          value_string lib e (codes "type") (codes "concept") >>= λ type.
          ok (push_entity name type es)
    ]

    unfoldable pub add_entities : List (Json D) → List EntityRef → Result (List EntityRef)
    unfolding add_entity
    add_entities [] es = ok es
    add_entities (e ∷ more) es = add_entity e es >>= add_entities more

    unfoldable pub push_relation :
        RelationRef D → List EntityRef → List (RelationRef D) → List (RelationRef D)
    unfolding slugify is_one_of
    push_relation r es rs = if is_kept r es then rs ++ r ∷ [] else rs

    unfoldable pub add_relation :
        List EntityRef → Json D → List (RelationRef D) → Result (List (RelationRef D))
    unfolding value_string value_number push_relation
    add_relation es r rs =
        if is_object r
        then (value_string lib r (codes "subject") [] >>= λ subject.
            value_string lib r (codes "predicate") [] >>= λ predicate.
            value_string lib r (codes "object") [] >>= λ object.
            value_number lib r (codes "confidence") zero_confidence >>= λ confidence.
            let ref : RelationRef D = record {
              subject = subject;
              predicate = predicate;
              object = object;
              confidence = confidence;
            } in
            ok (push_relation ref es rs))
        else ok rs

    unfoldable pub add_relations :
        List EntityRef → List (Json D) → List (RelationRef D) → Result (List (RelationRef D))
    unfolding add_relation
    add_relations es [] rs = ok rs
    add_relations es (r ∷ more) rs = add_relation es r rs >>= add_relations es more

    -- The `try` block that reads the fields.
    unfoldable pub read_fields : Json D → Result (Extraction D)
    unfolding value_string members add_tags add_entities add_relations
    read_fields j = value_string lib j (codes "summary") [] >>= λ summary.
        add_entities (members (codes "entities") j) [] >>= λ entities.
        add_relations entities (members (codes "relations") j) [] >>= λ relations. ok (record {
          summary = summary;
          tags = add_tags (members (codes "tags") j) [];
          entities = entities;
          relations = relations;
        })

    unfoldable pub checked : Result (Extraction D) → Result (Extraction D)
    checked (ok x) = ok (cut x)
    checked (err what) = err (codes "schema error: " ++ what)

    unfoldable pub parse_value : Result (Json D) → Result (Extraction D)
    unfolding read_fields checked
    parse_value (err what) = err (codes "JSON parse error: " ++ what)
    parse_value (ok j) =
        if is_object j then checked (read_fields j) else err (codes "top level is not an object")

    unfoldable pub parse_extraction : Bytes → Result (Extraction D)
    unfolding unfence parse_value
    parse_extraction json_text = parse_value (lib.parse (unfence json_text))

    -- What an attempt comes to, a missing answer included.
    unfoldable pub attempt : Option Bytes → Result (Extraction D)
    unfolding parse_extraction
    attempt none = err (codes "no response")
    attempt (some answer) = parse_extraction answer

    abbrev pub retry_user : Bytes → Bytes → Bytes
    retry_user chunk_text what =
        chunk_text
        ++ codes "\n\nYour previous response was invalid ("
        ++ what
        ++ codes "). Respond again with VALID JSON matching the schema exactly."

    abbrev to_option : Result (Extraction D) → Option (Extraction D)
    to_option (ok x) = some x
    to_option (err what) = none

    -- `chat` is `llama.chat` with the temperature and the token limit of the code.
    unfoldable pub extract_chunk : (Bytes → Bytes → Option Bytes) → Bytes → Option (Extraction D)
    unfolding attempt
    extract_chunk chat chunk_text = elim (attempt (chat extraction_system_prompt chunk_text)) [
      | ok x ↦ some x
      | err what ↦ to_option (attempt (chat extraction_system_prompt (retry_user chunk_text what)))
    ]
