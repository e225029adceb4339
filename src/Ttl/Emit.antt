-- ===== src/Ttl/Emit.antt =====
-- src/ttl.cpp: the Turtle text of a document and of a chunk. A number of the code is not negative
-- here, and the text of a confidence (`%.2f`) is a parameter.
pub mod Receipts
use chimera_ape.Base.{
  ℕ, zero, suc, ◌+◌, Bool, true, false, not, ◌||◌, List, [], ◌∷◌, ◌++◌, map, ◌==◌, if◌then◌else◌,
  Bytes, codes, bytes_eq, is_empty, drop, stream,
}
use chimera_ape.Util.Decimal.{decimal}
use chimera_ape.Util.Slug.{slugify}
use chimera_ape.Util.ChunkId.{chunk_id}
use chimera_ape.Ttl.{EntityRef, RelationRef, ChunkTriples, DocTriples}
use chimera_ape.Ttl.Escape.{ttl_escape}
use chimera_ape.Ttl.Iri.{doc_iri, chunk_iri, entity_iri, tag_iri, rel_iri}

unfoldable pub ttl_prologue : Bytes
ttl_prologue =
    codes
      "@prefix ch: <chimera://ontology#> .\n@prefix xsd: <http://www.w3.org/2001/XMLSchema#> .\n\n"

emit_paths : List Bytes → Bytes
emit_paths [] = []
emit_paths (p ∷ ps) =
    stream (codes "    ch:locatedAt \"" ∷ ttl_escape p ∷ codes "\" ;\n" ∷ []) ++ emit_paths ps

-- `for (i = i0; i <= …; ++i)`, for `n` rounds.
emit_has_chunks : Bytes → ℕ → ℕ → Bytes
emit_has_chunks doc_id i zero = []
emit_has_chunks doc_id i (suc n) =
    stream (codes " ;\n    ch:hasChunk " ∷ chunk_iri (chunk_id doc_id i) ∷ [])
    ++ emit_has_chunks doc_id (i + 1) n

unfoldable pub emit_doc : DocTriples → Bytes
unfolding emit_paths emit_has_chunks doc_iri chunk_iri chunk_id decimal ttl_escape bytes_eq
emit_doc d = stream (
    doc_iri d.doc_id
    ∷ codes "\n    a ch:Document ;\n"
    ∷ emit_paths d.paths
    ∷ codes "    ch:checksum \""
    ∷ d.doc_id
    ∷ codes "\" ;\n    ch:bytes "
    ∷ decimal d.bytes
    ∷ codes " ;\n    ch:mime \""
    ∷ ttl_escape d.mime
    ∷ codes "\" ;\n"
    ∷ (if not (bytes_eq d.modality (codes "text"))
        then stream (codes "    ch:modality \"" ∷ d.modality ∷ codes "\" ;\n" ∷ [])
        else [])
    ∷ codes "    ch:ingestedAt \""
    ∷ d.ingested_at
    ∷ codes "\"^^xsd:dateTime"
    ∷ emit_has_chunks d.doc_id 1 d.chunk_count
    ∷ (if not (is_empty d.superseded_by)
        then stream (codes " ;\n    ch:supersededBy " ∷ doc_iri d.superseded_by ∷ [])
        else [])
    ∷ codes " .\n\n"
    ∷ [])

emit_tagged : List Bytes → Bytes
emit_tagged [] = []
emit_tagged (t ∷ ts) =
    (if not (is_empty (slugify t))
      then stream (codes " ;\n    ch:taggedWith " ∷ tag_iri t ∷ [])
      else [])
    ++ emit_tagged ts

emit_mentions : List EntityRef → Bytes
emit_mentions [] = []
emit_mentions (e ∷ es) =
    (if not (is_empty (slugify e.name))
      then stream (codes " ;\n    ch:mentions " ∷ entity_iri e.name ∷ [])
      else [])
    ++ emit_mentions es

emit_entities : List EntityRef → Bytes
emit_entities [] = []
emit_entities (e ∷ es) =
    (if is_empty (slugify e.name)
      then []
      else stream (
          entity_iri e.name
          ∷ codes " a ch:Entity ; ch:label \""
          ∷ ttl_escape e.name
          ∷ codes "\" ; ch:entityType \""
          ∷ ttl_escape e.type
          ∷ codes "\" .\n"
          ∷ []))
    ++ emit_entities es

emit_tags : List Bytes → Bytes
emit_tags [] = []
emit_tags (t ∷ ts) =
    (if is_empty (slugify t)
      then []
      else stream
          (tag_iri t ∷ codes " a ch:Tag ; ch:label \"" ∷ ttl_escape t ∷ codes "\" .\n" ∷ []))
    ++ emit_tags ts

abbrev pub no_colon : ℕ → ℕ
no_colon c = if c == b':' then b'_' else c

-- The label of a relation's blank node: `"_:" + node.substr(2)`, once its colons are replaced.
pub relation_node : Bytes → ℕ → Bytes
relation_node chunk_id rel_n =
    codes "_:"
    ++ drop 2 (map no_colon (stream (codes "_:rel_" ∷ chunk_id ∷ codes "_" ∷ decimal rel_n ∷ [])))

module _ {D : Type 0} (format_confidence : D → Bytes) where
  emit_relation : Bytes → ℕ → RelationRef D → Bytes
  emit_relation chunk_id rel_n r = stream (
      relation_node chunk_id rel_n
      ∷ codes " a ch:Relation ;\n    ch:subject "
      ∷ entity_iri r.subject
      ∷ codes " ;\n    ch:predicate "
      ∷ rel_iri r.predicate
      ∷ codes " ;\n    ch:object "
      ∷ entity_iri r.object
      ∷ codes " ;\n    ch:evidencedBy "
      ∷ chunk_iri chunk_id
      ∷ codes " ;\n    ch:confidence "
      ∷ format_confidence r.confidence
      ∷ codes " .\n"
      ∷ entity_iri r.subject
      ∷ codes " "
      ∷ rel_iri r.predicate
      ∷ codes " "
      ∷ entity_iri r.object
      ∷ codes " .\n"
      ∷ [])

  -- A relation with an endpoint that has no slug is left out and takes no number.
  emit_relations : Bytes → ℕ → List (RelationRef D) → Bytes
  emit_relations chunk_id rel_n [] = []
  emit_relations chunk_id rel_n (r ∷ rs) =
      let rest = emit_relations chunk_id rel_n rs in
      let with_r = emit_relation chunk_id rel_n r ++ emit_relations chunk_id (rel_n + 1) rs in
      if is_empty (slugify r.subject) || is_empty (slugify r.object) then rest else with_r

  unfoldable pub emit_chunk : ChunkTriples D → Bytes
  unfolding emit_tagged emit_mentions emit_entities emit_tags emit_relations emit_relation
      relation_node doc_iri chunk_iri entity_iri tag_iri rel_iri chunk_id decimal ttl_escape slugify
  emit_chunk c = stream (
      chunk_iri c.chunk_id
      ∷ codes "\n    a ch:Chunk ;\n    ch:partOf "
      ∷ doc_iri c.doc_id
      ∷ codes " ;\n    ch:ordinal "
      ∷ decimal c.ordinal
      ∷ codes " ;\n    ch:byteStart "
      ∷ decimal c.byte_start
      ∷ codes " ;\n    ch:byteEnd "
      ∷ decimal c.byte_end
      ∷ codes " ;\n    ch:text \""
      ∷ ttl_escape c.text
      ∷ codes "\""
      ∷ (if not (is_empty c.summary)
          then stream (codes " ;\n    ch:summary \"" ∷ ttl_escape c.summary ∷ codes "\"" ∷ [])
          else [])
      ∷ (if c.extraction_failed then codes " ;\n    ch:extractionFailed true" else [])
      ∷ (if c.has_next
          then stream
              (codes " ;\n    ch:nextChunk " ∷ chunk_iri (chunk_id c.doc_id (c.ordinal + 1)) ∷ [])
          else [])
      ∷ emit_tagged c.tags
      ∷ emit_mentions c.entities
      ∷ codes " .\n\n"
      ∷ emit_entities c.entities
      ∷ emit_tags c.tags
      ∷ emit_relations c.chunk_id 0 c.relations
      ∷ codes "\n"
      ∷ [])
