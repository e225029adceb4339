-- ===== src/Ttl/Iri.antt =====
-- src/ttl.cpp: the IRIs of documents, chunks, entities, tags and relations.
pub mod Label
use chimera_ape.Base.{
  ℕ, Bool, not, ◌&&◌, List, [], ◌∷◌, ◌++◌, ◌==◌, if◌then◌else◌, Bytes, codes, is_empty, isalnum,
  tolower, false,
}
use chimera_ape.Util.Slug.{slugify}

unfoldable pub doc_iri : Bytes → Bytes
doc_iri doc_id = codes "<chimera://doc/" ++ doc_id ++ codes ">"

unfoldable pub chunk_iri : Bytes → Bytes
chunk_iri chunk_id = codes "<chimera://chunk/" ++ chunk_id ++ codes ">"

unfoldable pub entity_iri : Bytes → Bytes
unfolding slugify
entity_iri name = codes "<chimera://entity/" ++ slugify name ++ codes ">"

unfoldable pub tag_iri : Bytes → Bytes
unfolding slugify
tag_iri tag = codes "<chimera://tag/" ++ slugify tag ++ codes ">"

-- `!p.empty() && p.back() != '_'`
pub ends_open : Bytes → Bool
ends_open [] = false
ends_open (c ∷ []) = not (c == b'_')
ends_open (c ∷ s) = ends_open s

pub rel_byte : ℕ → Bytes → Bytes
rel_byte c p = if isalnum c then p ++ tolower c ∷ [] else if ends_open p then p ++ b'_' ∷ [] else p

pub rel_bytes : Bytes → Bytes → Bytes
rel_bytes [] p = p
rel_bytes (c ∷ s) p = rel_bytes s (rel_byte c p)

-- `while (!p.empty() && p.back() == '_') p.pop_back();`
pub strip_back : Bytes → Bytes
strip_back [] = []
strip_back (c ∷ s) = let rest = strip_back s in if is_empty rest && c == b'_' then [] else c ∷ rest

abbrev or_related : Bytes → Bytes
or_related p = if is_empty p then codes "related_to" else p

unfoldable pub rel_label : Bytes → Bytes
unfolding rel_bytes rel_byte ends_open strip_back isalnum tolower
rel_label predicate = or_related (strip_back (rel_bytes predicate []))

unfoldable pub rel_iri : Bytes → Bytes
unfolding rel_label
rel_iri predicate = codes "<chimera://rel/" ++ rel_label predicate ++ codes ">"
