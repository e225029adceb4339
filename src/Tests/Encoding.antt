-- ===== src/Tests/Encoding.antt =====
-- Runs of src/util.h and src/ttl.cpp.
use chimera_ape.Base.{
  ℕ, ◌≡◌, refl, arith, some, [], ◌∷◌, ◌++◌, map, Bytes, codes, is_empty, if◌then◌else◌,
}
use chimera_ape.Util.Slug.{slugify}
use chimera_ape.Util.Slug.Shape.{IsSlug, slugify-IsSlug}
use chimera_ape.Util.ChunkId.{chunk_id, HasNoColon, chunk_id-injective}
use chimera_ape.Util.Base64.{base64_encode}
use chimera_ape.Util.Base64.RoundTrip.{base64_decode, base64_decode-encode}
use chimera_ape.Ttl.Escape.{ttl_escape}
use chimera_ape.Ttl.Escape.RoundTrip.{plain, literal, literal-ttl_escape}
use chimera_ape.Ttl.Iri.{rel_label}
use chimera_ape.Ttl.Iri.Label.{underscore, rel_label-slugify}

abbrev predicate : Bytes
predicate = codes " Works -- At! "

label_run : rel_label predicate ≡ codes "works_at"
unfolding rel_label
label_run = refl

base64_run : base64_encode (codes "APE!") ≡ codes "QVBFIQ=="
unfolding base64_encode
base64_run = refl

chunk_id_run : chunk_id (codes "ab12") 42 ≡ codes "ab12:0042"
unfolding chunk_id
chunk_id_run = refl

abbrev third : ℕ
third = 3

abbrev fourth : ℕ
fourth = 4

abbrev some_bytes : Bytes
some_bytes = 0 ∷ 255 ∷ 10 ∷ 34 ∷ []

abbrev quoted : Bytes
quoted = codes "say \"hi\"\n\\"

literal-ttl_escape_example :
    literal plain (ttl_escape quoted ++ b'"' ∷ codes " .") ≡ some (quoted, codes " .")
literal-ttl_escape_example = literal-ttl_escape quoted (codes " .")

base64_decode-encode_example : base64_decode (base64_encode some_bytes) ≡ some some_bytes
base64_decode-encode_example =
    base64_decode-encode some_bytes (omega arith, (omega arith, (omega arith, (omega arith, tt))))

abbrev doc : Bytes
doc = codes "ab"

doc-HasNoColon : HasNoColon doc
doc-HasNoColon = (λ e. absurd (omega arith), (λ e. absurd (omega arith), tt))

chunk_id-injective_example : (doc ≡ doc) × (third ≡ third)
chunk_id-injective_example =
    chunk_id-injective doc doc third third doc-HasNoColon doc-HasNoColon refl

rel_label-slugify_example : rel_label predicate ≡ (
    let label = map underscore (slugify predicate) in
    if is_empty label then codes "related_to" else label)
rel_label-slugify_example = rel_label-slugify predicate

slugify-IsSlug_example : IsSlug (slugify predicate)
slugify-IsSlug_example = slugify-IsSlug predicate
