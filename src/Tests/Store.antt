-- ===== src/Tests/Store.antt =====
-- Runs of src/manifest.cpp on a manifest with two documents.
use chimera_ape.Base.{
  ℕ, ◌≡◌, ◌≢◌, refl, arith, true, false, Option, none, some, [], ◌∷◌, if◌then◌else◌, Bytes, codes,
  bytes_eq, bytes_eq_iff,
}
use chimera_ape.Manifest.{ChunkRow, DocRow, Manifest}
use chimera_ape.Manifest.Ops.{stage_of, superseded_docs, chunks_of}
use chimera_ape.Manifest.Ops.Valid.{IsValid, put_chunk, run, run-IsValid}
use chimera_ape.Manifest.Ops.Vacuum.{forget_docs, is_among, vacuum-superseded_docs}

abbrev old_doc : Bytes
old_doc = codes "a"

abbrev new_doc : Bytes
new_doc = codes "b"

abbrev doc_row : Bytes → Option Bytes → DocRow
doc_row id by = record {
  docid = id;
  bytes = 9;
  mime = codes "text/plain";
  stage = 6;
  ingested_at = [];
  superseded_by = by;
  vacuumed = false;
}

abbrev row : Bytes → Bytes → ℕ → ChunkRow
row id doc key = record {
  chunk_id = id;
  doc_id = doc;
  ordinal = 1;
  vec_key = key;
  byte_start = 0;
  byte_end = 9;
  modality = codes "text";
}

abbrev sample : Manifest
sample = record {
  doc = doc_row old_doc (some new_doc) ∷ doc_row new_doc none ∷ [];
  path = record { relpath = codes "x"; mtime = 1; size = 9; docid = new_doc } ∷ [];
  chunk = row (codes "a:0001") old_doc 70 ∷ row (codes "b:0001") new_doc 71 ∷ [];
  meta = [];
}

apart : (a b : Bytes) → bytes_eq a b ≡ false → a ≢ b
apart a b d e = let same : bytes_eq a b ≡ true = (bytes_eq_iff a b).1 e in ground arith

sample-IsValid : IsValid sample
unfolding bytes_eq
sample-IsValid = record {
  docs = ((apart new_doc old_doc refl, tt), (tt, tt));
  paths = (tt, tt);
  chunks = ((apart (codes "b:0001") (codes "a:0001") refl, tt), (tt, tt));
  keys = ((λ e. absurd (omega arith), tt), (tt, tt));
  metas = tt;
}

pending_run : superseded_docs sample ≡ old_doc ∷ []
unfolding superseded_docs
pending_run = refl

abbrev extra : ChunkRow
extra = row (codes "b:0002") new_doc 70

run-IsValid_example : IsValid (run (put_chunk extra) sample)
run-IsValid_example = run-IsValid (put_chunk extra) sample sample-IsValid

vacuum-superseded_docs_example :
    (superseded_docs (forget_docs (superseded_docs sample) sample) ≡ [])
    × ((j : Bytes)
        → chunks_of (codes "text") j (forget_docs (superseded_docs sample) sample)
          ≡ (if is_among j (superseded_docs sample) then [] else chunks_of (codes "text") j sample))
    × ((j : Bytes) → stage_of j (forget_docs (superseded_docs sample) sample) ≡ stage_of j sample)
vacuum-superseded_docs_example = vacuum-superseded_docs (codes "text") sample
