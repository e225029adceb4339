-- ===== src/Manifest/Ops.antt =====
-- src/manifest.cpp: the operations, each as the statements that it runs.
pub mod Valid
pub mod Laws
pub mod Vacuum
use mathlib.Core.Option
use chimera_ape.Base.{
  ℕ, zero, suc, ◌+◌, Bool, true, false, not, ◌&&◌, ◌||◌, Option, none, some, List, [], ◌∷◌, ◌++◌,
  map, ltb, leb, ◌==◌, if◌then◌else◌, Bytes, bytes_eq, length,
}
use chimera_ape.Manifest.{
  Stage, stage_number, PathInfo, ChunkRow, DocRow, PathRow, MetaRow, Scoreboard, Manifest,
}
use chimera_ape.Manifest.Table.{select, first, update, delete, has_key}

abbrev pub docid_of : DocRow → Bytes
docid_of d = d.docid

abbrev pub relpath_of : PathRow → Bytes
relpath_of p = p.relpath

abbrev pub chunkid_of : ChunkRow → Bytes
chunkid_of c = c.chunk_id

abbrev pub chunk_doc : ChunkRow → Bytes
chunk_doc c = c.doc_id

abbrev pub path_doc : PathRow → Bytes
path_doc p = p.docid

abbrev pub veckey_of : ChunkRow → ℕ
veckey_of c = c.vec_key

abbrev pub meta_key : MetaRow → Bytes
meta_key r = r.key

-- Texts are ordered by their bytes.
pub bytes_le : Bytes → Bytes → Bool
bytes_le [] b = true
bytes_le (x ∷ a) [] = false
bytes_le (x ∷ a) (y ∷ b) = ltb x y || (x == y && bytes_le a b)

-- `ORDER BY`
pub insert_by {ℓ} : {A : Type ℓ} → (A → A → Bool) → A → List A → List A
insert_by le x [] = x ∷ []
insert_by le x (y ∷ ys) = if le x y then x ∷ y ∷ ys else y ∷ insert_by le x ys

pub order_by {ℓ} : {A : Type ℓ} → (A → A → Bool) → List A → List A
order_by le [] = []
order_by le (x ∷ xs) = insert_by le x (order_by le xs)

-- Paths.

abbrev info_of : PathRow → PathInfo
info_of p = record { doc_id = p.docid; mtime = p.mtime; size = p.size }

unfoldable pub path_info : Bytes → Manifest → Option PathInfo
path_info rel_path m = Option.map info_of (first (has_key relpath_of rel_path) m.path)

-- `INSERT … ON CONFLICT(relpath) DO UPDATE`
abbrev pub new_path : Bytes → ℕ → ℕ → Bytes → PathRow
new_path rel_path mtime size doc_id = record {
  relpath = rel_path;
  mtime = mtime;
  size = size;
  docid = doc_id;
}

unfoldable pub upsert_path : Bytes → ℕ → ℕ → Bytes → Manifest → Manifest
upsert_path rel_path mtime size doc_id m = elim (first (has_key relpath_of rel_path) m.path) [
  | none ↦ record m { path = m.path ++ new_path rel_path mtime size doc_id ∷ [] }
  | some _ ↦ record m {
    path =
        update (has_key relpath_of rel_path)
          (λ p. record { relpath = p.relpath; mtime = mtime; size = size; docid = doc_id }) m.path;
  }
]

unfoldable pub paths_of : Bytes → Manifest → List Bytes
paths_of doc_id m = order_by bytes_le (map relpath_of (select (has_key path_doc doc_id) m.path))

-- Documents.

abbrev pub find_doc : Bytes → Manifest → Option DocRow
find_doc doc_id m = first (has_key docid_of doc_id) m.doc

abbrev is_some {ℓ} : {A : Type ℓ} → Option A → Bool
is_some none = false
is_some (some _) = true

unfoldable pub has_doc : Bytes → Manifest → Bool
has_doc doc_id m = is_some (find_doc doc_id m)

abbrev pub new_doc : Bytes → Bytes → ℕ → Bytes → DocRow
new_doc now doc_id bytes mime = record {
  docid = doc_id;
  bytes = bytes;
  mime = mime;
  stage = 0;
  ingested_at = now;
  superseded_by = none;
  vacuumed = false;
}

-- `INSERT OR IGNORE`; `now` is the time that SQLite writes.
unfoldable pub insert_doc : Bytes → Bytes → ℕ → Bytes → Manifest → Manifest
insert_doc now doc_id bytes mime m = elim (find_doc doc_id m) [
  | none ↦ record m { doc = m.doc ++ new_doc now doc_id bytes mime ∷ [] }
  | some _ ↦ m
]

unfoldable pub set_stage : Bytes → Stage → Manifest → Manifest
set_stage doc_id st m = record m {
  doc = update (has_key docid_of doc_id) (λ d. record d { stage = stage_number st }) m.doc;
}

abbrev pub stage_field : DocRow → ℕ
stage_field d = d.stage

unfoldable pub stage_of : Bytes → Manifest → Option ℕ
stage_of doc_id m = Option.map stage_field (find_doc doc_id m)

unfoldable pub supersede : Bytes → Bytes → Manifest → Manifest
supersede old_id new_id m = record m {
  doc = update (has_key docid_of old_id) (λ d. record d { superseded_by = some new_id }) m.doc;
}

-- `superseded_by IS NOT NULL AND vacuumed=0`
abbrev pub is_pending : DocRow → Bool
is_pending d = is_some d.superseded_by && not d.vacuumed

unfoldable pub superseded_docs : Manifest → List Bytes
superseded_docs m = map docid_of (select is_pending m.doc)

unfoldable pub forget_doc : Bytes → Manifest → Manifest
forget_doc doc_id m = record m {
  chunk = delete (has_key chunk_doc doc_id) m.chunk;
  path = delete (has_key path_doc doc_id) m.path;
  doc = update (has_key docid_of doc_id) (λ d. record d { vacuumed = true }) m.doc;
}

-- Chunks.

-- The rows that an `INSERT OR REPLACE` of `c` replaces: those with its key in either index.
abbrev pub conflicts : ChunkRow → ChunkRow → Bool
conflicts c x = bytes_eq x.chunk_id c.chunk_id || x.vec_key == c.vec_key

unfoldable pub insert_chunk : ChunkRow → Manifest → Manifest
insert_chunk c m = record m { chunk = delete (conflicts c) m.chunk ++ c ∷ [] }

unfoldable pub vec_keys_of_modality : Bytes → Manifest → List ℕ
vec_keys_of_modality modality m = map veckey_of (select (λ c. bytes_eq c.modality modality) m.chunk)

-- The modality is not among the columns that are read, so a row's is the default.
unfoldable pub chunks_of : Bytes → Bytes → Manifest → List ChunkRow
chunks_of text doc_id m =
    order_by (λ a b. leb a.ordinal b.ordinal)
      (map (λ (c : ChunkRow). record c { modality = text })
        (select (has_key chunk_doc doc_id) m.chunk))

unfoldable pub chunk_by_vec_key : ℕ → Manifest → Option Bytes
chunk_by_vec_key key m = Option.map chunkid_of (first (λ c. c.vec_key == key) m.chunk)

-- Meta and statistics.

unfoldable pub set_meta : Bytes → Bytes → Manifest → Manifest
set_meta key value m = record m {
  meta = delete (has_key meta_key key) m.meta ++ record { key = key; value = value } ∷ [];
}

abbrev pub value_field : MetaRow → Bytes
value_field r = r.value

unfoldable pub get_meta : Bytes → Manifest → Option Bytes
get_meta key m = Option.map value_field (first (has_key meta_key key) m.meta)

abbrev is_live : DocRow → Bool
is_live d = not (is_some d.superseded_by)

unfoldable pub scoreboard : Manifest → Scoreboard
scoreboard m = record {
  docs = length (select is_live m.doc);
  chunks = length m.chunk;
  superseded = length (select is_pending m.doc);
}
