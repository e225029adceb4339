-- ===== src/Search/Vacuum.antt =====
-- src/search.cpp: `run_vacuum`, with what it does to the graph index on the disk.
pub mod Restored
use mathlib.Core.Option
use chimera_ape.Base.{
  ℕ, ◌≡◌, ◌⊎◌, inl, inr, refl, ◌∙◌, Bool, true, false, not, ◌&&◌, Option, none, some, List, [], ◌∷◌,
  ◌++◌, map, is_empty, if◌then◌else◌, Bytes, codes, Bool-cases, Option-cases, if-cases,
}
use chimera_ape.Manifest.{Manifest}
use chimera_ape.Manifest.Ops.{superseded_docs, set_meta, chunks_of, forget_doc, veckey_of}
use chimera_ape.Manifest.Ops.Vacuum.{forget_docs, vacuum-superseded_docs}

-- An index is the Turtle text that it was built from; `loaded` has the staging files it subsumes, and
-- `dump` is `staging/_vacuum.ttl`, which stays there.
pub record Disk : Type 0 where
  pub dump : Option Bytes
  pub index : Option Bytes
  pub old_index : Option Bytes
  pub loaded : List Bytes

-- Whether the vector server and the graph server start, what the graph server answers, and whether
-- the index can be built.
pub record Conditions : Type 0 where
  pub vectors_start : Bool
  pub graph_starts : Bool
  pub construct : Option Bytes
  pub builds : Bool

-- A call of the vector store, whose result is not looked at.
pub data VectorCall : Type 0 where
  remove : List ℕ → VectorCall
  persist : VectorCall

pub record Vacuumed : Type 0 where
  pub vectors : List VectorCall
  pub code : ℕ
  pub manifest : Manifest
  pub disk : Disk

abbrev no_docs : List Bytes → Bool
no_docs [] = true
no_docs _ = false

abbrev move_aside : Disk → Disk
move_aside d = record d { index = none; old_index = d.index }

abbrev restore : Disk → Disk
restore d = record d { index = d.old_index; old_index = none }

abbrev write_dump : Bytes → Disk → Disk
write_dump turtle d = record d { dump = some turtle }

-- The old index is moved aside, and back if the new one is not built.
unfoldable pub rebuild : Bool → Bytes → Manifest → Disk → Vacuumed
unfolding set_meta
rebuild builds turtle m disk =
    if builds
    then record {
      code = 0;
      manifest = set_meta (codes "text_index_stale") [] m;
      disk = record (write_dump turtle disk) { index = some turtle; old_index = none; loaded = [] };
      vectors = [];
    }
    else record {
      code = 1;
      manifest = m;
      disk = restore (move_aside (write_dump turtle disk));
      vectors = [];
    }

-- The text of the live graph, if the server starts and answers.
abbrev pub live_graph : Conditions → Option Bytes
live_graph w = if w.graph_starts then w.construct else none

abbrev pub rebuild_from : Bool → Option Bytes → Manifest → Disk → Vacuumed
rebuild_from builds none m disk = record { code = 1; manifest = m; disk = disk; vectors = [] }
rebuild_from builds (some turtle) m disk = rebuild builds turtle m disk

abbrev pub with_index : Option Bytes → Conditions → Manifest → Disk → Vacuumed
with_index none w m disk = record { code = 0; manifest = m; disk = disk; vectors = [] }
with_index (some old) w m disk = rebuild_from w.builds (live_graph w) m disk

unfoldable pub rebuild_live : Conditions → Manifest → Disk → Vacuumed
unfolding rebuild
rebuild_live w m disk = with_index disk.index w m disk

-- The removals for the superseded documents, each before its rows are forgotten.
unfoldable pub removals : List Bytes → Manifest → List VectorCall
unfolding chunks_of forget_doc
removals [] m = []
removals (d ∷ dead) m =
    let keys = map veckey_of (chunks_of (codes "text") d m) in
    let rest = removals dead (forget_doc d m) in if is_empty keys then rest else remove keys ∷ rest

unfoldable pub vector_calls : List Bytes → Manifest → List VectorCall
unfolding removals
vector_calls dead m = if no_docs dead then [] else removals dead m ++ persist ∷ []

unfoldable pub run_vacuum : Conditions → Manifest → Disk → Vacuumed
unfolding superseded_docs forget_docs rebuild_live vector_calls
run_vacuum w m disk =
    let dead = superseded_docs m in
    if not (no_docs dead) && not w.vectors_start
    then record { code = 1; manifest = m; disk = disk; vectors = [] }
    else record (rebuild_live w (forget_docs dead m) disk) { vectors = vector_calls dead m }
