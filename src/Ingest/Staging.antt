-- ===== src/Ingest/Staging.antt =====
-- src/ingest.cpp: the staging directory, where the Turtle text of a run waits for the graph store. Its
-- files are a list, and `order` is the order in which `fs::directory_iterator` finds them.
pub mod Kept
use chimera_ape.Base.{
  ℕ, ◌-◌, Bool, true, false, not, ◌&&◌, Option, List, [], ◌∷◌, ◌++◌, map, ltb, if◌then◌else◌, Bytes,
  codes, bytes_eq, is_empty, length, drop,
}
use chimera_ape.Util.Decimal.{decimal}

pub record StagingFile : Type 0 where
  pub name : Bytes
  pub contents : Bytes

-- `loaded` is the directory below for the files that the graph store has.
pub record Staging : Type 0 where
  pub files : List StagingFile
  pub loaded : List StagingFile

-- `f.path().extension() == ".ttl"`: a name that begins with its only dot has no extension.
unfoldable pub is_ttl : StagingFile → Bool
unfolding bytes_eq
is_ttl f = ltb 4 (length f.name) && bytes_eq (drop (length f.name - 4) f.name) (codes ".ttl")

abbrev pub bulk_name : Bytes
bulk_name = codes "_bulk.ttl"

-- A file that the bulk text is made from.
unfoldable pub is_source : StagingFile → Bool
unfolding is_ttl bytes_eq
is_source f = is_ttl f && not (bytes_eq f.name bulk_name)

-- Writing to the end of a file, which is created if it is not there.
unfoldable pub append_to : Bytes → Bytes → List StagingFile → List StagingFile
unfolding bytes_eq
append_to name text [] = record { name = name; contents = text } ∷ []
append_to name text (f ∷ fs) =
    let rest = append_to name text fs in
    if bytes_eq f.name name then record f { contents = f.contents ++ text } ∷ fs else f ∷ rest

-- Writing a file anew.
unfoldable pub overwrite : Bytes → Bytes → List StagingFile → List StagingFile
unfolding bytes_eq
overwrite name text [] = record { name = name; contents = text } ∷ []
overwrite name text (f ∷ fs) =
    let rest = overwrite name text fs in
    if bytes_eq f.name name then record f { contents = text } ∷ fs else f ∷ rest

-- The contents of the files that pass a test, in their order.
unfoldable pub contents_of : (StagingFile → Bool) → List StagingFile → List Bytes
contents_of p [] = []
contents_of p (f ∷ fs) = let rest = contents_of p fs in if p f then f.contents ∷ rest else rest

abbrev pub run_name : ℕ → Bytes
run_name pid = codes "run-" ++ (decimal pid ++ codes ".ttl")

unfoldable pub keep_others : List StagingFile → List StagingFile
unfolding is_ttl
keep_others [] = []
keep_others (f ∷ fs) = let rest = keep_others fs in if is_ttl f then rest else f ∷ rest

unfoldable pub move_all : List StagingFile → List StagingFile → List StagingFile
unfolding is_ttl overwrite
move_all [] loaded = loaded
move_all (f ∷ fs) loaded =
    move_all fs (if is_ttl f then overwrite f.name f.contents loaded else loaded)

-- Every Turtle file moves to `loaded`.
unfoldable pub mark_loaded : Staging → Staging
unfolding keep_others move_all
mark_loaded d = record { files = keep_others d.files; loaded = move_all d.files d.loaded }

-- The file is opened only when a path is written to it.
unfoldable pub stage_pending : Bytes → Staging → Staging
unfolding append_to
stage_pending pending d =
    if is_empty pending
    then d
    else record d { files = append_to (codes "pending.ttl") pending d.files }
