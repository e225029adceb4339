-- ===== src/Tests/Walking.antt =====
-- Runs of src/walk.cpp.
use chimera_ape.Base.{◌≡◌, ◌↔◌, refl, true, false, [], ◌∷◌, ◌++◌, Bytes, codes, map, All, ◌≢◌}
use chimera_ape.Walk.{WalkEntry, default_walk_options}
use chimera_ape.Walk.Glob.{glob_core, glob_match}
use chimera_ape.Walk.Glob.Meaning.{items, Matches, glob_core_iff}
use chimera_ape.Walk.Sniff.{looks_binary}
use chimera_ape.Walk.Sniff.Utf8.{IsUtf8, looks_binary_iff}
use chimera_ape.Walk.Ignore.{IgnoreRules, load_ignore}
use chimera_ape.Walk.Traverse.{Entries, no_entries, file_entry, dir_entry, files_of, walk}
use chimera_ape.Walk.Traverse.Order.{below, walk_lem}

abbrev logs : Bytes
logs = codes "*.log"

abbrev log_path : Bytes
log_path = codes "a/b.log"

glob_run : glob_match logs log_path ≡ true
unfolding glob_match
glob_run = refl

core_run : glob_core logs log_path ≡ false
unfolding glob_core
core_run = refl

sniff_run : looks_binary (0xc3 ∷ 0x28 ∷ 0x61 ∷ []) ≡ true
unfolding looks_binary
sniff_run = refl

abbrev rules : IgnoreRules
unfolding load_ignore
rules = load_ignore (codes "*.log # logs" ∷ codes "build2/" ∷ [])

-- `b.txt` beside the directory `a` with `x.txt` and an ignored log.
abbrev tree : Entries
tree =
    dir_entry (codes "a")
      (file_entry (codes "w.log") 1 0 (codes "w")
        (file_entry (codes "x.txt") 1 0 (codes "x") no_entries))
      (file_entry (codes "b.txt") 1 0 (codes "b") no_entries)

abbrev rel_of : WalkEntry → Bytes
rel_of e = e.rel_path

walk_run :
    map rel_of (walk (codes "/c") default_walk_options rules tree)
    ≡ codes "b.txt" ∷ codes "a/x.txt" ∷ []
unfolding walk load_ignore
walk_run = refl

walk_lem_example :
    walk (codes "/c") default_walk_options rules tree
    ≡ files_of (codes "/c") default_walk_options rules [] tree
      ++ below (codes "/c") default_walk_options rules [] tree
walk_lem_example = walk_lem (codes "/c") default_walk_options rules tree

glob_core_iff_example : (glob_core logs log_path ≡ true) ↔ Matches (items logs) log_path
glob_core_iff_example = glob_core_iff logs log_path

abbrev latin : Bytes
latin = 0xc3 ∷ 0xa9 ∷ 0x61 ∷ 0xe2 ∷ 0x82 ∷ []

latin_run : looks_binary latin ≡ false
unfolding looks_binary
latin_run = refl

looks_binary_iff_example : (looks_binary latin ≡ false) ↔ (All (λ c. c ≢ 0) latin × IsUtf8 latin)
looks_binary_iff_example = looks_binary_iff latin
