-- ===== src/Search/Vacuum/Restored.antt =====
-- src/search.cpp: what `run_vacuum` leaves behind.
use chimera_ape.Base.{◌≡◌, ◌⊎◌, inl, inr, refl, Option, none, some, [], Bytes, if-cases, Bool-cases}
use chimera_ape.Manifest.{Manifest}
use chimera_ape.Manifest.Ops.{superseded_docs, set_meta}
use chimera_ape.Manifest.Ops.Vacuum.{forget_docs, vacuum-superseded_docs}
use chimera_ape.Search.Vacuum.{
  Disk, Conditions, Vacuumed, rebuild, rebuild_from, with_index, live_graph, rebuild_live,
  run_vacuum,
}

-- The disk after an exit with 0: there was no graph index, or it is now that of the live graph, and
-- subsumes what was loaded.
abbrev pub IsRebuilt : Conditions → Disk → Disk → Type 0
IsRebuilt w before after =
    ((before.index ≡ none) × (after ≡ before))
    ⊎ ((turtle : Bytes) × (w.construct ≡ some turtle)
        × (after.index ≡ some turtle)
        × (after.old_index ≡ none)
        × (after.loaded ≡ []))

abbrev pub IsSound : Conditions → Disk → Vacuumed → Type 0
IsSound w before v =
    ((v.code ≡ 0) × (superseded_docs v.manifest ≡ []) × IsRebuilt w before v.disk)
    ⊎ ((v.code ≡ 1) × (v.disk.index ≡ before.index) × (v.disk.loaded ≡ before.loaded))

rebuild-IsSound :
    (w : Conditions) (turtle : Bytes) (m : Manifest) (disk : Disk)
    → w.construct ≡ some turtle
    → superseded_docs m ≡ []
    → IsSound w disk (rebuild w.builds turtle m disk)
unfolding rebuild superseded_docs set_meta
rebuild-IsSound w turtle m disk live h =
    if-cases (IsSound w disk) w.builds _ _
      (λ _. inl (refl, h, inr (turtle, live, refl, refl, refl))) (λ _. inr (refl, refl, refl))

live_graph-construct :
    (w : Conditions) (turtle : Bytes) → live_graph w ≡ some turtle → w.construct ≡ some turtle
live_graph-construct w turtle e = elim (Bool-cases w.graph_starts) [
  | inl up ↦ rw up at e
  | inr down ↦ let e' = rw down at e in absurd (cc e')
]

rebuild_from-IsSound :
    (w : Conditions) (live : Option Bytes) (m : Manifest) (disk : Disk)
    → live_graph w ≡ live
    → superseded_docs m ≡ []
    → IsSound w disk (rebuild_from w.builds live m disk)
rebuild_from-IsSound w none m disk e h = inr (refl, refl, refl)
rebuild_from-IsSound w (some turtle) m disk e h =
    rebuild-IsSound w turtle m disk (live_graph-construct w turtle e) h

with_index-IsSound :
    (index : Option Bytes) (w : Conditions) (m : Manifest) (disk : Disk)
    → disk.index ≡ index
    → superseded_docs m ≡ []
    → IsSound w disk (with_index index w m disk)
with_index-IsSound none w m disk e h = inl (refl, h, inl (e, refl))
with_index-IsSound (some old) w m disk e h = rebuild_from-IsSound w (live_graph w) m disk refl h

-- If `vacuum` exits with 0, no superseded document is pending any more, and there was no graph index
-- or it is now that of the live graph; it exits with 1 otherwise, and then the graph index on the disk
-- and the staging files that it subsumes are those from before.
pub run_vacuum-IsSound :
    (w : Conditions) (m : Manifest) (disk : Disk) → IsSound w disk (run_vacuum w m disk)
unfolding run_vacuum rebuild_live
run_vacuum-IsSound w m disk =
    if-cases (IsSound w disk) _ _ _ (λ _. inr (refl, refl, refl))
      (λ _.
        with_index-IsSound disk.index w (forget_docs (superseded_docs m) m) disk refl
          (vacuum-superseded_docs [] m).0)
