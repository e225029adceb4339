-- ===== src/Walk/Traverse/Order.antt =====
-- The stack loop of the walk against a recursive walk of the tree.
use chimera_ape.Base.{
  ℕ, zero, suc, ◌+◌, ◌≤◌, ◌≡◌, refl, sym, ◌∙◌, List, [], ◌∷◌, ◌++◌, append-nil, append_assoc, arith,
  if◌then◌else◌, Bool-cases, inl, inr, Bytes,
}
use chimera_ape.Walk.{WalkEntry, WalkOptions}
use chimera_ape.Walk.Ignore.{IgnoreRules}
use chimera_ape.Walk.Traverse.{
  Entries, no_entries, file_entry, other_entry, dir_entry, join, is_skipped, files_of, subdirs,
  walk_loop, count_dirs, walk,
}

module _ (root : Bytes) (opts : WalkOptions) (ignore : IgnoreRules) where
  -- What a walk of the directories below a directory comes upon: for each one its files, then what
  -- lies below it.
  abbrev pub below : Bytes → Entries → List WalkEntry
  below dir no_entries = []
  below dir (file_entry name size mtime content es) = below dir es
  below dir (other_entry name es) = below dir es
  below dir (dir_entry name sub es) =
      let rest = below dir es in
      let rel = join dir name in
      let inside = files_of root opts ignore rel sub ++ below rel sub in
      if is_skipped root opts ignore name rel then rest else inside ++ rest

  abbrev all_below : List (Bytes × Entries) → List WalkEntry
  all_below [] = []
  all_below ((dir, es) ∷ ds) = (files_of root opts ignore dir es ++ below dir es) ++ all_below ds

  -- The directories on the stack and below.
  abbrev rounds : List (Bytes × Entries) → ℕ
  rounds [] = 0
  rounds ((_, es) ∷ ds) = suc (count_dirs root opts ignore es + rounds ds)

  all_below-append :
      (a b : List (Bytes × Entries)) → all_below (a ++ b) ≡ all_below a ++ all_below b
  all_below-append [] b = refl
  all_below-append ((dir, es) ∷ a) b = rw (all_below-append a b) (
      sym (
        append_assoc (files_of root opts ignore dir es ++ below dir es) (all_below a)
          (all_below b)))

  rounds-append : (a b : List (Bytes × Entries)) → rounds (a ++ b) ≡ rounds a + rounds b
  rounds-append [] b = omega arith
  rounds-append (d ∷ a) b = omega (arith, rounds-append a b)

  all_below-subdirs :
      (dir : Bytes) (es : Entries) → all_below (subdirs root opts ignore dir es) ≡ below dir es
  unfolding subdirs
  all_below-subdirs dir no_entries = refl
  all_below-subdirs dir (file_entry name size mtime content es) = all_below-subdirs dir es
  all_below-subdirs dir (other_entry name es) = all_below-subdirs dir es
  all_below-subdirs dir (dir_entry name sub es) =
      elim (Bool-cases (is_skipped root opts ignore name (join dir name))) [
        | inl skip ↦ rw skip (all_below-subdirs dir es)
        | inr keep ↦ rw keep (rw (all_below-subdirs dir es) refl)
      ]

  rounds-subdirs :
      (dir : Bytes) (es : Entries)
      → rounds (subdirs root opts ignore dir es) ≤ count_dirs root opts ignore es
  unfolding subdirs count_dirs
  rounds-subdirs dir no_entries = omega arith
  rounds-subdirs dir (file_entry name size mtime content es) = rounds-subdirs dir es
  rounds-subdirs dir (other_entry name es) = rounds-subdirs dir es
  rounds-subdirs dir (dir_entry name sub es) =
      elim (Bool-cases (is_skipped root opts ignore name (join dir name))) [
        | inl skip ↦ rw skip (omega (arith, rounds-subdirs dir es))
        | inr keep ↦ rw keep (omega (arith, rounds-subdirs dir es))
      ]

  walk_loop-all_below :
      (fuel : ℕ) (stack : List (Bytes × Entries))
      → rounds stack ≤ fuel
      → walk_loop root opts ignore fuel stack ≡ all_below stack
  unfolding walk_loop
  walk_loop-all_below fuel [] le = refl
  walk_loop-all_below zero (d ∷ stack) le = absurd (omega arith)
  walk_loop-all_below (suc fuel) ((dir, es) ∷ stack) le =
      let subs = subdirs root opts ignore dir es in
      let fits : rounds (subs ++ stack) ≤ fuel =
        omega (arith, rounds-append subs stack, rounds-subdirs dir es) in
      rw
        (
          walk_loop-all_below fuel (subs ++ stack) fits,
          all_below-append subs stack,
          all_below-subdirs dir es,
        )
        (sym (append_assoc (files_of root opts ignore dir es) (below dir es) (all_below stack)))

  -- The walk comes upon the kept files of the root in order, and then, for each of its directories
  -- that is not skipped, in order, on what the same walk of that directory comes upon.
  pub walk_lem :
      (es : Entries) → walk root opts ignore es ≡ files_of root opts ignore [] es ++ below [] es
  unfolding walk
  walk_lem es =
      walk_loop-all_below (suc (count_dirs root opts ignore es)) (([], es) ∷ []) (omega arith)
      ∙ append-nil _
