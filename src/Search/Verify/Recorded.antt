-- ===== src/Search/Verify/Recorded.antt =====
-- src/search.cpp: when `verify` succeeds. `tap` is the identifier that `triple_tap` gives a file now.
use chimera_ape.Base.{
  ℕ, ◌+◌, ◌≡◌, ◌⊎◌, ◌↔◌, inl, inr, refl, sym, ◌∙◌, ap, ◌≤◌, arith, Bool, true, ◌&&◌, ◌<◌, Any,
  Option, none, some, List, [], ◌∷◌, Bytes, bytes_eq, bytes_eq_iff, All, Option-cases, Bool-cases,
  ltb,
}
use chimera_ape.Manifest.{PathInfo, Manifest}
use chimera_ape.Manifest.Ops.{path_info}
use chimera_ape.Walk.{WalkEntry}
use chimera_ape.Search.Verify.{
  Tally, no_tally, compare_with, check_entry, check_entries, verify_end, run_verify,
}

known_unique : (k known : PathInfo) → some k ≡ some known → k ≡ known
known_unique k known e = cc

same_id : (a b : Bytes) → some a ≡ some b → a ≡ b
same_id a b e = cc

module _ (m : Manifest) (tap : Bytes → Option Bytes) where
  -- The file was never ingested, or has now the identifier that its row says.
  abbrev pub IsRecorded : WalkEntry → Type 0
  IsRecorded e =
      (path_info e.rel_path m ≡ none)
      ⊎ ((known : PathInfo) × (path_info e.rel_path m ≡ some known)
          × (tap e.abs_path ≡ some known.doc_id))

  -- The file was ingested, and has another identifier now.
  pub record IsDrifted (e : WalkEntry) : Type 0 where
    pub known : PathInfo
    pub id : Bytes
    pub found : path_info e.rel_path m ≡ some known
    pub tapped : tap e.abs_path ≡ some id
    pub differs : ¬ (id ≡ known.doc_id)

  troubles : Tally → ℕ
  troubles t = t.drifted + t.missing

  compare_with-troubles :
      (known : PathInfo) (found : Option Bytes) (e : WalkEntry) (t : Tally)
      → ((found ≡ some known.doc_id) × (troubles (compare_with known found e t) ≡ troubles t))
        ⊎ ((¬ (found ≡ some known.doc_id))
            × (troubles (compare_with known found e t) ≡ troubles t + 1))
  unfolding compare_with troubles
  compare_with-troubles known none e t = inr ((λ f. cc), omega arith)
  compare_with-troubles known (some id) e t = elim (Bool-cases (bytes_eq id known.doc_id)) [
    | inl same ↦ inl (ap some ((bytes_eq_iff id known.doc_id).0 same), rw same refl)
    | inr other ↦ inr (
      (λ f. let same = (bytes_eq_iff id known.doc_id).1 (cc f) in ground (arith, same, other)),
      rw other (omega arith),
    )
  ]

  -- A file that is not recorded is one more trouble.
  check_entry-troubles :
      (e : WalkEntry) (t : Tally)
      → (IsRecorded e × (troubles (check_entry m tap e t) ≡ troubles t))
        ⊎ ((¬ IsRecorded e) × (troubles (check_entry m tap e t) ≡ troubles t + 1))
  unfolding check_entry
  check_entry-troubles e t = elim (Option-cases (path_info e.rel_path m)) [
    | inl new ↦ inl (inl new, rw (new, check_entry) refl)
    | inr (known, found) ↦ elim (compare_with-troubles known (tap e.abs_path) e t) [
      | inl (same, n) ↦ inl (inr (known, found, same), rw (found, check_entry) n)
      | inr (other, n) ↦ inr (
        (λ r. elim r [
          | inl new ↦ absurd (cc (new, found))
          | inr (k, found', same) ↦
              other (same ∙ ap (λ x. some x.doc_id) (known_unique k known (sym found' ∙ found)))
        ]),
        rw (found, check_entry) n,
      )
    ]
  ]

  grows : (es : List WalkEntry) (t : Tally) → troubles t ≤ troubles (check_entries m tap es t)
  unfolding check_entries
  grows [] t = omega arith
  grows (e ∷ es) t =
      let later = grows es (check_entry m tap e t) in
      elim (check_entry-troubles e t) [
        | inl (r, n) ↦ omega (arith, later, n)
        | inr (r, n) ↦ omega (arith, later, n)
      ]

  check_entries-troubles :
      (es : List WalkEntry) (t : Tally)
      → (troubles (check_entries m tap es t) ≡ troubles t) ↔ All IsRecorded es
  unfolding check_entries
  check_entries-troubles [] t = ((λ e. tt), (λ h. refl))
  check_entries-troubles (e ∷ es) t =
      let t' = check_entry m tap e t in
      let later = check_entries-troubles es t' in
      let more = grows es t' in
      elim (check_entry-troubles e t) [
        | inl (r, n) ↦ ((λ same. (r, later.0 (same ∙ sym n))), (λ h. later.1 h.1 ∙ n))
        | inr (r, n) ↦ ((λ same. absurd (omega (arith, same, more, n))), (λ h. absurd (r h.0)))
      ]

  compare_with-drifted :
      (known : PathInfo) (e : WalkEntry) (t : Tally)
      → path_info e.rel_path m ≡ some known
      → (((compare_with known (tap e.abs_path) e t).drifted ≡ t.drifted) × (¬ IsDrifted e))
        ⊎ (((compare_with known (tap e.abs_path) e t).drifted ≡ t.drifted + 1) × IsDrifted e)
  unfolding compare_with
  compare_with-drifted known e t found = elim (Option-cases (tap e.abs_path)) [
    | inl gone ↦ rw gone (inl (refl, λ d. let e' = d.tapped in absurd (cc (e', gone))))
    | inr (id, tapped) ↦ elim (Bool-cases (bytes_eq id known.doc_id)) [
      | inl same ↦
          rw (tapped, compare_with, same)
            (inl (
              refl,
              λ d.
                  let one : d.id ≡ id = same_id d.id id (sym d.tapped ∙ tapped) in
                  let two : d.known ≡ known = known_unique d.known known (sym d.found ∙ found) in
                  d.differs (
                    one
                    ∙ (bytes_eq_iff id known.doc_id).0 same
                    ∙ sym (ap (λ (x : PathInfo). x.doc_id) two)),
            ))
      | inr other ↦
          rw (tapped, compare_with, other)
            (inr (
              refl,
              record {
                known = known;
                id = id;
                found = found;
                tapped = tapped;
                differs = λ e'.
                    let same = (bytes_eq_iff id known.doc_id).1 e' in ground (arith, same, other);
              },
            ))
    ]
  ]

  check_entry-drifted :
      (e : WalkEntry) (t : Tally)
      → (((check_entry m tap e t).drifted ≡ t.drifted) × (¬ IsDrifted e))
        ⊎ (((check_entry m tap e t).drifted ≡ t.drifted + 1) × IsDrifted e)
  unfolding check_entry
  check_entry-drifted e t = elim (Option-cases (path_info e.rel_path m)) [
    | inl new ↦ rw (new, check_entry) (inl (refl, λ d. let e' = d.found in absurd (cc (e', new))))
    | inr (known, found) ↦ rw (found, check_entry) (compare_with-drifted known e t found)
  ]

  some_drifted :
      (es : List WalkEntry) (t : Tally)
      → (0 < (check_entries m tap es t).drifted) ↔ ((0 < t.drifted) ⊎ Any IsDrifted es)
  unfolding check_entries
  some_drifted [] t =
      ((λ h. inl h), (λ h. elim h [ inl h' ↦ h' | inr none_left ↦ elim none_left [ ] ]))
  some_drifted (e ∷ es) t =
      let later = some_drifted es (check_entry m tap e t) in
      elim (check_entry-drifted e t) [
        | inl (same, sound) ↦ (
          (λ h. elim (later.0 h) [
            | inl before ↦ inl (omega (arith, before, same))
            | inr there ↦ inr (inr there)
          ]),
          (λ h. later.1 (elim h [
            | inl before ↦ inl (omega (arith, before, same))
            | inr (inl d) ↦ absurd (sound d)
            | inr (inr there) ↦ inr there
          ])),
        )
        | inr (more, d) ↦ ((λ h. inr (inl d)), (λ h. later.1 (inl (omega (arith, more)))))
      ]

  -- `verify` exits with 0 exactly when every file of the corpus is new to the manifest or has the
  -- identifier that its row says, or, with `--fix`, when some file has another and the run of ingest
  -- that follows exits with 0.
  pub run_verify_iff :
      (ingest : ℕ) (fix : Bool) (entries : List WalkEntry)
      → (run_verify m tap ingest fix entries ≡ 0)
        ↔ (All IsRecorded entries ⊎ ((fix ≡ true) × Any IsDrifted entries × (ingest ≡ 0)))
  unfolding run_verify verify_end troubles
  run_verify_iff ingest fix entries =
      let t = check_entries m tap entries no_tally in
      let tally = check_entries-troubles entries no_tally in
      let drifted = some_drifted entries no_tally in
      elim (Bool-cases (fix && ltb 0 t.drifted)) [
        | inl again ↦ rw again (
          (λ e. inr (ground (arith, again), drift entries (drifted.0 (ground (arith, again))), e)),
          (λ h. elim h [
            | inl all ↦ let none_left = tally.1 all in absurd (ground (arith, again, none_left))
            | inr (_, _, e) ↦ e
          ]),
        )
        | inr done ↦ rw done (
          (λ e. inl (tally.0 (ground (arith, e)))),
          (λ h. elim h [
            | inl all ↦ let none_left = tally.1 all in ground (arith, none_left)
            | inr (fixes, d, _) ↦
                let some_left = drifted.1 (inr d) in absurd (ground (arith, done, fixes, some_left))
          ]),
        )
      ]
    where
      drift : (es : List WalkEntry) → ((0 < 0) ⊎ Any IsDrifted es) → Any IsDrifted es
      drift es (inl never) = absurd (omega (arith, never))
      drift es (inr d) = d
