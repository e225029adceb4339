-- ===== src/Walk/Glob/Meaning.antt =====
-- What a pattern means, with no search order in it, and that the matcher decides it.
use mathlib.Core.Path.{subst}
use chimera_ape.Base.{
  ℕ, ◌≡◌, ◌≢◌, refl, sym, ap, ◌↔◌, inl, inr, Bool, true, false, not, ◌&&◌, List, [], ◌∷◌, ◌++◌,
  arith, ◌==◌, ==_iff, if◌then◌else◌, Bool-cases, Bytes, is_empty, All, if-cases,
}
use chimera_ape.Walk.Glob.{star_loop, one_byte, glob_core}

-- The parts of a pattern: `**`, `*`, `?` or a byte.
pub data Item : Type 0 where
  any_run run any : Item
  literal : ℕ → Item

abbrev item : ℕ → Item
item pc = if pc == b'?' then any else literal pc

abbrev pub items : Bytes → List Item
items [] = []
items (pc ∷ []) = (if pc == b'*' then run else item pc) ∷ []
items (pc ∷ q ∷ pat) =
    let double = items pat in
    let rest = items (q ∷ pat) in
    if pc == b'*' then (if q == b'*' then any_run ∷ double else run ∷ rest) else item pc ∷ rest

-- `**` stands for any run of bytes, `*` for one with no slash, `?` for any byte.
abbrev pub Matches : List Item → Bytes → Type 0
Matches [] s = s ≡ []
Matches (any_run ∷ is) s = (a : Bytes) × (b : Bytes) × (s ≡ a ++ b) × Matches is b
Matches (run ∷ is) s =
    (a : Bytes) × (b : Bytes) × (s ≡ a ++ b) × All (λ c. c ≢ b'/') a × Matches is b
Matches (any ∷ is) s = (c : ℕ) × (b : Bytes) × (s ≡ c ∷ b) × Matches is b
Matches (literal x ∷ is) s = (b : Bytes) × (s ≡ x ∷ b) × Matches is b

-- `next` decides `P`.
abbrev Decides : (Bytes → Bool) → (Bytes → Type 0) → Type 0
Decides next P = (s : Bytes) → (next s ≡ true) ↔ P s

-- The bytes that a star may run over.
abbrev MayRun : Bool → ℕ → Type 0
MayRun dbl c = dbl ≡ false → c ≢ b'/'

module _ (dbl : Bool) (next : Bytes → Bool) (P : Bytes → Type 0) (d : Decides next P) where
  star_loop_sound :
      (s : Bytes)
      → star_loop dbl next s ≡ true
      → (a : Bytes) × (b : Bytes) × (s ≡ a ++ b) × All (MayRun dbl) a × P b
  unfolding star_loop
  star_loop_sound [] e = ([], [], refl, tt, (d []).0 e)
  star_loop_sound (c ∷ s) e = elim (Bool-cases (next (c ∷ s))) [
    | inl here ↦ ([], c ∷ s, refl, tt, (d (c ∷ s)).0 here)
    | inr later ↦ elim (Bool-cases (not dbl && c == b'/')) [
      | inl stop ↦ absurd (ground arith)
      | inr go ↦
          let (a, b, split, free, p) = star_loop_sound s (ground arith) in
          (c ∷ a, b, ap (◌∷◌ c) split, (ground arith, free), p)
    ]
  ]

  star_loop_here : (b : Bytes) → P b → star_loop dbl next b ≡ true
  unfolding star_loop
  star_loop_here [] p = (d []).1 p
  star_loop_here (c ∷ s) p = rw ((d (c ∷ s)).1 p)

  star_loop_complete : (a b : Bytes) → All (MayRun dbl) a → P b → star_loop dbl next (a ++ b) ≡ true
  unfolding star_loop
  star_loop_complete [] b free p = star_loop_here b p
  star_loop_complete (c ∷ a) b free p = ground (arith, star_loop_complete a b free.1 p, free.0)

All-true : (a : Bytes) → All (MayRun true) a
All-true [] = tt
All-true (c ∷ a) = (λ e. cc e, All-true a)

All-false : (a : Bytes) → All (MayRun false) a → All (λ c. c ≢ b'/') a
All-false [] h = tt
All-false (c ∷ a) h = (h.0 refl, All-false a h.1)

All-MayRun : (a : Bytes) → All (λ c. c ≢ b'/') a → All (MayRun false) a
All-MayRun [] h = tt
All-MayRun (c ∷ a) h = (λ _. h.0, All-MayRun a h.1)

module _ (next : Bytes → Bool) (is : List Item) (d : Decides next (Matches is)) where
  any_run_iff : Decides (star_loop true next) (Matches (any_run ∷ is))
  any_run_iff s = (
    λ e. let (a, b, split, _, p) = star_loop_sound true next (Matches is) d s e in (a, b, split, p),
    λ h. rw h.2 (star_loop_complete true next (Matches is) d h.0 h.1 (All-true h.0) h.3),
  )

  run_iff : Decides (star_loop false next) (Matches (run ∷ is))
  run_iff s = (
    λ e.
        let (a, b, split, free, p) = star_loop_sound false next (Matches is) d s e in
        (a, b, split, All-false a free, p),
    λ h. rw h.2 (star_loop_complete false next (Matches is) d h.0 h.1 (All-MayRun h.0 h.3) h.4),
  )

  tail_next : (x y : ℕ) (s b : Bytes) → x ∷ s ≡ y ∷ b → Matches is b → next s ≡ true
  tail_next x y s b e p = let same : b ≡ s = cc e in (d s).1 (subst (Matches is) same p)

  any_nil : (false ≡ true) ↔ Matches (any ∷ is) []
  any_nil = (λ t. absurd (cc t), λ h. absurd (cc h.2))

  literal_nil : (x : ℕ) → (false ≡ true) ↔ Matches (literal x ∷ is) []
  literal_nil x = (λ t. absurd (cc t), λ h. absurd (cc h.1))

  literal_cons :
      (pc c : ℕ) (s : Bytes)
      → ((if not (pc == c) then false else next s) ≡ true) ↔ Matches (literal pc ∷ is) (c ∷ s)
  literal_cons pc c s = (
    λ e. elim (Bool-cases (pc == c)) [
      | inl same ↦ (
        s,
        ap (λ x. x ∷ s) (sym ((==_iff pc c).0 same)),
        (d s).0 (subst (λ b. (if not b then false else next s) ≡ true) same e),
      )
      | inr other ↦ absurd (ground arith)
    ],
    λ h. let same : pc ≡ c = cc (h.1) in rw ((==_iff pc c).1 same) (tail_next c pc s h.0 h.1 h.2),
  )

  item_iff : (pc : ℕ) → Decides (one_byte pc next) (Matches (item pc ∷ is))
  unfolding one_byte
  item_iff pc [] =
      if-cases (λ i. (false ≡ true) ↔ Matches (i ∷ is) []) (pc == b'?') any (literal pc)
        (λ _. any_nil) (λ _. literal_nil pc)
  item_iff pc (c ∷ s) = elim (Bool-cases (pc == b'?')) [
    | inl q ↦ rw q (λ e. (c, s, refl, (d s).0 e), λ h. tail_next c h.0 s h.1 h.2 h.3)
    | inr q ↦ rw q (literal_cons pc c s)
  ]

nil_iff : Decides is_empty (Matches [])
nil_iff [] = (λ _. refl, λ _. refl)
nil_iff (c ∷ s) = (λ e. absurd (cc e), λ e. absurd (cc e))

-- The matcher accepts a text exactly when the text matches the items of the pattern.
pub glob_core_iff : (pat s : Bytes) → (glob_core pat s ≡ true) ↔ Matches (items pat) s
unfolding glob_core
glob_core_iff [] s = nil_iff s
glob_core_iff (pc ∷ []) s = elim (Bool-cases (pc == b'*')) [
  | inl star ↦ rw star (run_iff is_empty [] nil_iff s)
  | inr other ↦ rw other (item_iff is_empty [] nil_iff pc s)
]
glob_core_iff (pc ∷ q ∷ pat) s =
    let after = glob_core_iff (q ∷ pat) in
    let after_both = glob_core_iff pat in
    elim (Bool-cases (pc == b'*')) [
      | inl star ↦ elim (Bool-cases (q == b'*')) [
        | inl double ↦ rw (star, double) (any_run_iff (glob_core pat) (items pat) after_both s)
        | inr single ↦ rw (star, single) (run_iff (glob_core (q ∷ pat)) (items (q ∷ pat)) after s)
      ]
      | inr other ↦ rw other (item_iff (glob_core (q ∷ pat)) (items (q ∷ pat)) after pc s)
    ]
