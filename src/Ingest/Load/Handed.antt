-- ===== src/Ingest/Load/Handed.antt =====
-- The text of an update has the lines that were staged.
use mathlib.Core.Path.{subst}
use chimera_ape.Base.{
  ℕ, ◌≡◌, refl, sym, ◌∙◌, ap, true, false, List, [], ◌∷◌, ◌++◌, arith, Bytes, codes, ◌==◌, ==_iff,
  starts_with, stream, not, append_assoc, Bool-cases, ◌⊎◌, inl, inr, All, if-cases,
}
use chimera_ape.Ingest.Load.{lines, first_more, without_prefixes, update_query}

-- A text somewhere in another.
pub record Within (part t : Bytes) : Type 0 where
  pub before : Bytes
  pub after : Bytes
  pub whole : t ≡ before ++ (part ++ after)

Within-prepend : (part less t : Bytes) → Within part t → Within part (less ++ t)
Within-prepend part less t w = record {
  before = less ++ w.before;
  after = w.after;
  whole = ap (◌++◌ less) w.whole ∙ sym (append_assoc less w.before (part ++ w.after));
}

-- The lines, each with a newline after it.
pub unlines : List Bytes → Bytes
unlines [] = []
unlines (l ∷ ls) = l ++ b'\n' ∷ unlines ls

-- A text is these lines, where the last one need not end in a newline.
pub record IsLines (t : Bytes) (ls : List Bytes) : Type 0 where
  pub joined : (unlines ls ≡ t) ⊎ (unlines ls ≡ t ++ b'\n' ∷ [])
  pub single : All (λ (l : Bytes). All (λ c. (c == b'\n') ≡ false) l) ls

no_text : (s : Bytes) → [] ≡ s ++ b'\n' ∷ [] → ⊥
no_text [] e = absurd (ground (arith, e))
no_text (c ∷ s) e = absurd (ground (arith, e))

IsLines-newline : (s : Bytes) (ls : List Bytes) → IsLines s ls → IsLines (b'\n' ∷ s) ([] ∷ ls)
unfolding unlines
IsLines-newline s ls h = record {
  joined = elim h.joined [ inl e ↦ inl (ap (◌∷◌ b'\n') e) | inr e ↦ inr (ap (◌∷◌ b'\n') e) ];
  single = (tt, h.single);
}

IsLines-first_more :
    (c : ℕ) (s : Bytes) (ls : List Bytes)
    → (c == b'\n') ≡ false
    → IsLines s ls
    → IsLines (c ∷ s) (first_more c ls)
unfolding unlines
IsLines-first_more c s [] other h = record {
  joined = elim h.joined [
    | inl e ↦ inr (ap (λ x. c ∷ (x ++ b'\n' ∷ [])) e)
    | inr e ↦ absurd (no_text s e)
  ];
  single = ((other, tt), tt);
}
IsLines-first_more c s (l ∷ ls) other h = record {
  joined = elim h.joined [ inl e ↦ inl (ap (◌∷◌ c) e) | inr e ↦ inr (ap (◌∷◌ c) e) ];
  single = ((other, h.single.0), h.single.1);
}

pub lines-IsLines : (t : Bytes) → IsLines t (lines t)
unfolding lines unlines
lines-IsLines [] = record { joined = inl refl; single = tt }
lines-IsLines (c ∷ s) = elim (Bool-cases (c == b'\n')) [
  | inl same ↦ rw (same, (==_iff c b'\n').0 same) (IsLines-newline s (lines s) (lines-IsLines s))
  | inr other ↦ rw other (IsLines-first_more c s (lines s) other (lines-IsLines s))
]

-- Every line but the declarations of prefixes is in a text.
abbrev pub Keeps : List Bytes → Bytes → Type 0
Keeps ls t =
    All (λ (l : Bytes). (starts_with (codes "@prefix") l ≡ true) ⊎ Within (l ++ b'\n' ∷ []) t) ls

Keeps-prepend : (ls : List Bytes) (less t : Bytes) → Keeps ls t → Keeps ls (less ++ t)
Keeps-prepend [] less t k = tt
Keeps-prepend (l ∷ ls) less t (inl e, k) = (inl e, Keeps-prepend ls less t k)
Keeps-prepend (l ∷ ls) less t (inr w, k) =
    (inr (Within-prepend _ less t w), Keeps-prepend ls less t k)

without_prefixes-Keeps : (ls : List Bytes) → Keeps ls (without_prefixes ls)
unfolding without_prefixes
without_prefixes-Keeps [] = tt
without_prefixes-Keeps (l ∷ ls) =
    let rest = without_prefixes ls in
    let line : (l ++ b'\n' ∷ []) ++ rest ≡ l ++ b'\n' ∷ rest = append_assoc l (b'\n' ∷ []) rest in
    if-cases (Keeps (l ∷ ls)) (not (starts_with (codes "@prefix") l)) _ _
      (λ other. (
        inr (record { before = []; after = rest; whole = sym line }),
        subst (Keeps ls) line (Keeps-prepend ls (l ++ b'\n' ∷ []) rest (without_prefixes-Keeps ls)),
      ))
      (λ prefix. (inl (ground arith), without_prefixes-Keeps ls))

-- A SPARQL update that inserts the lines of a Turtle text.
pub record Inserts (turtle query : Bytes) : Type 0 where
  pub rows : List Bytes
  pub inside : Bytes
  pub split : IsLines turtle rows
  pub kept : Keeps rows inside
  pub whole :
      query
      ≡ codes
          "PREFIX ch: <chimera://ontology#> PREFIX xsd: <http://www.w3.org/2001/XMLSchema#> INSERT DATA {\n"
        ++ (inside ++ codes "}")

pub update_query-Inserts : (staged : List Bytes) → Inserts (stream staged) (update_query staged)
unfolding update_query
update_query-Inserts staged = record {
  rows = lines (stream staged);
  inside = without_prefixes (lines (stream staged));
  split = lines-IsLines (stream staged);
  kept = without_prefixes-Keeps (lines (stream staged));
  whole = refl;
}
