-- ===== src/Walk/Glob/Paths.antt =====
-- What it means that a pattern matches a path, and that `glob_match` decides it.
use chimera_ape.Base.{◌≡◌, ◌⊎◌, false, List, [], ◌∷◌, Bytes}
use chimera_ape.Walk.Glob.{has_slash, components}
use chimera_ape.Walk.Glob.Meaning.{Matches, items}

-- One of the items has the property.
abbrev pub AnyOf : (Bytes → Type 0) → List Bytes → Type 0
AnyOf P [] = ⊥
AnyOf P (x ∷ xs) = P x ⊎ AnyOf P xs

-- A pattern with no slash may match a single component.
abbrev pub MatchesPath : Bytes → Bytes → Type 0
MatchesPath pattern path =
    Matches (items pattern) path
    ⊎ ((has_slash pattern ≡ false) × AnyOf (Matches (items pattern)) (components path))
