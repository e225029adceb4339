-- ===== src/Walk/Glob.antt =====
-- src/walk.cpp: the glob matcher. A position in a string is the rest of the string from there.
pub mod Meaning
pub mod Paths
use chimera_ape.Base.{
  ℕ, Bool, true, false, not, ◌&&◌, ◌||◌, List, [], ◌∷◌, ◌==◌, if◌then◌else◌, Bytes, is_empty,
}

-- `for (k = si; k <= s.size(); ++k)`: the rest of the pattern is tried at every position, up to a
-- slash unless the star is double.
pub star_loop : Bool → (Bytes → Bool) → Bytes → Bool
star_loop dbl next [] = next []
star_loop dbl next (c ∷ s) =
    let onward = star_loop dbl next s in
    if next (c ∷ s) then true else if not dbl && c == b'/' then false else onward

pub one_byte : ℕ → (Bytes → Bool) → Bytes → Bool
one_byte pc next [] = false
one_byte pc next (c ∷ s) = if not (pc == b'?') && not (pc == c) then false else next s

unfoldable pub glob_core : Bytes → Bytes → Bool
unfolding star_loop one_byte
glob_core [] s = is_empty s
glob_core (pc ∷ []) s =
    if pc == b'*' then star_loop false (glob_core []) s else one_byte pc (glob_core []) s
glob_core (pc ∷ q ∷ pat) s =
    if pc == b'*'
    then (if q == b'*'
        then star_loop true (glob_core pat) s
        else star_loop false (glob_core (q ∷ pat)) s)
    else one_byte pc (glob_core (q ∷ pat)) s

pub has_slash : Bytes → Bool
has_slash [] = false
has_slash (c ∷ s) = c == b'/' || has_slash s

abbrev first_more : ℕ → List Bytes → List Bytes
first_more c [] = (c ∷ []) ∷ []
first_more c (p ∷ ps) = (c ∷ p) ∷ ps

-- The parts of a path between its slashes.
pub components : Bytes → List Bytes
components [] = [] ∷ []
components (c ∷ s) = let rest = components s in if c == b'/' then [] ∷ rest else first_more c rest

pub any_component : Bytes → List Bytes → Bool
any_component pattern [] = false
any_component pattern (p ∷ ps) = if glob_core pattern p then true else any_component pattern ps

unfoldable pub glob_match : Bytes → Bytes → Bool
unfolding glob_core has_slash components any_component
glob_match pattern path =
    if glob_core pattern path
    then true
    else if not (has_slash pattern)
    then any_component pattern (components path)
    else false
