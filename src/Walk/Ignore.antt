-- ===== src/Walk/Ignore.antt =====
-- src/walk.cpp: the rules of `.chimeraignore`.
use chimera_ape.Base.{
  Bool, false, ◌&&◌, ◌||◌, Option, none, some, List, [], ◌∷◌, ◌==◌, if◌then◌else◌, Bytes, is_empty,
  isspace,
}
use chimera_ape.Walk.Glob.{glob_match}

pub record IgnoreRules : Type 0 where
  pub patterns : List Bytes
  pub dir_patterns : List Bytes

unfoldable pub any_match : List Bytes → Bytes → Bool
unfolding glob_match
any_match [] rel = false
any_match (p ∷ ps) rel = glob_match p rel || any_match ps rel

unfoldable pub ignored : IgnoreRules → Bytes → Bool → Bool
unfolding any_match
ignored r rel is_dir = any_match r.patterns rel || (is_dir && any_match r.dir_patterns rel)

-- `line.erase(line.find('#'))`
unfoldable pub strip_comment : Bytes → Bytes
strip_comment [] = []
strip_comment (c ∷ s) = let rest = strip_comment s in if c == b'#' then [] else c ∷ rest

-- `while (!line.empty() && isspace(line.back())) line.pop_back();`
unfoldable pub strip_end : Bytes → Bytes
unfolding isspace
strip_end [] = []
strip_end (c ∷ s) = let rest = strip_end s in if is_empty rest && isspace c then [] else c ∷ rest

unfoldable pub strip_start : Bytes → Bytes
unfolding isspace
strip_start [] = []
strip_start (c ∷ s) = let rest = strip_start s in if isspace c then rest else c ∷ s

-- The line without its last slash, if it ends in one.
unfoldable pub before_slash : Bytes → Option Bytes
before_slash [] = none
before_slash (c ∷ []) = if c == b'/' then some [] else none
before_slash (c ∷ s) = elim (before_slash s) [ none ↦ none | some t ↦ some (c ∷ t) ]

unfoldable pub ignore_line : Bytes → Bytes
unfolding strip_comment strip_end strip_start
ignore_line line = strip_start (strip_end (strip_comment line))

unfoldable pub add_rule : Bytes → IgnoreRules → IgnoreRules
unfolding before_slash
add_rule line r = if is_empty line then r else elim (before_slash line) [
  | none ↦ record r { patterns = line ∷ r.patterns }
  | some d ↦ record r { dir_patterns = d ∷ r.dir_patterns }
]

-- The rules of the lines of the file, each before those of the later lines.
unfoldable pub load_ignore : List Bytes → IgnoreRules
unfolding ignore_line add_rule
load_ignore [] = record { patterns = []; dir_patterns = [] }
load_ignore (l ∷ ls) = add_rule (ignore_line l) (load_ignore ls)
