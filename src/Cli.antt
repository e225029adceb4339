-- ===== src/Cli.antt =====
-- src/main.cpp and src/pipeline.h: the command line. The result is the command and its options, or the
-- code that the process exits with before a command runs.
pub mod Numbers
pub mod Flags
pub mod Render
use mathlib.Core.Option
use chimera_ape.Base.{
  ℕ, suc, Bool, true, false, not, ◌&&◌, ◌||◌, Option, none, some, List, [], ◌∷◌, ◌++◌, ◌==◌,
  if◌then◌else◌, Bytes, codes, bytes_eq, is_empty,
}
use chimera_ape.Util.Strtol.{ℤ, pos, int_of_text}

pub record Options : Type 0 where
  pub dir : Bytes
  pub query : Bytes
  pub search_file : Bytes
  pub sparql_text : Bytes
  pub db : Bytes
  pub model : Bytes
  pub gpu : Bytes
  pub include : List Bytes
  pub exclude : List Bytes
  pub paranoid : Bool
  pub fix : Bool
  pub json : Bool
  pub verbose : Bool
  pub k : ℤ
  pub hops : ℤ
  pub ctx_budget : ℤ

abbrev pub default_options : Options
default_options = record {
  dir = [];
  query = [];
  search_file = [];
  sparql_text = [];
  db = [];
  model = [];
  gpu = codes "auto";
  include = [];
  exclude = [];
  paranoid = false;
  fix = false;
  json = false;
  verbose = false;
  k = pos 24;
  hops = pos 1;
  ctx_budget = pos 8192;
}

pub data Command : Type 0 where
  ingest : Command
  search : Command
  status : Command
  verify : Command
  vacuum : Command
  sparql : Command

-- `o`, `cmd` (empty, or `search`) and `pos`.
pub record Parsed : Type 0 where
  pub options : Options
  pub searching : Bool
  pub positional : List Bytes

pub data Outcome : Type 0 where
  exits : ℕ → Outcome
  runs : Command → Options → Outcome

-- An argument: a flag with a value, a flag without one, a flag that ends the run, or a word.
pub data Arg : Type 0 where
  takes : (Bytes → Parsed → Parsed) → Arg
  sets : (Parsed → Parsed) → Arg
  ends : ℕ → Arg
  word : Arg

abbrev with_options : (Options → Options) → Parsed → Parsed
with_options f p = record p { options = f p.options }

abbrev begins_with_dash : Bytes → Bool
begins_with_dash [] = false
begins_with_dash (c ∷ s) = c == b'-'

-- The values of the flags.
unfoldable pub takes_value : Bytes → Option (Bytes → Parsed → Parsed)
unfolding bytes_eq int_of_text
takes_value a =
    if bytes_eq a (codes "--search")
    then some (λ v p. record p { searching = true; options = record p.options { query = v } })
    else if bytes_eq a (codes "--search-file")
    then some (λ v p. record p { searching = true; options = record p.options { search_file = v } })
    else if bytes_eq a (codes "--db")
    then some (λ v. with_options (λ o. record o { db = v }))
    else if bytes_eq a (codes "--include")
    then some (λ v. with_options (λ o. record o { include = o.include ++ v ∷ [] }))
    else if bytes_eq a (codes "--exclude")
    then some (λ v. with_options (λ o. record o { exclude = o.exclude ++ v ∷ [] }))
    else if bytes_eq a (codes "--k")
    then some (λ v. with_options (λ o. record o { k = int_of_text v }))
    else if bytes_eq a (codes "--hops")
    then some (λ v. with_options (λ o. record o { hops = int_of_text v }))
    else if bytes_eq a (codes "--ctx-budget")
    then some (λ v. with_options (λ o. record o { ctx_budget = int_of_text v }))
    else if bytes_eq a (codes "--model")
    then some (λ v. with_options (λ o. record o { model = v }))
    else if bytes_eq a (codes "--threads")
    then some (λ v p. p)
    else if bytes_eq a (codes "--gpu")
    then some (λ v. with_options (λ o. record o { gpu = v }))
    else none

-- An argument that takes no value.
unfoldable pub plain_arg : Bytes → Arg
unfolding bytes_eq
plain_arg a =
    if bytes_eq a (codes "--paranoid")
    then sets (with_options (λ o. record o { paranoid = true }))
    else if bytes_eq a (codes "--fix")
    then sets (with_options (λ o. record o { fix = true }))
    else if bytes_eq a (codes "--json")
    then sets (with_options (λ o. record o { json = true }))
    else if bytes_eq a (codes "--verbose")
    then sets (with_options (λ o. record o { verbose = true }))
    else if bytes_eq a (codes "--version") || bytes_eq a (codes "--help") || bytes_eq a (codes "-h")
    then ends 0
    else if begins_with_dash a
    then ends 2
    else word

unfoldable pub arg_of : Bytes → Arg
unfolding takes_value plain_arg
arg_of a = elim (takes_value a) [ some f ↦ takes f | none ↦ plain_arg a ]

pub data Scan : Type 0 where
  stopped : ℕ → Scan
  scanned : Parsed → Scan

-- The loop over `argv`.
unfoldable pub scan : List Bytes → Parsed → Scan
unfolding arg_of
scan [] p = scanned p
scan (a ∷ []) p = elim (arg_of a) [
  | takes f ↦ stopped 2
  | sets f ↦ scanned (f p)
  | ends code ↦ stopped code
  | word ↦ scanned (record p { positional = p.positional ++ a ∷ [] })
]
scan (a ∷ v ∷ args) p = elim (arg_of a) [
  | takes f ↦ scan args (f v p)
  | sets f ↦ scan (v ∷ args) (f p)
  | ends code ↦ stopped code
  | word ↦ scan (v ∷ args) (record p { positional = p.positional ++ a ∷ [] })
]

unfoldable pub named_command : Bytes → Option Command
unfolding bytes_eq
named_command w =
    if bytes_eq w (codes "ingest")
    then some ingest
    else if bytes_eq w (codes "verify")
    then some verify
    else if bytes_eq w (codes "status")
    then some status
    else if bytes_eq w (codes "vacuum")
    then some vacuum
    else if bytes_eq w (codes "sparql")
    then some sparql
    else none

-- The word after the command.
abbrev with_operand : Command → List Bytes → Options → Options
with_operand c [] o = o
with_operand sparql (w ∷ ws) o = record o { sparql_text = w }
with_operand c (w ∷ ws) o = record o { dir = w }

unfoldable pub choose : Parsed → Outcome
unfolding named_command
choose p = elim p.positional [
  | [] ↦ if p.searching then runs search p.options else exits 2
  | w ∷ ws ↦
      if p.searching then runs search (record p.options { dir = w }) else elim (named_command w) [
        | some c ↦ runs c (with_operand c ws p.options)
        | none ↦ runs ingest (record p.options { dir = w })
      ]
]

abbrev pub start : Parsed
start = record { options = default_options; searching = false; positional = [] }

unfoldable pub parse_command_line : List Bytes → Outcome
unfolding scan choose
parse_command_line args = elim (scan args start) [
  | stopped code ↦ exits code
  | scanned p ↦ choose p
]
