-- ===== src/Cli/Flags.antt =====
-- src/main.cpp: the flags of a command line, and what scanning them does.
use chimera_ape.Base.{
  ◌<◌, ◌^◌, ◌≡◌, ◌∙◌, refl, ap, Bool, true, false, List, [], ◌∷◌, ◌++◌, append_assoc, append-nil,
  ◌==◌, Bytes, codes, bytes_eq,
}
use chimera_ape.Util.Decimal.{decimal}
use chimera_ape.Util.Strtol.{ℤ, pos, negsuc, int_of_text}
use chimera_ape.Cli.{
  Options, Command, ingest, search, status, verify, vacuum, sparql, Parsed, sets, word,
  begins_with_dash, takes_value, plain_arg, arg_of, scan,
}
use chimera_ape.Cli.Numbers.{int_of_text-decimal}

abbrev pub number_text : ℤ → Bytes
number_text (pos n) = decimal n
number_text (negsuc n) = []

abbrev pub listed : Bytes → List Bytes → List Bytes → List Bytes
listed flag [] rest = rest
listed flag (x ∷ xs) rest = flag ∷ x ∷ listed flag xs rest

abbrev pub switch : Bytes → Bool → List Bytes → List Bytes
switch flag true rest = flag ∷ rest
switch flag false rest = rest

abbrev pub switches : Options → List Bytes
switches o = switch (codes "--paranoid") o.paranoid (
    switch (codes "--fix") o.fix
      (switch (codes "--json") o.json (switch (codes "--verbose") o.verbose [])))

-- Every flag that does not choose the command.
abbrev pub flags : Options → List Bytes
flags o =
    codes "--db"
    ∷ o.db
    ∷ codes "--model"
    ∷ o.model
    ∷ codes "--gpu"
    ∷ o.gpu
    ∷ codes "--k"
    ∷ number_text o.k
    ∷ codes "--hops"
    ∷ number_text o.hops
    ∷ codes "--ctx-budget"
    ∷ number_text o.ctx_budget
    ∷ listed (codes "--include") o.include (listed (codes "--exclude") o.exclude (switches o))

abbrev pub command_name : Command → Bytes
command_name ingest = codes "ingest"
command_name search = codes "search"
command_name status = codes "status"
command_name verify = codes "verify"
command_name vacuum = codes "vacuum"
command_name sparql = codes "sparql"

abbrev pub render : Command → Options → List Bytes
render search o =
    codes "--search" ∷ o.query ∷ codes "--search-file" ∷ o.search_file ∷ o.dir ∷ flags o
render sparql o = codes "sparql" ∷ o.sparql_text ∷ flags o
render c o = command_name c ∷ o.dir ∷ flags o

abbrev pub IsCount : ℤ → Type 0
IsCount (pos n) = n < 2 ^ 31
IsCount (negsuc n) = ⊥

-- The operand of a command is a word, and what a command does not use is not set.
abbrev pub Uses : Command → Options → Type 0
Uses search o = (begins_with_dash o.dir ≡ false) × (o.sparql_text ≡ [])
Uses sparql o =
    (begins_with_dash o.sparql_text ≡ false) × (o.query ≡ []) × (o.search_file ≡ []) × (o.dir ≡ [])
Uses c o =
    (begins_with_dash o.dir ≡ false) × (o.query ≡ []) × (o.search_file ≡ []) × (o.sparql_text ≡ [])

pub scan-sets :
    (a : Bytes) (args : List Bytes) (f : Parsed → Parsed) (p : Parsed)
    → arg_of a ≡ sets f
    → scan (a ∷ args) p ≡ scan args (f p)
unfolding scan
scan-sets a [] f p e = rw (e, scan) refl
scan-sets a (v ∷ args) f p e = rw (e, scan) refl

pub arg_of-word : (a : Bytes) → begins_with_dash a ≡ false → arg_of a ≡ word
unfolding arg_of takes_value plain_arg bytes_eq
arg_of-word [] h = refl
arg_of-word (c ∷ s) h = rw (dash, arg_of) (rw (dash, plain_arg) refl)
  where
    dash : (c == b'-') ≡ false
    dash = h

pub scan-word :
    (a : Bytes) (args : List Bytes) (p : Parsed)
    → begins_with_dash a ≡ false
    → scan (a ∷ args) p ≡ scan args (record p { positional = p.positional ++ a ∷ [] })
unfolding scan
scan-word a [] p h = rw (arg_of-word a h, scan) refl
scan-word a (v ∷ args) p h = rw (arg_of-word a h, scan) refl

abbrev pub with_include : List Bytes → Parsed → Parsed
with_include xs p = record p { options = record p.options { include = p.options.include ++ xs } }

abbrev pub with_exclude : List Bytes → Parsed → Parsed
with_exclude xs p = record p { options = record p.options { exclude = p.options.exclude ++ xs } }

pub scan-include :
    (xs args : List Bytes) (p : Parsed)
    → scan (listed (codes "--include") xs args) p ≡ scan args (with_include xs p)
unfolding scan takes_value arg_of bytes_eq
scan-include [] args p = rw (append-nil p.options.include) refl
scan-include (x ∷ xs) args p =
    scan-include xs args (with_include (x ∷ []) p)
    ∙ ap (λ l. scan args (record p { options = record p.options { include = l } }))
        (append_assoc p.options.include (x ∷ []) xs)

pub scan-exclude :
    (xs args : List Bytes) (p : Parsed)
    → scan (listed (codes "--exclude") xs args) p ≡ scan args (with_exclude xs p)
unfolding scan takes_value arg_of bytes_eq
scan-exclude [] args p = rw (append-nil p.options.exclude) refl
scan-exclude (x ∷ xs) args p =
    scan-exclude xs args (with_exclude (x ∷ []) p)
    ∙ ap (λ l. scan args (record p { options = record p.options { exclude = l } }))
        (append_assoc p.options.exclude (x ∷ []) xs)

pub scan-switch :
    (flag : Bytes) (b : Bool) (args : List Bytes) (f : Bool → Parsed → Parsed) (p : Parsed)
    → arg_of flag ≡ sets (f true)
    → f false p ≡ p
    → scan (switch flag b args) p ≡ scan args (f b p)
scan-switch flag true args f p e id = scan-sets flag args (f true) p e
scan-switch flag false args f p e id = rw id refl

pub int_of_text-number : (z : ℤ) → IsCount z → int_of_text (number_text z) ≡ z
int_of_text-number (pos n) h = int_of_text-decimal n h
int_of_text-number (negsuc _) h = elim h [ ]
