-- ===== src/Cli/Render.antt =====
-- src/main.cpp: command lines for given options.
use chimera_ape.Base.{
  ◌≡◌, ◌∙◌, refl, sym, ap, Bool, true, false, List, [], ◌∷◌, Bytes, codes, bytes_eq,
}
use chimera_ape.Cli.{
  Options, default_options, Command, ingest, search, status, verify, vacuum, sparql, Parsed, runs,
  begins_with_dash, takes_value, plain_arg, arg_of, scanned, scan, named_command, choose, start,
  parse_command_line,
}
use chimera_ape.Cli.Flags.{
  switches, flags, render, IsCount, Uses, scan-word, scan-include, scan-exclude, scan-switch,
  int_of_text-number,
}

-- Before any flag is read, and after all are.
abbrev fresh : Bool → List Bytes → Bytes → Bytes → Parsed
fresh searching words query file = record {
  options = record default_options { query = query; search_file = file };
  searching = searching;
  positional = words;
}

abbrev filled : Options → Bool → List Bytes → Bytes → Bytes → Parsed
filled o searching words query file = record {
  options = record o { dir = []; sparql_text = []; query = query; search_file = file };
  searching = searching;
  positional = words;
}

search_flags :
    (query file : Bytes) (args : List Bytes)
    → scan (codes "--search" ∷ query ∷ codes "--search-file" ∷ file ∷ args) start
      ≡ scan args (fresh true [] query file)
unfolding scan arg_of takes_value bytes_eq
search_flags query file args = refl

module _ (o : Options) (k : IsCount o.k) (hops : IsCount o.hops)
    (budget : IsCount o.ctx_budget) where
  scan-switches :
      (searching : Bool) (words : List Bytes) (query file : Bytes)
      → scan (switches o) (record (filled o searching words query file) {
        options = record (filled o searching words query file).options {
          paranoid = false;
          fix = false;
          json = false;
          verbose = false;
        };
      })
        ≡ scanned (filled o searching words query file)
  unfolding scan arg_of takes_value plain_arg bytes_eq
  scan-switches searching words query file =
      scan-switch (codes "--paranoid") o.paranoid _
        (λ b p. record p { options = record p.options { paranoid = b } }) _ refl refl
      ∙ scan-switch (codes "--fix") o.fix _
          (λ b p. record p { options = record p.options { fix = b } }) _ refl refl
      ∙ scan-switch (codes "--json") o.json _
          (λ b p. record p { options = record p.options { json = b } }) _ refl refl
      ∙ scan-switch (codes "--verbose") o.verbose _
          (λ b p. record p { options = record p.options { verbose = b } }) _ refl refl

  scan-flags :
      (searching : Bool) (words : List Bytes) (query file : Bytes)
      → scan (flags o) (fresh searching words query file)
        ≡ scanned (filled o searching words query file)
  unfolding scan arg_of takes_value bytes_eq
  scan-flags searching words query file =
      scan-include o.include _ _
      ∙ scan-exclude o.exclude _ _
      ∙ rw
          (
            int_of_text-number o.k k,
            int_of_text-number o.hops hops,
            int_of_text-number o.ctx_budget budget,
          )
          (scan-switches searching words query file)

  -- The words of a command that is not `search`.
  scan-words :
      (name operand : Bytes)
      → begins_with_dash name ≡ false
      → begins_with_dash operand ≡ false
      → scan (name ∷ operand ∷ flags o) start ≡ scanned (filled o false (name ∷ operand ∷ []) [] [])
  scan-words name operand plain_name plain_operand =
      scan-word name (operand ∷ flags o) start plain_name
      ∙ scan-word operand (flags o) (fresh false (name ∷ []) [] []) plain_operand
      ∙ scan-flags false (name ∷ operand ∷ []) [] []

  scan-search :
      begins_with_dash o.dir ≡ false
      → scan (render search o) start ≡ scanned (filled o true (o.dir ∷ []) o.query o.search_file)
  scan-search plain =
      search_flags o.query o.search_file (o.dir ∷ flags o)
      ∙ scan-word o.dir (flags o) (fresh true [] o.query o.search_file) plain
      ∙ scan-flags true (o.dir ∷ []) o.query o.search_file

  parsed_as :
      (args : List Bytes) (p : Parsed)
      → scan args start ≡ scanned p
      → parse_command_line args ≡ choose p
  unfolding parse_command_line
  parsed_as args p e = rw (e, parse_command_line) refl

  -- Where the fields that a command does not use are empty.
  unused :
      (c : Command) {query file text : Bytes}
      → query ≡ []
      → file ≡ []
      → text ≡ []
      → runs c (record o { query = []; search_file = []; sparql_text = [] })
        ≡ runs c (record o { query = query; search_file = file; sparql_text = text })
  unused c q f t = rw (q, f, t) refl

  -- A command line that names a command, its operand and every flag is read as that command with
  -- those options, where what the command does not use is left out, its operand does not begin with
  -- a dash and its numbers are those of an `int`.
  pub parse_command_line-render :
      (c : Command) → Uses c o → parse_command_line (render c o) ≡ runs c o
  unfolding choose named_command bytes_eq
  parse_command_line-render search (plain, text) =
      parsed_as _ _ (scan-search plain)
      ∙ ap (λ t. runs search (record o { sparql_text = t })) (sym text)
  parse_command_line-render sparql (plain, q, f, d) =
      parsed_as _ _ (scan-words (codes "sparql") o.sparql_text refl plain) ∙ rw (q, f, d) refl
  parse_command_line-render ingest (plain, q, f, t) =
      parsed_as _ _ (scan-words (codes "ingest") o.dir refl plain) ∙ unused ingest q f t
  parse_command_line-render status (plain, q, f, t) =
      parsed_as _ _ (scan-words (codes "status") o.dir refl plain) ∙ unused status q f t
  parse_command_line-render verify (plain, q, f, t) =
      parsed_as _ _ (scan-words (codes "verify") o.dir refl plain) ∙ unused verify q f t
  parse_command_line-render vacuum (plain, q, f, t) =
      parsed_as _ _ (scan-words (codes "vacuum") o.dir refl plain) ∙ unused vacuum q f t
