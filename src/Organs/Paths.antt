-- ===== src/Organs/Paths.antt =====
-- src/organs.cpp and src/organs.h: where the servers' binaries and the model lie.
use chimera_ape.Base.{
  ◌||◌, ◌==◌, suc, Bool, true, false, not, ◌&&◌, Option, none, some, List, [], ◌∷◌, ◌++◌,
  if◌then◌else◌, Bytes, codes, bytes_eq, is_empty, take, drop,
}
use chimera_ape.Walk.Names.{last_index_of}

pub record RuntimePaths : Type 0 where
  pub llamafile : Bytes
  pub model : Bytes
  pub mmproj : Bytes
  pub qlever_server : Bytes
  pub qlever_index : Bytes
  pub turbovec : Bytes

-- The files by their paths.
abbrev pub Files : Type 0
Files = Bytes → Option Bytes

abbrev holds : Option Bytes → Bool
holds none = false
holds (some bytes) = not (is_empty bytes)

unfoldable pub file_nonempty : Files → Bytes → Bool
file_nonempty fs p = if is_empty p then false else holds (fs p)

-- What the process starts with: the assets in the binary, the variables, and whether a file can be
-- renamed to its place.
pub record Environment : Type 0 where
  pub zip : Bytes → Option Bytes
  pub env : Bytes → Bytes
  pub renames : Bytes → Bool

-- `path.parent_path()` and `path.filename()`.
abbrev parent_path : Bytes → Bytes
parent_path p = elim (last_index_of b'/' p) [
  | none ↦ []
  | some i ↦ if i == 0 then codes "/" else take i p
]

abbrev ends_slash : Bytes → Bool
ends_slash [] = false
ends_slash (c ∷ []) = c == b'/'
ends_slash (c ∷ s) = ends_slash s

abbrev filename : Bytes → Bytes
filename p = elim (last_index_of b'/' p) [ none ↦ p | some i ↦ drop (suc i) p ]

abbrev join : Bytes → Bytes → Bytes
join dir name = if is_empty dir || ends_slash dir then dir ++ name else dir ++ codes "/" ++ name

module _ (e : Environment) where
  abbrev written : Bytes → Bytes → Files → Files
  written dst bytes fs p = if bytes_eq p dst then some bytes else fs p

  -- The file is there afterwards, or it is not embedded or cannot be put in place.
  unfoldable pub extract_one : Bytes → Bytes → Files → Files × Bool
  unfolding file_nonempty bytes_eq
  extract_one zip_name dst fs = if file_nonempty fs dst then (fs, true) else elim (e.zip zip_name) [
    | none ↦ (fs, false)
    | some bytes ↦
        if e.renames dst
        then (written dst bytes fs, file_nonempty (written dst bytes fs) dst)
        else (fs, false)
  ]

  unfoldable pub try_names : List Bytes → Bytes → Files → Files × Bool
  unfolding extract_one
  try_names [] dst fs = (fs, false)
  try_names (n ∷ ns) dst fs =
      let (after, done) = extract_one n dst fs in
      let later = try_names ns dst after in if done then (after, true) else later

  unfoldable pub extract_first : List Bytes → Bytes → Files → Files × Bool
  unfolding try_names file_nonempty
  extract_first names dst fs = if file_nonempty fs dst then (fs, true) else try_names names dst fs

  abbrev bin : Bytes → Bytes
  bin db_dir = db_dir ++ codes "/runtime/bin/"

  abbrev mod_dir : Bytes → Bytes
  mod_dir db_dir = db_dir ++ codes "/runtime/model/"

  -- The files after everything that the binary carries is extracted.
  unfoldable pub extract_all : Bytes → Files → Files
  unfolding extract_one extract_first
  extract_all db_dir fs =
      let one : Bytes → Files → Files = λ name g. (extract_one name (bin db_dir ++ name) g).0 in
      let f₁ =
        one (codes "turbovec-server")
          (one (codes "qlever-index") (one (codes "qlever-server") (one (codes "llamafile") fs))) in
      let f₂ =
        (extract_first (codes "model.gguf" ∷ codes "gemma-4-12b-it-qat-q4_0.gguf" ∷ [])
          (mod_dir db_dir ++ codes "model.gguf") f₁).0 in
      (extract_first (codes "mmproj.gguf" ∷ codes "mmproj-gemma-4-12b-it-qat-q4_0.gguf" ∷ [])
        (mod_dir db_dir ++ codes "mmproj.gguf") f₂).0

  unfoldable pub pick : Files → Bytes → Bytes → Bytes
  unfolding file_nonempty
  pick fs internal external =
      if file_nonempty fs internal
      then internal
      else if not (is_empty external)
      then external
      else internal

  unfoldable pub pick_model : Files → Bytes → Bytes → Bytes
  unfolding pick
  pick_model fs db_dir model_flag =
      if not (is_empty model_flag)
      then model_flag
      else pick fs (mod_dir db_dir ++ codes "model.gguf") (e.env (codes "CHIMERA_MODEL"))

  unfoldable pub pick_mmproj : Files → Bytes → Bytes → Bytes
  unfolding file_nonempty last_index_of
  pick_mmproj fs db_dir model =
      let internal = mod_dir db_dir ++ codes "mmproj.gguf" in
      let named = if file_nonempty fs internal then internal else e.env (codes "CHIMERA_MMPROJ") in
      let beside = join (parent_path model) (codes "mmproj-" ++ filename model) in
      if is_empty named && not (is_empty model) && file_nonempty fs beside then beside else named

  -- The files and the paths after `resolve`.
  unfoldable pub resolve : Bytes → Bytes → Files → Files × RuntimePaths
  unfolding extract_all pick pick_model pick_mmproj
  resolve db_dir model_flag fs =
      let after = extract_all db_dir fs in
      let model = pick_model after db_dir model_flag in
      let piece : Bytes → Bytes → Bytes = λ name var. pick after (bin db_dir ++ name) (e.env var) in
      (
        after,
        record {
          llamafile = piece (codes "llamafile") (codes "CHIMERA_LLAMAFILE");
          model = model;
          mmproj = pick_mmproj after db_dir model;
          qlever_server = piece (codes "qlever-server") (codes "CHIMERA_QLEVER_SERVER");
          qlever_index = piece (codes "qlever-index") (codes "CHIMERA_QLEVER_INDEX");
          turbovec = piece (codes "turbovec-server") (codes "CHIMERA_TURBOVEC");
        },
      )

-- The first piece that is missing.
unfoldable pub missing : Files → RuntimePaths → Option Bytes
unfolding file_nonempty
missing fs r =
    if not (file_nonempty fs r.llamafile)
    then some (codes "llamafile binary (" ++ r.llamafile ++ codes ")")
    else if not (file_nonempty fs r.model)
    then some (codes "model weights (" ++ r.model ++ codes "); pass --model PATH")
    else if not (file_nonempty fs r.qlever_server)
    then some (codes "qlever-server (" ++ r.qlever_server ++ codes ")")
    else if not (file_nonempty fs r.qlever_index)
    then some (codes "qlever-index (" ++ r.qlever_index ++ codes ")")
    else if not (file_nonempty fs r.turbovec)
    then some (codes "turbovec-server (" ++ r.turbovec ++ codes ")")
    else none
