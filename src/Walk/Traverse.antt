-- ===== src/Walk/Traverse.antt =====
-- src/walk.cpp: `walk`, over a directory tree that is given as data. The entries of a directory are
-- in the order that the code sorts them into. The callback's calls are the list of its arguments.
pub mod Order
use chimera_ape.Base.{
  ℕ, zero, suc, ◌+◌, Bool, true, false, not, ◌&&◌, ◌||◌, List, [], ◌∷◌, ◌++◌, ◌==◌, ltb,
  if◌then◌else◌, Bytes, codes, bytes_eq, is_empty, take, length,
}
use chimera_ape.Walk.{WalkEntry, WalkOptions}
use chimera_ape.Walk.Names.{mime_of, modality_of, is_binary_ext, is_one_of}
use chimera_ape.Walk.Sniff.{looks_binary}
use chimera_ape.Walk.Ignore.{IgnoreRules, ignored, any_match}

-- What a directory holds: a name each, and the entries after it.
pub data Entries : Type 0 where
  no_entries : Entries
  file_entry : Bytes → ℕ → ℕ → Bytes → Entries → Entries
  other_entry : Bytes → Entries → Entries
  dir_entry : Bytes → Entries → Entries → Entries

-- `kSkipDirs`
abbrev skip_dirs : List Bytes
skip_dirs =
    codes ".git"
    ∷ codes "node_modules"
    ∷ codes "__pycache__"
    ∷ codes ".hg"
    ∷ codes ".svn"
    ∷ codes "target"
    ∷ codes "build"
    ∷ codes ".venv"
    ∷ codes "venv"
    ∷ []

abbrev is_hidden : Bytes → Bool
is_hidden [] = false
is_hidden (c ∷ _) = c == b'.'

-- The path of an entry of the directory `dir`, which is empty for the root.
unfoldable pub join : Bytes → Bytes → Bytes
join dir name = if is_empty dir then name else dir ++ b'/' ∷ name

module _ (root : Bytes) (opts : WalkOptions) (ignore : IgnoreRules) where
  unfoldable pub is_skipped : Bytes → Bytes → Bool
  unfolding is_one_of bytes_eq ignored
  is_skipped name rel =
      is_hidden name
      || is_one_of name skip_dirs
      || bytes_eq name opts.db_dir_name
      || ignored ignore rel true

  -- What is read of a file before it is kept: its first 8192 bytes.
  unfoldable pub is_kept : Bytes → Bytes → Bytes → Bool
  unfolding ignored any_match modality_of is_binary_ext looks_binary bytes_eq
  is_kept name rel content =
      let binary =
        is_binary_ext rel || (not (is_empty content) && looks_binary (take 8192 content)) in
      not (is_hidden name)
      && not (ignored ignore rel false)
      && not (any_match opts.exclude rel)
      && (is_empty opts.include || any_match opts.include rel)
      && not (bytes_eq (modality_of rel) (codes "text") && binary)

  unfoldable pub walk_entry : Bytes → ℕ → ℕ → WalkEntry
  unfolding mime_of modality_of
  walk_entry rel size mtime = record {
    rel_path = rel;
    abs_path = root ++ b'/' ∷ rel;
    size = size;
    mtime = mtime;
    mime = mime_of rel;
    modality = modality_of rel;
  }

  -- The files of a directory that the callback is called for.
  unfoldable pub files_of : Bytes → Entries → List WalkEntry
  unfolding is_kept walk_entry join
  files_of dir no_entries = []
  files_of dir (file_entry name size mtime content es) =
      let rest = files_of dir es in
      let rel = join dir name in
      if is_kept name rel content then walk_entry rel size mtime ∷ rest else rest
  files_of dir (other_entry name es) = files_of dir es
  files_of dir (dir_entry name sub es) = files_of dir es

  -- `subdirs`
  unfoldable pub subdirs : Bytes → Entries → List (Bytes × Entries)
  unfolding is_skipped join
  subdirs dir no_entries = []
  subdirs dir (file_entry name size mtime content es) = subdirs dir es
  subdirs dir (other_entry name es) = subdirs dir es
  subdirs dir (dir_entry name sub es) =
      let rest = subdirs dir es in
      let rel = join dir name in if is_skipped name rel then rest else (rel, sub) ∷ rest

  -- `while (!stack.empty())`, with the top of the stack first.
  unfoldable pub walk_loop : ℕ → List (Bytes × Entries) → List WalkEntry
  unfolding files_of subdirs
  walk_loop fuel [] = []
  walk_loop zero (d ∷ stack) = []
  walk_loop (suc fuel) ((dir, es) ∷ stack) =
      files_of dir es ++ walk_loop fuel (subdirs dir es ++ stack)

  -- The number of directories below one: the rounds that the loop needs, less one.
  unfoldable pub count_dirs : Entries → ℕ
  count_dirs no_entries = 0
  count_dirs (file_entry name size mtime content es) = count_dirs es
  count_dirs (other_entry name es) = count_dirs es
  count_dirs (dir_entry name sub es) = suc (count_dirs sub + count_dirs es)

  unfoldable pub walk : Entries → List WalkEntry
  unfolding walk_loop count_dirs
  walk es = walk_loop (suc (count_dirs es)) (([], es) ∷ [])
