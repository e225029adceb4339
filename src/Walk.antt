-- ===== src/Walk.antt =====
-- src/walk.h and src/walk.cpp: the corpus walker, over a file system that is given as a tree.
pub mod Names
pub mod Glob
pub mod Sniff
pub mod Ignore
pub mod Traverse
use chimera_ape.Base.{ℕ, List, [], Bytes, codes}

pub record WalkEntry : Type 0 where
  pub rel_path : Bytes
  pub abs_path : Bytes
  pub size : ℕ
  pub mtime : ℕ
  pub mime : Bytes
  pub modality : Bytes

pub record WalkOptions : Type 0 where
  pub include : List Bytes
  pub exclude : List Bytes
  pub db_dir_name : Bytes

abbrev pub default_walk_options : WalkOptions
default_walk_options = record { include = []; exclude = []; db_dir_name = codes ".chimera" }
