-- ===== src/Extract.antt =====
-- src/extract.h: what the extraction of a chunk returns.
pub mod Parse
use chimera_ape.Base.{List, Bytes}
use chimera_ape.Ttl.{EntityRef, RelationRef}

-- A confidence is a double: its type is a parameter.
pub record Extraction (D : Type 0) : Type 0 where
  pub summary : Bytes
  pub tags : List Bytes
  pub entities : List EntityRef
  pub relations : List (RelationRef D)
