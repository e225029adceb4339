-- ===== src/Util/Slug.antt =====
-- src/util.h: `slugify`.
pub mod Shape
use chimera_ape.Base.{
  ℕ, Bool, true, false, not, ◌&&◌, List, [], ◌∷◌, ◌++◌, if◌then◌else◌, Bytes, is_empty, isalnum,
  tolower,
}

pub record SlugState : Type 0 where
  pub out : Bytes
  pub pending_dash : Bool

unfoldable pub slug_byte : ℕ → SlugState → SlugState
slug_byte c st =
    let dashed = if st.pending_dash && not (is_empty st.out) then st.out ++ b'-' ∷ [] else st.out in
    if isalnum c
    then record { out = dashed ++ tolower c ∷ []; pending_dash = false }
    else record st { pending_dash = true }

unfoldable pub slug_bytes : Bytes → SlugState → SlugState
slug_bytes [] st = st
slug_bytes (c ∷ s) st = slug_bytes s (slug_byte c st)

unfoldable pub slugify : Bytes → Bytes
unfolding slug_bytes slug_byte isalnum tolower
slugify s = (slug_bytes s (record { out = []; pending_dash = false })).out
