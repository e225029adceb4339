-- ===== src/Search/Rows.antt =====
-- src/search.cpp: reading the rows of an answer of the graph store.
use chimera_ape.Base.{Option, none, some, List, [], ◌∷◌, Bytes, codes, Result, ok, err, ◌>>=◌}
use chimera_ape.Json.{
  Json, null, arr, nil, obj, Fields, end, field, JsonLib, elements, find_key, value_string,
}
use chimera_ape.Search.Rank.{Row, value_of}

module _ {D : Type 0} (lib : JsonLib D) where
  -- `it.value().value("value", "")` for every variable.
  unfoldable pub row_fields : Fields D → Result Row
  unfolding value_string
  row_fields end = ok []
  row_fields (field k v fs) = value_string lib v (codes "value") [] >>= λ text.
      row_fields fs >>= λ row. ok ((k, text) ∷ row)

  -- A binding: iterating over an array or over a primitive throws at `it.key()`.
  unfoldable pub row_of : Json D → Result Row
  unfolding row_fields
  row_of null = ok []
  row_of (arr nil) = ok []
  row_of (obj fs) = row_fields fs
  row_of v = err (lib.not_object v)

  -- The rows before the first one that throws.
  unfoldable pub rows_before : List (Json D) → List Row
  unfolding row_of
  rows_before [] = []
  rows_before (b ∷ bs) =
      let later = rows_before bs in elim (row_of b) [ ok row ↦ row ∷ later | err e ↦ [] ]

  abbrev at_bindings : Option (Json D) → List Row
  at_bindings none = []
  at_bindings (some results) = elim (find_key (codes "bindings") results) [
    | none ↦ []
    | some bindings ↦ rows_before (elements bindings)
  ]

  unfoldable pub rows_of : Bytes → List Row
  unfolding find_key rows_before
  rows_of body = elim (lib.parse body) [
    | ok j ↦ at_bindings (find_key (codes "results") j)
    | err e ↦ []
  ]

-- `row.at(k)`
unfoldable pub at_key : Bytes → Row → Result Bytes
unfolding value_of
at_key k row = elim (value_of k row) [ none ↦ err (codes "map::at") | some v ↦ ok v ]
