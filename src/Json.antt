-- ===== src/Json.antt =====
-- JSON values as the nlohmann library gives them, and what the code uses of it. The parser and the
-- texts of the library's exceptions are parameters. An object's keys differ, in the library's order.
use chimera_ape.Base.{
  Bool, true, false, Option, none, some, List, [], ◌∷◌, if◌then◌else◌, Bytes, bytes_eq, Result, ok,
  err,
}

-- A number is a double: its type is a parameter.
mutual
  pub data Json (D : Type 0) : Type 0 where
    null : Json D
    bool : Bool → Json D
    number : D → Json D
    string : Bytes → Json D
    arr : Items D → Json D
    obj : Fields D → Json D

  pub data Items (D : Type 0) : Type 0 where
    nil : Items D
    cons : Json D → Items D → Items D

  pub data Fields (D : Type 0) : Type 0 where
    end : Fields D
    field : Bytes → Json D → Fields D → Fields D

-- `json::parse` and the `what()` of what it and the conversions throw.
pub record JsonLib (D : Type 0) : Type 0 where
  pub parse : Bytes → Result (Json D)
  pub not_string : Json D → Bytes
  pub not_number : Json D → Bytes
  pub not_found : Bytes → Bytes
  pub not_object : Json D → Bytes

module _ {D : Type 0} where
  abbrev pub is_object : Json D → Bool
  is_object (obj fs) = true
  is_object _ = false

  abbrev pub items : Items D → List (Json D)
  items nil = []
  items (cons v vs) = v ∷ items vs

  abbrev pub values : Fields D → List (Json D)
  values end = []
  values (field k v fs) = v ∷ values fs

  -- What a range-based `for` over a value runs through: a primitive stands for itself, `null` for
  -- nothing.
  abbrev pub elements : Json D → List (Json D)
  elements null = []
  elements (arr vs) = items vs
  elements (obj fs) = values fs
  elements v = v ∷ []

  unfoldable pub lookup : Bytes → Fields D → Option (Json D)
  unfolding bytes_eq
  lookup k end = none
  lookup k (field j v fs) = if bytes_eq j k then some v else lookup k fs

  -- `contains` and `find`: a value that is no object has no key.
  unfoldable pub find_key : Bytes → Json D → Option (Json D)
  unfolding lookup
  find_key k (obj fs) = lookup k fs
  find_key k v = none

  module _ (lib : JsonLib D) where
    -- `get<std::string>`, `get<double>`
    unfoldable pub get_string : Json D → Result Bytes
    get_string (string s) = ok s
    get_string v = err (lib.not_string v)

    unfoldable pub get_number : Json D → Result D
    get_number (number d) = ok d
    get_number v = err (lib.not_number v)

    -- `value(key, default)`
    unfoldable pub value_string : Json D → Bytes → Bytes → Result Bytes
    unfolding lookup get_string
    value_string (obj fs) k default = elim (lookup k fs) [
      | none ↦ ok default
      | some v ↦ get_string v
    ]
    value_string v k default = err (lib.not_object v)

    unfoldable pub value_number : Json D → Bytes → D → Result D
    unfolding lookup get_number
    value_number (obj fs) k default = elim (lookup k fs) [
      | none ↦ ok default
      | some v ↦ get_number v
    ]
    value_number v k default = err (lib.not_object v)
