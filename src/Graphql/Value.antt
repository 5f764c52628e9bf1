-- ===== src/Graphql/Value.antt =====
-- Decoded GraphQL input values, as internal/graphql reads them through `interface{}`.
use c3x_pricing_api.Base.{String, Option, none, some, List, [], ◌∷◌, str_eq, if◌then◌else◌}
use c3x_pricing_api.Base.Int.{ℤ}

mutual
  pub data Value : Type 0 where
    null : Value
    str : String → Value
    int : ℤ → Value
    list : Items → Value
    object : Fields → Value

  pub data Items : Type 0 where
    nil : Items
    cons : Value → Items → Items

  pub data Fields : Type 0 where
    end : Fields
    field : String → Value → Fields → Fields

abbrev pub items : Items → List Value
items nil = []
items (cons v vs) = v ∷ items vs

-- m[key]; a missing key and a null fail every type assertion alike.
unfoldable pub get : String → Fields → Option Value
get key end = none
get key (field k v fs) = if str_eq k key then some v else get key fs

-- v.(string), v.([]interface{}) and v.(map[string]interface{}), as their comma-ok forms.
abbrev pub as_string : Option Value → Option String
as_string (some (str s)) = some s
as_string _ = none

abbrev pub as_list : Option Value → List Value
as_list (some (list vs)) = items vs
as_list _ = []

abbrev pub as_object : Value → Option Fields
as_object (object fs) = some fs
as_object _ = none
