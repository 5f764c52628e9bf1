-- ===== src/Db/Query/Conditions.antt =====
-- The SQL that a filter asks for, with every value in its own condition and no placeholder.
use c3x_pricing_api.Base.{
  ℕ, zero, suc, String, Option, none, some, List, [], ◌∷◌, ◌++◌, Bool, str_eq, if◌then◌else◌,
}
use c3x_pricing_api.Base.Int.{pos, ltb_ℤ}
use c3x_pricing_api.Db.Pattern.{parse_regex_for_postgres, normalize_regex_for_prefix}
use c3x_pricing_api.Db.Types.{ProductFilter, AttributeFilter, effective_limit}
use c3x_pricing_api.Db.Query.{
  Piece, text, param, Arg, str, num, member, not_global, operator, order_and_limit, select_products,
}

-- A query with its arguments in place.
pub data Bound : Type 0 where
  lit : String → Bound
  value : Arg → Bound
  unbound : ℕ → Bound

abbrev pub nth : List Arg → ℕ → Option Arg
nth [] i = none
nth (a ∷ args) zero = some a
nth (a ∷ args) (suc i) = nth args i

-- $1 is the first argument; there is no $0.
abbrev pub bind_param : List Arg → ℕ → Bound
bind_param args zero = unbound zero
bind_param args (suc i) = elim (nth args i) [ none ↦ unbound (suc i) | some a ↦ value a ]

abbrev pub bind : List Arg → List Piece → List Bound
bind args [] = []
bind args (text s ∷ ps) = lit s ∷ bind args ps
bind args (param n ∷ ps) = bind_param args n ∷ bind args ps

-- The conditions that a filter asks for, each with its own value.
abbrev pub equal_condition : String → Option String → List Bound
equal_condition column none = []
equal_condition column (some v) = lit column ∷ value (str v) ∷ []

abbrev pub region_condition : Option String → List Bound
region_condition none = []
region_condition (some v) = lit " AND region = $" ∷ value (str v) ∷ lit not_global ∷ []

abbrev pub pattern_condition : String → String × Bool → List Bound
pattern_condition key (pattern, ci) =
    if str_eq pattern ""
    then []
    else lit " AND attributes->>$"
      ∷ value (str key)
      ∷ lit " "
      ∷ lit (operator ci)
      ∷ lit " $"
      ∷ value (str (normalize_regex_for_prefix pattern))
      ∷ []

abbrev pub attribute_condition : String → Option String → Option String → List Bound
attribute_condition key (some v) regex =
    lit " AND attributes @> $" ∷ value (member key v) ∷ lit "::jsonb" ∷ []
attribute_condition key none (some regex) = pattern_condition key (parse_regex_for_postgres regex)
attribute_condition key none none = []

abbrev pub attribute_conditions : List AttributeFilter → List Bound
attribute_conditions [] = []
attribute_conditions (af ∷ afs) =
    attribute_condition af.key af.value af.value_regex ++ attribute_conditions afs

abbrev pub page : ProductFilter → List Bound
page f =
    let limit = lit order_and_limit ∷ value (num (effective_limit f.limit)) ∷ [] in
    if str_eq f.after_hash ""
    then if ltb_ℤ (pos 0) f.offset
      then limit ++ lit " OFFSET $" ∷ value (num f.offset) ∷ []
      else limit
    else lit " AND product_hash > $" ∷ value (str f.after_hash) ∷ limit

abbrev pub columns : ProductFilter → List Bound
columns f =
    equal_condition " AND vendor_name = $" f.vendor_name
    ++ (equal_condition " AND service = $" f.service
        ++ (equal_condition " AND product_family = $" f.product_family
            ++ (region_condition f.region ++ equal_condition " AND sku = $" f.sku)))

abbrev pub conditions : ProductFilter → List Bound
conditions f =
    lit select_products ∷ (columns f ++ (attribute_conditions f.attribute_filters ++ page f))
