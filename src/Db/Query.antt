-- ===== src/Db/Query.antt =====
-- internal/db/queries.go: `buildProductQuery`. The SQL is the list of its pieces: fixed text, and
-- the numbers of the placeholders, which Sprintf prints behind a `$`.
pub mod Numbering
pub mod Conditions
pub mod Binding
pub mod Shape
pub mod Refusal
mod Tests
use Prim.Native.String.{len}
use c3x_pricing_api.Base.{
  ℕ, ◌+◌, String, Option, none, some, List, [], ◌∷◌, ◌++◌, Bool, true, false, ltb, str_eq, ◌||◌,
  if◌then◌else◌, ◌≡◌, arith,
}
use c3x_pricing_api.Base.Int.{ℤ, pos, ltb_ℤ}
use c3x_pricing_api.Db.Types.{ProductFilter, AttributeFilter, max_regex_length, effective_limit}
use c3x_pricing_api.Db.Pattern.{parse_regex_for_postgres, normalize_regex_for_prefix}

pub data Piece : Type 0 where
  text : String → Piece
  param : ℕ → Piece

-- `member k v` is the JSON object with the one member k : v, as json.Marshal prints it.
pub data Arg : Type 0 where
  str : String → Arg
  num : ℤ → Arg
  member : String → String → Arg

pub record Builder : Type 0 where
  pub query : List Piece
  pub args : List Arg
  pub arg_idx : ℕ

abbrev pub append : Builder → List Piece → List Arg → ℕ → Builder
append b pieces args n = record {
  query = b.query ++ pieces;
  args = b.args ++ args;
  arg_idx = b.arg_idx + n;
}

-- query += Sprintf(column, argIdx), for a filter that is set.
add_equal : String → Option String → Builder → Builder
add_equal column none b = b
add_equal column (some v) b = append b (text column ∷ param b.arg_idx ∷ []) (str v ∷ []) 1

abbrev pub not_global : String
not_global =
    " AND (attributes->>'usagetype' IS NULL OR attributes->>'usagetype' NOT LIKE 'Global%')"

-- A query by region leaves the global products out.
add_region : Option String → Builder → Builder
add_region none b = b
add_region (some v) b =
    append b (text " AND region = $" ∷ param b.arg_idx ∷ text not_global ∷ []) (str v ∷ []) 1

abbrev pub operator : Bool → String
operator false = "~"
operator true = "~*"

add_pattern : String → String × Bool → Builder → Builder
add_pattern key (pattern, case_insensitive) b =
    if str_eq pattern ""
    then b
    else append b
        (text " AND attributes->>$"
          ∷ param b.arg_idx
          ∷ text " "
          ∷ text (operator case_insensitive)
          ∷ text " $"
          ∷ param (b.arg_idx + 1)
          ∷ [])
        (str key ∷ str (normalize_regex_for_prefix pattern) ∷ []) 2

add_attribute : String → Option String → Option String → Builder → Builder
unfolding add_pattern
add_attribute key (some v) regex b =
    append b (text " AND attributes @> $" ∷ param b.arg_idx ∷ text "::jsonb" ∷ [])
      (member key v ∷ []) 1
add_attribute key none (some regex) b = add_pattern key (parse_regex_for_postgres regex) b
add_attribute key none none b = b

add_attributes : List AttributeFilter → Builder → Builder
add_attributes [] b = b
add_attributes (af ∷ afs) b = add_attributes afs (add_attribute af.key af.value af.value_regex b)

abbrev pub order_and_limit : String
order_and_limit = " ORDER BY product_hash LIMIT $"

add_limit : ℤ → Builder → Builder
add_limit limit b = append b (text order_and_limit ∷ param b.arg_idx ∷ []) (num limit ∷ []) 1

-- Keyset pages win over offsets; the offset path sends the limit and the offset together.
add_page : ProductFilter → Builder → Builder
unfolding add_limit add_equal
add_page f b =
    let limit = effective_limit f.limit in
    if str_eq f.after_hash ""
    then if ltb_ℤ (pos 0) f.offset
      then append b
          (text order_and_limit ∷ param b.arg_idx ∷ text " OFFSET $" ∷ param (b.arg_idx + 1) ∷ [])
          (num limit ∷ num f.offset ∷ []) 2
      else add_limit limit b
    else add_limit limit (add_equal " AND product_hash > $" (some f.after_hash) b)

abbrev pub select_products : String
select_products =
    "SELECT product_hash, sku, vendor_name, region, service, product_family, attributes, prices FROM products WHERE 1=1"

abbrev pub start : Builder
start = record { query = text select_products ∷ []; args = []; arg_idx = 1 }

is_long : Option String → Bool
is_long none = false
is_long (some regex) = ltb max_regex_length (len regex)

-- True if some regex is longer, in bytes, than the maximum.
unfoldable pub has_long_regex : List AttributeFilter → Bool
unfolding is_long
has_long_regex [] = false
has_long_regex (af ∷ afs) = is_long af.value_regex || has_long_regex afs

add_columns : ProductFilter → Builder → Builder
unfolding add_equal add_region
add_columns f b = add_equal " AND sku = $" f.sku (
    add_region f.region (
      add_equal " AND product_family = $" f.product_family (
        add_equal " AND service = $" f.service (add_equal " AND vendor_name = $" f.vendor_name b))))

assemble : ProductFilter → Builder
unfolding add_columns add_attributes add_attribute add_page
assemble f = add_page f (add_attributes f.attribute_filters (add_columns f start))

-- `none` is the error "regex pattern too long".
unfoldable pub build_product_query : ProductFilter → Option Builder
unfolding has_long_regex assemble
build_product_query f = if has_long_regex f.attribute_filters then none else some (assemble f)

build-assemble : (f : ProductFilter) (q : Builder) → build_product_query f ≡ some q → assemble f ≡ q
unfolding build_product_query
build-assemble f q h = ground arith
