-- ===== src/Db/Prices.antt =====
-- internal/db/queries.go: `FilterPrices` and `normalizePurchaseOption`, with the resolver of the
-- `prices` field in internal/graphql/schema.go.
pub mod Selection
pub mod Purchase
use c3x_pricing_api.Base.{
  String, Option, none, some, List, [], ◌∷◌, Bool, true, false, not, str_eq, ◌||◌, if◌then◌else◌,
  drop_char,
}
use c3x_pricing_api.Db.Types.{Price, PriceFilter}
use c3x_pricing_api.Db.Regex.{RegexEngine, match_regex_pattern}
use c3x_pricing_api.Graphql.Value.{Fields}

-- `lower` is strings.ToLower.
unfoldable pub normalize_purchase_option : (String → String) → String → String
normalize_purchase_option lower s = drop_char b'_' (drop_char b'-' (lower s))

-- The filter is set, and the value is another one.
abbrev pub differs : Option String → String → Bool
differs none v = false
differs (some w) v = not (str_eq v w)

abbrev differs_purchase : (String → String) → Option String → String → Bool
differs_purchase lower none v = false
differs_purchase lower (some w) v =
    not (str_eq (normalize_purchase_option lower v) (normalize_purchase_option lower w))

abbrev mismatches : {R : Type 0} → RegexEngine R → Option String → String → Bool
mismatches engine none v = false
mismatches engine (some pattern) v = not (match_regex_pattern engine pattern v)

-- An empty start is "0".
abbrev pub start_amount : String → String
start_amount s = if str_eq s "" then "0" else s

-- Some condition of the loop continues past the price.
unfoldable pub skips : {R : Type 0} → RegexEngine R → PriceFilter → Price → Bool
skips engine f p =
    differs_purchase engine.lower f.purchase_option p.purchase_option
    || differs f.unit p.unit
    || differs f.description p.description
    || mismatches engine f.description_regex p.description
    || differs f.start_usage_amount (start_amount p.start_usage_amount)
    || differs f.end_usage_amount p.end_usage_amount
    || differs f.term_length p.term_length
    || differs f.term_purchase_option p.term_purchase_option
    || differs f.term_offering_class p.term_offering_class

unfoldable pub filtered : {R : Type 0} → RegexEngine R → PriceFilter → List Price → List Price
filtered engine f [] = []
filtered engine f (p ∷ prices) = elim (skips engine f p) [
  | true ↦ filtered engine f prices
  | false ↦ p ∷ filtered engine f prices
]

unfoldable pub filter_prices :
    {R : Type 0} → RegexEngine R → List Price → Option PriceFilter → List Price
filter_prices engine prices none = prices
filter_prices engine prices (some f) = filtered engine f prices
