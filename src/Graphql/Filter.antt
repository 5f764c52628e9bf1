-- ===== src/Graphql/Filter.antt =====
-- internal/graphql/schema.go: the filters of a query, out of decoded arguments, and the minimum
-- selectivity of internal/graphql/limits.go.
use c3x_pricing_api.Base.{
  String, Option, none, some, List, [], ◌∷◌, Bool, true, false, str_eq, ◌||◌, if◌then◌else◌,
}
use c3x_pricing_api.Base.Int.{pos}
use c3x_pricing_api.Db.Types.{ProductFilter, AttributeFilter, PriceFilter}
use c3x_pricing_api.Graphql.Value.{Value, Fields, get, as_string, as_list, as_object}

abbrev or_empty : Option String → String
or_empty none = ""
or_empty (some s) = s

attribute_filter : Fields → AttributeFilter
attribute_filter am = record {
  key = or_empty (as_string (get "key" am));
  value = as_string (get "value" am);
  value_regex = as_string (get "value_regex" am);
}

-- Entries that are no object are skipped.
attribute_filters : List Value → List AttributeFilter
attribute_filters [] = []
attribute_filters (a ∷ attrs) = elim (as_object a) [
  | none ↦ attribute_filters attrs
  | some am ↦ attribute_filter am ∷ attribute_filters attrs
]

unfoldable pub parse_product_filter : Fields → ProductFilter
unfolding attribute_filters attribute_filter
parse_product_filter m = record {
  vendor_name = as_string (get "vendorName" m);
  service = as_string (get "service" m);
  product_family = as_string (get "productFamily" m);
  region = as_string (get "region" m);
  sku = as_string (get "sku" m);
  attribute_filters = attribute_filters (as_list (get "attributeFilters" m));
  limit = pos 0;
  offset = pos 0;
  after_hash = "";
}

unfoldable pub parse_price_filter : Fields → PriceFilter
parse_price_filter m = record {
  purchase_option = as_string (get "purchaseOption" m);
  unit = as_string (get "unit" m);
  description = as_string (get "description" m);
  description_regex = as_string (get "description_regex" m);
  start_usage_amount = as_string (get "startUsageAmount" m);
  end_usage_amount = as_string (get "endUsageAmount" m);
  term_length = as_string (get "termLength" m);
  term_purchase_option = as_string (get "termPurchaseOption" m);
  term_offering_class = as_string (get "termOfferingClass" m);
}

-- nil or ""
abbrev pub is_blank : Option String → Bool
is_blank none = true
is_blank (some s) = str_eq s ""

-- False is ErrFilterTooBroad.
unfoldable pub validate_product_filter : ProductFilter → Bool
validate_product_filter f = if is_blank f.vendor_name || is_blank f.service then false else true
