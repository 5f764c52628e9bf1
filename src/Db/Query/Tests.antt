-- ===== src/Db/Query/Tests.antt =====
-- Queries on concrete filters.
use c3x_pricing_api.Base.{String, none, some, [], ◌∷◌, ◌≡◌, refl, strip_prefix, cut_last, has_char}
use c3x_pricing_api.Base.Int.{pos}
use c3x_pricing_api.Db.Types.{ProductFilter, AttributeFilter, effective_limit}
use c3x_pricing_api.Db.Pattern.{parse_regex_for_postgres, normalize_regex_for_prefix}
use c3x_pricing_api.Db.Query.{
  text, param, str, num, member, Builder, build_product_query, not_global, order_and_limit,
  select_products,
}
use c3x_pricing_api.Db.Query.Conditions.{bind, conditions}
use c3x_pricing_api.Db.Query.Numbering.{params, numbers, build_product_query-numbered}
use c3x_pricing_api.Db.Query.Binding.{build_product_query-reads}
use c3x_pricing_api.Db.Query.Shape.{build_product_query-same_text}

abbrev os : AttributeFilter
os = record { key = "operatingSystem"; value = some "Linux"; value_regex = none }

abbrev usage : String → AttributeFilter
usage regex = record { key = "usagetype"; value = none; value_regex = some regex }

abbrev instances : String → String → ProductFilter
instances region regex = record {
  vendor_name = some "aws";
  service = some "AmazonEC2";
  product_family = none;
  region = some region;
  sku = none;
  attribute_filters = os ∷ usage regex ∷ [];
  limit = pos 0;
  offset = pos 0;
  after_hash = "";
}

abbrev built : String → String → Builder
built region pattern = record {
  query =
      text select_products
      ∷ text " AND vendor_name = $"
      ∷ param 1
      ∷ text " AND service = $"
      ∷ param 2
      ∷ text " AND region = $"
      ∷ param 3
      ∷ text not_global
      ∷ text " AND attributes @> $"
      ∷ param 4
      ∷ text "::jsonb"
      ∷ text " AND attributes->>$"
      ∷ param 5
      ∷ text " "
      ∷ text "~*"
      ∷ text " $"
      ∷ param 6
      ∷ text order_and_limit
      ∷ param 7
      ∷ [];
  args =
      str "aws"
      ∷ str "AmazonEC2"
      ∷ str region
      ∷ member "operatingSystem" "Linux"
      ∷ str "usagetype"
      ∷ str pattern
      ∷ num (pos 5000)
      ∷ [];
  arg_idx = 8;
}

built_lem :
    build_product_query (instances "us-east-1" "/BoxUsage/i") ≡ some (built "us-east-1" "BoxUsage")
unfolding build_product_query parse_regex_for_postgres strip_prefix cut_last has_char
    normalize_regex_for_prefix effective_limit
built_lem = refl

injected_lem : build_product_query (instances "'; --" "/\\-x/ig") ≡ some (built "'; --" "(^|-)x")
unfolding build_product_query parse_regex_for_postgres strip_prefix cut_last has_char
    normalize_regex_for_prefix effective_limit
injected_lem = refl

build_product_query-reads_example :
    bind (built "us-east-1" "BoxUsage").args (built "us-east-1" "BoxUsage").query
    ≡ conditions (instances "us-east-1" "/BoxUsage/i")
build_product_query-reads_example =
    build_product_query-reads (instances "us-east-1" "/BoxUsage/i") (built "us-east-1" "BoxUsage")
      built_lem

build_product_query-same_text_example :
    (built "us-east-1" "BoxUsage").query ≡ (built "'; --" "(^|-)x").query
unfolding parse_regex_for_postgres strip_prefix cut_last has_char
build_product_query-same_text_example =
    build_product_query-same_text (instances "us-east-1" "/BoxUsage/i")
      (instances "'; --" "/\\-x/ig") (built "us-east-1" "BoxUsage") (built "'; --" "(^|-)x")
      (record {
        vendor_name = refl;
        service = refl;
        product_family = refl;
        region = refl;
        sku = refl;
        attributes = refl;
        after_hash = refl;
        offset = refl;
      })
      built_lem injected_lem

build_product_query-numbered_example : params (built "us-east-1" "BoxUsage").query ≡ numbers 1 7
build_product_query-numbered_example =
    build_product_query-numbered (instances "us-east-1" "/BoxUsage/i")
      (built "us-east-1" "BoxUsage") built_lem
