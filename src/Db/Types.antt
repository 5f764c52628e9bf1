-- ===== src/Db/Types.antt =====
-- internal/db/queries.go: products, prices, their filters, and the page-size limits.
use c3x_pricing_api.Base.{ℕ, String, Option, List, ◌||◌, if◌then◌else◌}
use c3x_pricing_api.Base.Int.{ℤ, pos, leb_ℤ, ltb_ℤ}

pub record Price : Type 0 where
  pub price_hash : String
  pub purchase_option : String
  pub unit : String
  pub usd : String
  pub start_usage_amount : String
  pub end_usage_amount : String
  pub description : String
  pub term_length : String
  pub term_purchase_option : String
  pub term_offering_class : String

-- The attributes are the map's entries in the order of their keys, as json.Marshal prints them.
pub record Product : Type 0 where
  pub product_hash : String
  pub sku : String
  pub vendor_name : String
  pub region : String
  pub service : String
  pub product_family : String
  pub attributes : List (String × String)
  pub prices : List Price

pub record AttributeFilter : Type 0 where
  pub key : String
  pub value : Option String
  pub value_regex : Option String

pub record ProductFilter : Type 0 where
  pub vendor_name : Option String
  pub service : Option String
  pub product_family : Option String
  pub region : Option String
  pub sku : Option String
  pub attribute_filters : List AttributeFilter
  pub limit : ℤ
  pub offset : ℤ
  pub after_hash : String

pub record PriceFilter : Type 0 where
  pub purchase_option : Option String
  pub unit : Option String
  pub description : Option String
  pub description_regex : Option String
  pub start_usage_amount : Option String
  pub end_usage_amount : Option String
  pub term_length : Option String
  pub term_purchase_option : Option String
  pub term_offering_class : Option String

abbrev pub max_regex_length : ℕ
max_regex_length = 200

abbrev pub default_product_limit : ℕ
default_product_limit = 5000

abbrev pub max_product_limit : ℕ
max_product_limit = 5000

-- Non-positive or oversized requests fall back to the server's cap.
unfoldable pub effective_limit : ℤ → ℤ
effective_limit requested =
    if leb_ℤ requested (pos 0) || ltb_ℤ (pos max_product_limit) requested
    then pos default_product_limit
    else requested
