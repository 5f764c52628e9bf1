-- ===== src/Scraper/Aws.antt =====
-- internal/scraper/aws.go: from an offer file, which is decoded outside, to products. A float64 is
-- its 64 bits, as a number. Go's iteration over a map takes some order; here it is a list's.
pub mod Regions
pub mod Normalize
pub mod Built
mod Tests
pub mod Products
pub mod Attributes
use c3x_pricing_api.Base.{
  ℕ, String, code, List, [], ◌∷◌, ◌++◌, Option, none, some, Bool, true, false, not, ◌&&◌, ◌||◌,
  str_eq, leb, ◌==◌, if◌then◌else◌,
}
use c3x_pricing_api.Base.{has_prefix, contains, cut_char}
use c3x_pricing_api.Db.Types.{Price, Product}
use c3x_pricing_api.Scraper.Hash.{product_hash, price_hash}
use c3x_pricing_api.Scraper.Attributes.{get}
use c3x_pricing_api.Scraper.Aws.Normalize.{normalize_product_family, normalize_aws_attributes}
use c3x_pricing_api.Scraper.Aws.Regions.{aws_product_region}

-- What packages strconv, fmt and crypto/sha256 compute.
pub record Library : Type 0 where
  pub hex : String → String
  pub parse_float : String → Option ℕ
  pub is_zero : ℕ → Bool
  pub is_positive : ℕ → Bool
  pub divide : ℕ → ℕ → ℕ
  pub fixed : ℕ → String

pub record AwsProduct : Type 0 where
  pub sku : String
  pub product_family : String
  pub attributes : List (String × String)

pub record AwsPriceDimension : Type 0 where
  pub unit : String
  pub price_per_unit : List (String × String)
  pub begin_range : String
  pub end_range : String
  pub description : String

pub record AwsTermOffer : Type 0 where
  pub price_dimensions : List AwsPriceDimension
  pub term_attributes : List (String × String)

pub record AwsRawPricing : Type 0 where
  pub products : List AwsProduct
  pub on_demand_terms : List (String × List AwsTermOffer)
  pub reserved_terms : List (String × List AwsTermOffer)

-- The rate that NewAWSScraper takes; `default_rate` has the bits of 6.2069.
unfoldable pub cny_usd_rate : Library → ℕ → ℕ → ℕ
cny_usd_rate lib default_rate configured =
    if lib.is_positive configured then configured else default_rate

unfoldable pub cny_to_usd : Library → ℕ → String → String
cny_to_usd lib rate cny = elim (lib.parse_float cny) [
  | none ↦ ""
  | some v ↦ if lib.is_zero v then "0.0000000000" else lib.fixed (lib.divide v rate)
]

-- The price of a dimension, or "" if the code skips it.
unfoldable pub dimension_usd : Library → ℕ → AwsPriceDimension → String
dimension_usd lib rate dim =
    let usd = get "USD" dim.price_per_unit in
    let cny = get "CNY" dim.price_per_unit in
    if not (str_eq usd "") then usd else if not (str_eq cny "") then cny_to_usd lib rate cny else ""

unfoldable pub end_range : AwsPriceDimension → String
end_range dim = if str_eq dim.end_range "Inf" then "" else dim.end_range

-- What tells a term's prices apart: the purchase option, and the term of a reservation.
pub record Term : Type 0 where
  pub purchase_option : String
  pub term_length : String
  pub term_purchase_option : String
  pub term_offering_class : String

abbrev pub on_demand : AwsTermOffer → Term
on_demand offer = record {
  purchase_option = "on_demand";
  term_length = "";
  term_purchase_option = "";
  term_offering_class = "";
}

abbrev pub reserved : AwsTermOffer → Term
reserved offer = record {
  purchase_option = "reserved";
  term_length = get "LeaseContractLength" offer.term_attributes;
  term_purchase_option = get "PurchaseOption" offer.term_attributes;
  term_offering_class = get "OfferingClass" offer.term_attributes;
}

unfoldable pub dimension_price : Library → ℕ → String → Term → AwsPriceDimension → Price
dimension_price lib rate hash term dim = record {
  price_hash =
      price_hash lib.hex hash term.purchase_option dim.unit dim.begin_range dim.description
        term.term_length term.term_purchase_option term.term_offering_class;
  purchase_option = term.purchase_option;
  unit = dim.unit;
  usd = dimension_usd lib rate dim;
  start_usage_amount = dim.begin_range;
  end_usage_amount = end_range dim;
  description = dim.description;
  term_length = term.term_length;
  term_purchase_option = term.term_purchase_option;
  term_offering_class = term.term_offering_class;
}

-- The dimensions that a loop skips: those with no price, and under a reservation those by quantity.
unfoldable pub is_skipped : Library → ℕ → Bool → AwsPriceDimension → Bool
is_skipped lib rate is_reserved dim =
    str_eq (dimension_usd lib rate dim) "" || (is_reserved && str_eq dim.unit "Quantity")

unfoldable pub dimension_prices :
    Library → ℕ → Bool → String → Term → List AwsPriceDimension → List Price
dimension_prices lib rate is_reserved hash term [] = []
dimension_prices lib rate is_reserved hash term (dim ∷ dims) =
    elim (is_skipped lib rate is_reserved dim) [
      | true ↦ dimension_prices lib rate is_reserved hash term dims
      | false ↦
          dimension_price lib rate hash term dim
          ∷ dimension_prices lib rate is_reserved hash term dims
    ]

unfoldable pub offer_prices : Library → ℕ → Bool → String → List AwsTermOffer → List Price
offer_prices lib rate is_reserved hash [] = []
offer_prices lib rate is_reserved hash (offer ∷ offers) =
    let term = if is_reserved then reserved offer else on_demand offer in
    dimension_prices lib rate is_reserved hash term offer.price_dimensions
    ++ offer_prices lib rate is_reserved hash offers

-- The offers of a SKU; none if the map has no such key.
unfoldable pub offers_of : String → List (String × List AwsTermOffer) → List AwsTermOffer
offers_of sku [] = []
offers_of sku ((k, offers) ∷ terms) = if str_eq k sku then offers else offers_of sku terms

or_injected : String → List (String × String) → String
or_injected family attrs = if str_eq family "" then get "productFamily" attrs else family

unfoldable pub build_product : Library → ℕ → AwsRawPricing → String → AwsProduct → Product
unfolding or_injected
build_product lib rate raw service p =
    let region = aws_product_region p.attributes in
    let attrs = normalize_aws_attributes service p.attributes in
    let hash = product_hash lib.hex "aws" region service p.sku in
    record {
      product_hash = hash;
      sku = p.sku;
      vendor_name = "aws";
      region = region;
      service = service;
      product_family = or_injected (normalize_product_family p.product_family) attrs;
      attributes = attrs;
      prices =
          offer_prices lib rate false hash (offers_of p.sku raw.on_demand_terms)
          ++ offer_prices lib rate true hash (offers_of p.sku raw.reserved_terms);
    }

abbrev pub has_prices : List Price → Bool
has_prices [] = false
has_prices (p ∷ ps) = true

unfoldable pub build_products :
    Library → ℕ → AwsRawPricing → String → List AwsProduct → List Product
build_products lib rate raw service [] = []
build_products lib rate raw service (p ∷ ps) =
    let rest = build_products lib rate raw service ps in
    let product = build_product lib rate raw service p in
    if has_prices product.prices then product ∷ rest else rest

unfoldable pub build_product_list : Library → ℕ → AwsRawPricing → String → List Product
build_product_list lib rate raw service = build_products lib rate raw service raw.products
