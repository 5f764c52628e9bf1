-- ===== src/Scraper/Azure/Builder.antt =====
-- internal/scraper/azure.go: azureProductBuilder, which folds the rows into products. The two maps
-- from product keys have the same keys, so they are one list of entries, in the order in which the
-- keys first came; Go's iteration takes some order.
pub mod Slots
pub mod Dedupe
pub mod Tiers
pub mod Products
pub mod Rows
use c3x_pricing_api.Base.{
  ℕ, String, List, [], ◌∷◌, ◌++◌, Bool, true, false, not, ◌||◌, ◌<>◌, any, keep, str_eq,
  if◌then◌else◌,
}
use c3x_pricing_api.Db.Types.{Price, Product}
use c3x_pricing_api.Scraper.Hash.{join, product_hash, price_hash}
use c3x_pricing_api.Scraper.Azure.{
  Library, Item, uses_virtual_regions, skip_primary_meter_filter, azure_product_regions,
  normalize_azure_product_name, azure_attributes, is_virtual_region,
}

-- `primary` says of each price of the product whether its row is authoritative.
pub record Entry : Type 0 where
  pub key : String
  pub product : Product
  pub primary : List Bool

unfoldable pub is_authoritative : Item → Bool
is_authoritative item =
    item.is_primary_meter_region
    || uses_virtual_regions item.service_name
    || skip_primary_meter_filter item

unfoldable pub product_key : Item → String → String
product_key item region =
    join "|" (
      normalize_azure_product_name item.product_name
      ∷ item.sku_name
      ∷ item.meter_name
      ∷ region
      ∷ [])

unfoldable pub item_sku : Library → Item → String
item_sku lib item =
    product_hash lib.hex "azure-sku" (normalize_azure_product_name item.product_name) item.sku_name
      item.meter_name

unfoldable pub new_product : Library → Item → String → Product
new_product lib item region = record {
  product_hash =
      product_hash lib.hex "azure" region item.service_name (item_sku lib item <> region);
  sku = item_sku lib item;
  vendor_name = "azure";
  region = region;
  service = item.service_name;
  product_family = item.service_family;
  attributes =
      azure_attributes item.service_name (normalize_azure_product_name item.product_name)
        item.sku_name item.meter_name item.arm_sku_name item.service_family;
  prices = [];
}

unfoldable pub tier_start : Library → Item → String
tier_start lib item =
    if lib.is_positive item.tier_minimum_units then lib.general item.tier_minimum_units else "0"

-- The row as a price of the product with a hash.
unfoldable pub item_price : Library → Item → String → Price
item_price lib item hash = record {
  price_hash =
      price_hash lib.hex hash item.kind item.unit_of_measure (tier_start lib item) item.meter_name
        item.reservation_term "" "";
  purchase_option = item.kind;
  unit = item.unit_of_measure;
  usd = lib.fixed item.retail_price;
  start_usage_amount = tier_start lib item;
  end_usage_amount = "";
  description = item.meter_name;
  term_length = item.reservation_term;
  term_purchase_option = "";
  term_offering_class = "";
}

unfoldable pub add_price : Library → Item → Entry → Entry
add_price lib item e = record e {
  product = record e.product {
    prices = e.product.prices ++ item_price lib item e.product.product_hash ∷ [];
  };
  primary = e.primary ++ is_authoritative item ∷ [];
}

unfoldable pub add_to : Library → Item → String → List Entry → List Entry
add_to lib item region [] =
    add_price lib item (record {
      key = product_key item region;
      product = new_product lib item region;
      primary = [];
    })
    ∷ []
add_to lib item region (e ∷ entries) = elim (str_eq e.key (product_key item region)) [
  | true ↦ add_price lib item e ∷ entries
  | false ↦ e ∷ add_to lib item region entries
]

unfoldable pub add_regions : Library → Item → List String → List Entry → List Entry
add_regions lib item [] entries = entries
add_regions lib item (r ∷ regions) entries =
    add_regions lib item regions (add_to lib item r entries)

unfoldable pub add : Library → Item → List Entry → List Entry
add lib item entries = add_regions lib item (azure_product_regions lib item) entries

-- The rows of one service, page after page.
unfoldable pub add_all : Library → List Item → List Entry → List Entry
add_all lib [] entries = entries
add_all lib (item ∷ items) entries = add_all lib items (add lib item entries)

unfoldable pub azure_price_slot : Price → String
azure_price_slot p =
    join "|" (p.purchase_option ∷ p.unit ∷ p.start_usage_amount ∷ p.term_length ∷ [])

-- The slots with an authoritative row.
unfoldable pub covered : List Price → List Bool → List String
covered [] flags = []
covered (p ∷ ps) [] = []
covered (p ∷ ps) (f ∷ flags) =
    let rest = covered ps flags in if f then azure_price_slot p ∷ rest else rest

unfoldable pub kept : List String → List Price → List Bool → List Price
kept slots [] flags = []
kept slots (p ∷ ps) [] = []
kept slots (p ∷ ps) (f ∷ flags) =
    let rest = kept slots ps flags in
    if f || not (any (str_eq (azure_price_slot p)) slots) then p ∷ rest else rest

unfoldable pub dedupe_key : Price → String
dedupe_key p =
    join "|" (p.purchase_option ∷ p.unit ∷ p.start_usage_amount ∷ p.usd ∷ p.term_length ∷ [])

-- `seen` has the keys of the prices taken so far.
unfoldable pub dedupe_from : List String → List Price → List Price
dedupe_from seen [] = []
dedupe_from seen (p ∷ ps) = elim (any (str_eq (dedupe_key p)) seen) [
  | true ↦ dedupe_from seen ps
  | false ↦ p ∷ dedupe_from (dedupe_key p ∷ seen) ps
]

unfoldable pub deduplicate_prices : List Price → List Price
deduplicate_prices = dedupe_from []

unfoldable pub tier_key : Price → String
tier_key p = join "|" (p.purchase_option ∷ p.start_usage_amount ∷ p.term_length ∷ [])

-- The price at the index that `seen` has for the key is the one with the key.
unfoldable pub place : Library → Price → List Price → List Price
place lib p [] = p ∷ []
place lib p (q ∷ qs) = elim (str_eq (tier_key q) (tier_key p)) [
  | true ↦ (if lib.is_cheaper p.usd q.usd then p else q) ∷ qs
  | false ↦ q ∷ place lib p qs
]

unfoldable pub place_all : Library → List Price → List Price → List Price
place_all lib [] result = result
place_all lib (p ∷ ps) result = place_all lib ps (place lib p result)

unfoldable pub deduplicate_prices_by_tier : Library → List Price → List Price
deduplicate_prices_by_tier lib ps = place_all lib ps []

unfoldable pub kept_of : Entry → List Price
kept_of e = kept (covered e.product.prices e.primary) e.product.prices e.primary

unfoldable pub finish_prices : Library → String → List Price → List Price
finish_prices lib region ps =
    if is_virtual_region region then deduplicate_prices_by_tier lib ps else deduplicate_prices ps

unfoldable pub finish_product : Library → Entry → Product
finish_product lib e = record e.product { prices = finish_prices lib e.product.region (kept_of e) }

abbrev pub has_none : List Price → Bool
has_none [] = true
has_none (p ∷ ps) = false

unfoldable pub products_from : Library → List String → List Entry → List Product
products_from lib seen [] = []
products_from lib seen (e ∷ entries) =
    elim (has_none (kept_of e) || any (str_eq e.product.product_hash) seen) [
      | true ↦ products_from lib seen entries
      | false ↦ finish_product lib e ∷ products_from lib (e.product.product_hash ∷ seen) entries
    ]

unfoldable pub products : Library → List Entry → List Product
products lib = products_from lib []
