-- ===== src/Scraper/Gcp.antt =====
-- internal/scraper/gcp.go: SKUs as products, and the index of the prices of vCPUs and memory.
-- A float64 is its 64 bits, as a number. Go's iteration over a map takes some order; here it is a
-- list's.
pub mod MachineTypes
pub mod Ladder
mod Tests
pub mod Index
pub mod Cheapest
pub mod Synthesize
pub mod Machines
pub mod MachineProducts
pub mod Synthesis
pub mod Targets
pub mod Flagged
use c3x_pricing_api.Base.{
  ℕ, String, List, [], ◌∷◌, ◌++◌, Option, none, some, Bool, true, false, not, ◌&&◌, ◌||◌, any,
  str_eq, ◌<>◌, if◌then◌else◌,
}
use c3x_pricing_api.Base.{contains}
use c3x_pricing_api.Base.Int.{ℤ, pos}
use c3x_pricing_api.Base.Strconv.{parse_int}
use c3x_pricing_api.Db.Types.{Price, Product}
use c3x_pricing_api.Scraper.Hash.{product_hash, price_hash}
use c3x_pricing_api.Scraper.Attributes.{get}

-- What packages strconv, fmt and crypto/sha256, and the arithmetic of float64, compute.
pub record Library : Type 0 where
  pub hex : String → String
  pub parse_float : String → Option ℕ
  -- The operations of float64: its value for an integer and for a number of hundredths, a sum, a
  -- product, a quotient and the order.
  pub of_int : ℤ → ℕ
  pub of_hundredths : ℕ → ℕ
  pub add : ℕ → ℕ → ℕ
  pub multiply : ℕ → ℕ → ℕ
  pub divide : ℕ → ℕ → ℕ
  pub less : ℕ → ℕ → Bool
  -- %.10f, and FormatFloat with 'f' and -1
  pub fixed : ℕ → String
  pub plain : ℕ → String

pub record GcpTieredRate : Type 0 where
  pub start_usage_amount : ℕ
  pub units : String
  pub nanos : ℤ

pub record GcpPrice : Type 0 where
  pub usage_unit : String
  pub tiered_rates : List GcpTieredRate

pub record GcpSku : Type 0 where
  pub sku_id : String
  pub description : String
  pub service_display_name : String
  pub resource_family : String
  pub resource_group : String
  pub usage_type : String
  pub service_regions : List String
  pub pricing_info : List GcpPrice

unfoldable pub normalize_gcp_service_name : String → String
normalize_gcp_service_name name = if str_eq name "Networking" then "Compute Engine" else name

unfoldable pub unit_value : String → ℤ
unit_value units =
    if not (str_eq units "") && not (str_eq units "0")
    then elim (parse_int units) [ none ↦ pos 0 | some v ↦ v ]
    else pos 0

-- The next tier's start, or "" after the last.
unfoldable pub end_usage : Library → List GcpTieredRate → String
end_usage lib [] = ""
end_usage lib (next ∷ tiers) = lib.plain next.start_usage_amount

unfoldable pub tier_amount : Library → ℤ → ℤ → ℕ
tier_amount lib units nanos =
    lib.add (lib.of_int units) (lib.divide (lib.of_int nanos) (lib.of_int (pos 1000000000)))

unfoldable pub tier_price : Library → String → GcpSku → GcpPrice → GcpTieredRate → String → Price
unfolding tier_amount
tier_price lib hash sku pricing tier end = record {
  price_hash =
      price_hash lib.hex hash sku.usage_type pricing.usage_unit (lib.plain tier.start_usage_amount)
        sku.description "" "" "";
  purchase_option = sku.usage_type;
  unit = pricing.usage_unit;
  usd = lib.fixed (tier_amount lib (unit_value tier.units) tier.nanos);
  start_usage_amount = lib.plain tier.start_usage_amount;
  end_usage_amount = end;
  description = sku.description;
  term_length = "";
  term_purchase_option = "";
  term_offering_class = "";
}

unfoldable pub tier_prices : Library → String → GcpSku → GcpPrice → List GcpTieredRate → List Price
tier_prices lib hash sku pricing [] = []
tier_prices lib hash sku pricing (tier ∷ tiers) =
    tier_price lib hash sku pricing tier (end_usage lib tiers)
    ∷ tier_prices lib hash sku pricing tiers

unfoldable pub region_product : Library → GcpSku → GcpPrice → String → Product
region_product lib sku pricing region =
    let service = normalize_gcp_service_name sku.service_display_name in
    let hash = product_hash lib.hex "gcp" region service sku.sku_id in
    record {
      product_hash = hash;
      sku = sku.sku_id;
      vendor_name = "gcp";
      region = region;
      service = service;
      product_family = sku.resource_family;
      attributes = ("description", sku.description) ∷ ("resourceGroup", sku.resource_group) ∷ [];
      prices = tier_prices lib hash sku pricing pricing.tiered_rates;
    }

abbrev pub has_prices : List Price → Bool
has_prices [] = false
has_prices (p ∷ ps) = true

unfoldable pub region_products : Library → GcpSku → GcpPrice → List String → List Product
region_products lib sku pricing [] = []
region_products lib sku pricing (region ∷ regions) =
    let rest = region_products lib sku pricing regions in
    let product = region_product lib sku pricing region in
    if has_prices product.prices then product ∷ rest else rest

-- The first of the pricing infos counts.
unfoldable pub transform_sku : Library → GcpSku → List Product
transform_sku lib sku = elim sku.pricing_info [
  | [] ↦ []
  | pricing ∷ rest ↦ region_products lib sku pricing sku.service_regions
]

-- priceKey
pub record PriceKey : Type 0 where
  pub region : String
  pub purchase_option : String

unfoldable pub key_eq : PriceKey → PriceKey → Bool
key_eq a b = str_eq a.region b.region && str_eq a.purchase_option b.purchase_option

unfoldable pub find : PriceKey → List (PriceKey × ℕ) → Option ℕ
find k [] = none
find k ((j, v) ∷ prices) = if key_eq j k then some v else find k prices

unfoldable pub put_min : Library → PriceKey → ℕ → List (PriceKey × ℕ) → List (PriceKey × ℕ)
put_min lib k v [] = (k, v) ∷ []
put_min lib k v ((j, w) ∷ prices) = elim (key_eq j k) [
  | true ↦ (j, if lib.less v w then v else w) ∷ prices
  | false ↦ (j, w) ∷ put_min lib k v prices
]

-- The number that a price counts with, if it does.
unfoldable pub counted : Library → Price → Option ℕ
counted lib p = if str_eq p.usd "0.0000000000" then none else lib.parse_float p.usd

unfoldable pub index_price : Library → String → Price → List (PriceKey × ℕ) → List (PriceKey × ℕ)
index_price lib region p index = elim (counted lib p) [
  | none ↦ index
  | some v ↦ put_min lib (record { region = region; purchase_option = p.purchase_option }) v index
]

unfoldable pub index_prices :
    Library → String → List Price → List (PriceKey × ℕ) → List (PriceKey × ℕ)
index_prices lib region [] index = index
index_prices lib region (p ∷ ps) index = index_prices lib region ps (index_price lib region p index)

unfoldable pub matches : String → Product → Bool
matches pattern p =
    let description = get "description" p.attributes in
    str_eq p.service "Compute Engine"
    && not (contains description "SUD" || contains description "Commitment")
    && contains description pattern

-- indexCPURAMPrices for one pattern; the maps of different patterns do not meet.
unfoldable pub index_products :
    Library → String → List Product → List (PriceKey × ℕ) → List (PriceKey × ℕ)
index_products lib pattern [] index = index
index_products lib pattern (p ∷ ps) index =
    index_products lib pattern ps
      (if matches pattern p then index_prices lib p.region p.prices index else index)
