-- ===== src/Scraper/Gcp/Tests.antt =====
-- A SKU with two tiers, and machine types from two products of Compute Engine.
use mathlib.Core.List.{Memᴰ}
use mathlib.Core.List.Memᴰ.{head, tail}
use c3x_pricing_api.Base.{
  ℕ, ◌+◌, ◌*◌, ◌/◌, ◌≡◌, ◌≢◌, refl, String, List, [], ◌∷◌, some, ltb, ◌==◌, size, if◌then◌else◌,
  cut, strip_prefix,
}
use c3x_pricing_api.Base.Int.{pos, pos_part}
use c3x_pricing_api.Db.Types.{Price, Product}
use c3x_pricing_api.Scraper.Attributes.{get}
use c3x_pricing_api.Scraper.Gcp.{
  Library, GcpTieredRate, GcpPrice, GcpSku, PriceKey, transform_sku, matches, counted,
}
use c3x_pricing_api.Scraper.Gcp.MachineTypes.{MachineType, Family}
use c3x_pricing_api.Scraper.Gcp.Index.{IsOffered, key}
use c3x_pricing_api.Scraper.Gcp.Ladder.{IsOfSku, transform_sku_lem}

abbrev lib : Library
lib = record {
  hex = λ s. s;
  parse_float = λ s. some (size s);
  of_int = λ z. pos_part z;
  of_hundredths = λ n. n / 100;
  add = λ a b. a + b;
  multiply = λ a b. a * b;
  divide = λ a b. a / b;
  less = ltb;
  fixed = λ n. "1.0000000000";
  plain = λ n. if n == 0 then "0" else "5";
}

abbrev tier : ℕ → GcpTieredRate
tier start = record { start_usage_amount = start; units = "1"; nanos = pos 0 }

abbrev pricing : GcpPrice
pricing = record { usage_unit = "h"; tiered_rates = tier 0 ∷ tier 5 ∷ [] }

abbrev sku : GcpSku
sku = record {
  sku_id = "S";
  description = "N1 Predefined Instance Core running in Americas";
  service_display_name = "Networking";
  resource_family = "Compute";
  resource_group = "N1";
  usage_type = "OnDemand";
  service_regions = "us-east1" ∷ "us-west1" ∷ [];
  pricing_info = pricing ∷ [];
}

has_tiers : pricing.tiered_rates ≢ []
has_tiers e = cc

transform_sku_lem_example :
    ((x : Product) → Memᴰ x (transform_sku lib sku) → IsOfSku lib sku pricing x)
    × ((region : String)
        → Memᴰ region sku.service_regions
        → (x : Product) × Memᴰ x (transform_sku lib sku) × (x.region ≡ region))
transform_sku_lem_example = transform_sku_lem lib sku pricing [] refl has_tiers

abbrev hourly : Price
hourly = record {
  price_hash = "h";
  purchase_option = "OnDemand";
  unit = "h";
  usd = "0.0310000000";
  start_usage_amount = "0";
  end_usage_amount = "";
  description = "";
  term_length = "";
  term_purchase_option = "";
  term_offering_class = "";
}

abbrev part : String → Product
part description = record {
  product_hash = description;
  sku = "S";
  vendor_name = "gcp";
  region = "us-east1";
  service = "Compute Engine";
  product_family = "Compute";
  attributes = ("description", description) ∷ [];
  prices = hourly ∷ [];
}

abbrev parts : List Product
parts = part "N1 Core" ∷ part "N1 Ram" ∷ []

abbrev machine : MachineType
machine = record { name = "n1-standard-1"; cpus = 100; ram = 375 }

abbrev family : Family
family = record {
  name = "n1";
  cpu_pattern = "Core";
  ram_pattern = "Ram";
  machine_types = machine ∷ [];
}

abbrev us_east : PriceKey
us_east = key "us-east1" "OnDemand"

ram : IsOffered lib "Ram" parts us_east 12
unfolding matches counted get cut strip_prefix size
ram = (part "N1 Ram", tail (head refl), refl, (hourly, head refl, refl, refl))
