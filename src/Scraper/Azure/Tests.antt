-- ===== src/Scraper/Azure/Tests.antt =====
-- A meter with an authoritative row and a copy of it.
use mathlib.Core.List.{Memᴰ}
use c3x_pricing_api.Base.{◌≡◌, refl, String, [], ◌∷◌, true, false, ltb, size, strip_prefix, cut}
use c3x_pricing_api.Db.Types.{Price}
use c3x_pricing_api.Scraper.Azure.{Library, Item, is_virtual_region}
use c3x_pricing_api.Scraper.Azure.Builder.{
  Entry, finish_product, finish_prices, kept_of, kept, covered, deduplicate_prices, dedupe_from,
  azure_price_slot, dedupe_key,
}

abbrev lib : Library
lib = record {
  hex = λ s. s;
  to_lower = λ s. s;
  fixed = λ n. "1.0000000000";
  general = λ n. "1";
  is_positive = λ n. ltb 0 n;
  is_cheaper = λ a b. ltb (size a) (size b);
}

abbrev price : String → Price
price usd = record {
  price_hash = "h";
  purchase_option = "Consumption";
  unit = "1 Hour";
  usd = usd;
  start_usage_amount = "0";
  end_usage_amount = "";
  description = "";
  term_length = "";
  term_purchase_option = "";
  term_offering_class = "";
}

abbrev entry : Entry
entry = record {
  key = "k";
  product = record {
    product_hash = "p";
    sku = "s";
    vendor_name = "azure";
    region = "eastus";
    service = "Azure Firewall";
    product_family = "";
    attributes = [];
    prices = price "1.0" ∷ price "1.25" ∷ [];
  };
  primary = false ∷ true ∷ [];
}

-- The copy goes.
one_left : (finish_product lib entry).prices ≡ price "1.25" ∷ []
unfolding finish_product finish_prices is_virtual_region kept_of kept covered deduplicate_prices
    dedupe_from azure_price_slot dedupe_key strip_prefix cut
one_left = refl

abbrev item : Item
item = record {
  retail_price = 1;
  unit_of_measure = "1 Hour";
  arm_region_name = "eastus";
  service_name = "Azure Firewall";
  service_family = "Networking";
  product_name = "Azure Firewall";
  sku_name = "Standard";
  arm_sku_name = "";
  meter_name = "Standard Deployment";
  kind = "Consumption";
  is_primary_meter_region = false;
  reservation_term = "";
  tier_minimum_units = 0;
}
