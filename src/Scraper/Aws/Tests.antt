-- ===== src/Scraper/Aws/Tests.antt =====
-- A product that is sold on demand for USD, reserved by quantity, and in China for CNY.
use mathlib.Core.List.{Memᴰ}
use mathlib.Core.List.Memᴰ.{head}
use c3x_pricing_api.Base.{◌≡◌, ◌≢◌, refl, String, [], ◌∷◌, some, true, false, inr, ltb, ◌==◌}
use c3x_pricing_api.Db.Types.{Price, Product}
use c3x_pricing_api.Scraper.Attributes.{get}
use c3x_pricing_api.Scraper.Aws.{
  Library, AwsProduct, AwsPriceDimension, AwsTermOffer, AwsRawPricing, is_skipped, dimension_usd,
  offers_of, build_product_list, cny_to_usd,
}
use c3x_pricing_api.Scraper.Aws.Built.{HasAmount, IsPriceOf}
use c3x_pricing_api.Scraper.Aws.Products.{
  terms_of, IsOffered, build_product_list_sound, build_product_list_complete,
}

abbrev lib : Library
lib = record {
  hex = λ s. s;
  parse_float = λ s. some 7;
  is_zero = λ n. n == 0;
  is_positive = λ n. ltb 0 n;
  divide = λ a b. a;
  fixed = λ n. "1.1277900000";
}

abbrev dimension : String → String → AwsPriceDimension
dimension currency unit = record {
  unit = unit;
  price_per_unit = (currency, "7.00") ∷ [];
  begin_range = "0";
  end_range = "Inf";
  description = "d";
}

abbrev hourly : AwsPriceDimension
hourly = dimension "CNY" "Hrs"

abbrev offer : AwsTermOffer
offer = record { price_dimensions = hourly ∷ []; term_attributes = [] }

abbrev upfront : AwsTermOffer
upfront = record { price_dimensions = dimension "USD" "Quantity" ∷ []; term_attributes = [] }

abbrev product : AwsProduct
product = record {
  sku = "S";
  product_family = "Compute Instance";
  attributes = ("location", "US East (Ohio)") ∷ [];
}

abbrev raw : AwsRawPricing
raw = record {
  products = product ∷ [];
  on_demand_terms = ("S", offer ∷ []) ∷ [];
  reserved_terms = ("S", upfront ∷ []) ∷ [];
}

converted : is_skipped lib 6 false hourly ≡ false
unfolding is_skipped dimension_usd get cny_to_usd
converted = refl

by_quantity : is_skipped lib 6 true (dimension "USD" "Quantity") ≡ true
unfolding is_skipped dimension_usd get
by_quantity = refl

offered : Memᴰ offer (offers_of "S" (terms_of raw false))
unfolding offers_of
offered = head refl

hourly_amount : HasAmount lib 6 hourly "1.1277900000"
unfolding get
hourly_amount = inr (refl, (λ e. cc), (7, refl, inr (refl, refl)))

build_product_list_complete_example :
    (x : Product) × Memᴰ x (build_product_list lib 6 raw "AmazonEC2")
    × (x.sku ≡ "S")
    × ((q : Price) × Memᴰ q x.prices
        × (q.usd ≡ "1.1277900000")
        × IsPriceOf lib 6 false offer hourly q)
build_product_list_complete_example =
    build_product_list_complete lib 6 raw "AmazonEC2" false product offer hourly "1.1277900000"
      (head refl) offered (head refl) hourly_amount (λ e. cc) (λ e q. cc)

build_product_list_sound_example :
    let x = build_product_list_complete_example.0 in
    (x.prices ≢ [])
    × ((p : AwsProduct) × Memᴰ p raw.products
        × (x.sku ≡ p.sku)
        × ((q : Price) → Memᴰ q x.prices → IsOffered lib 6 raw "AmazonEC2" p x.product_hash q))
build_product_list_sound_example =
    build_product_list_sound lib 6 raw "AmazonEC2" build_product_list_complete_example.0
      build_product_list_complete_example.1
