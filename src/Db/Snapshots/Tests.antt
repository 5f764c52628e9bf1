-- ===== src/Db/Snapshots/Tests.antt =====
-- Two products, of which one has prices that cannot be encoded.
use c3x_pricing_api.Base.{String, Option, none, some, List, [], ◌∷◌}
use c3x_pricing_api.Db.Types.{Product, Price}

abbrev price : Price
price = record {
  price_hash = "h";
  purchase_option = "";
  unit = "";
  usd = "1";
  start_usage_amount = "";
  end_usage_amount = "";
  description = "";
  term_length = "";
  term_purchase_option = "";
  term_offering_class = "";
}

abbrev item : String → List Price → Product
item hash prices = record {
  product_hash = hash;
  sku = "";
  vendor_name = "aws";
  region = "";
  service = "";
  product_family = "";
  attributes = [];
  prices = prices;
}

abbrev marshal : List Price → Option String
marshal [] = none
marshal (p ∷ ps) = some p.usd

abbrev items : List Product
items = item "a" (price ∷ []) ∷ item "b" [] ∷ []
