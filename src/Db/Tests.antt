-- ===== src/Db/Tests.antt =====
-- The tables on concrete rows.
use c3x_pricing_api.Base.{ℕ, String, none, some, List, [], ◌∷◌, ◌≡◌, refl, true}
use c3x_pricing_api.Db.Types.{Product}
use c3x_pricing_api.Db.Store.{Row, Seen, ok, upsert_products}
use c3x_pricing_api.Db.Store.Rows.{find, first_with}
use c3x_pricing_api.Db.Store.Slices.{slice, beyond}
use c3x_pricing_api.Db.Store.Outcome.{Carries, SameIdentity, upsert_products-find}
use c3x_pricing_api.Db.Runs.{Run, running}

abbrev item : String → String → Product
item hash sku = record {
  product_hash = hash;
  sku = sku;
  vendor_name = "aws";
  region = "us-east-1";
  service = "AmazonEC2";
  product_family = "";
  attributes = [];
  prices = [];
}

abbrev items : List Product
items = item "a" "first" ∷ item "b" "s" ∷ item "a" "second" ∷ []

abbrev rows : List Row
rows = record { product = item "b" "old"; updated_at = 3 } ∷ []

upsert_products-find_example :
    (rows' : List Row) × (upsert_products (λ i. true) (λ i. 7) items rows ≡ ok rows')
    × ((k : String) → first_with k items ≡ none → find k rows' ≡ find k rows)
    × ((k : String) (n : ℕ) (p : Product)
        → first_with k (slice n items) ≡ some p
        → first_with k (beyond n items) ≡ none
        → (r : Row) × (find k rows' ≡ some r)
          × Carries p r
          × ((q : Row) → find k rows ≡ some q → SameIdentity q r))
upsert_products-find_example = upsert_products-find (λ i. true) (λ i. 7) items rows (λ i. refl)

abbrev run : ℕ → ℕ → Run
run id started_at = record {
  id = id;
  vendor = "aws";
  started_at = started_at;
  finished_at = none;
  status = running;
  products = 0;
  deleted = 0;
}

abbrev seen : List Seen
seen = record { run_id = 1; product_hash = "a" } ∷ record { run_id = 2; product_hash = "b" } ∷ []
