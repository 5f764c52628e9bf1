-- ===== src/Scrape/Tests.antt =====
-- A scrape of two products over a stored stale one.
use c3x_pricing_api.Base.Int.{pos}
use c3x_pricing_api.Scrape.Retention.{scrape_run_retention}
use c3x_pricing_api.Base.Strconv.{parse_int}
use c3x_pricing_api.Base.{◌+◌, String, some, [], ◌∷◌, ◌≡◌, refl, ◌↔◌, ◌<◌, ◌⊎◌, true, false, arith}
use c3x_pricing_api.Db.Types.{Product}
use c3x_pricing_api.Db.Store.{Row, delete_stale_products}
use c3x_pricing_api.Db.Store.Rows.{first_with}
use c3x_pricing_api.Db.Store.Presence.{Holds}
use c3x_pricing_api.Scrape.{
  Tables, Call, call, crash, cleared, reaped, Env, handle_all, produced, cleanup, run_one_scrape,
}
use c3x_pricing_api.Scrape.Tracking.{Spares}
use c3x_pricing_api.Scrape.Safety.{opened, run_one_scrape-keeps_seen}
use c3x_pricing_api.Scrape.Guards.{IsTrustworthy, run_one_scrape-guarded}
use c3x_pricing_api.Scrape.Records.{find_run, started, recorded, run_one_scrape-records}

abbrev item : String → Product
item hash = record {
  product_hash = hash;
  sku = "s";
  vendor_name = "aws";
  region = "us-east-1";
  service = "AmazonEC2";
  product_family = "";
  attributes = [];
  prices = [];
}

abbrev stored : Row
stored = record { product = item "gone"; updated_at = 3 }

abbrev two_items : Call
two_items = record {
  products = item "a" ∷ item "b" ∷ [];
  upsert_exec = λ i. true;
  mark_exec = true;
  now = λ i. 11 + i;
}

abbrev tables : Tables
tables = record { rows = stored ∷ []; seen = []; runs = [] }

abbrev env : Env
env = record {
  vendor = "aws";
  lock = some true;
  start_time = some 10;
  run_id = some 1;
  events = crash ∷ call two_items ∷ cleared 3 ∷ reaped 9000 ∷ [];
  scrape_error = false;
  failed_services = 0;
  previous_exec = true;
  count_exec = true;
  delete_exec = true;
  finish_exec = true;
  prune_exec = true;
  clear_exec = true;
  finish_time = 20;
  retention = 0;
}

not_own : Spares 1 10 (cleared 3)
not_own e = ground arith

run_one_scrape-keeps_seen_example : Holds "b" (run_one_scrape env tables).0.rows
unfolding first_with
run_one_scrape-keeps_seen_example =
    run_one_scrape-keeps_seen env tables 10 1 (crash ∷ []) (cleared 3 ∷ reaped 9000 ∷ []) two_items
      "b" refl refl refl (omega arith) refl _ (tt, (tt, (not_own, (ground arith, tt))))
      ((λ i. refl), refl) refl

run_one_scrape-guarded_example :
    let (t₁, total) = handle_all 1 env.events (opened env 10 1 tables) 0 in
    let rows = (run_one_scrape env tables).0.rows in
    (rows ≡ t₁.rows)
    ⊎ (IsTrustworthy env 1 total t₁ × (rows ≡ delete_stale_products "aws" 1 10 t₁.seen t₁.rows))
run_one_scrape-guarded_example = run_one_scrape-guarded env tables 10 1 refl refl refl

run_one_scrape-records_example :
    let (t₁, total) = handle_all 1 env.events (opened env 10 1 tables) 0 in
    let (t', outcome) = run_one_scrape env tables in
    (find_run 1 t'.runs
      ≡ some (recorded env total (cleanup env 1 10 total t₁).1 (started 1 "aws" 10)))
    × ((outcome ≡ produced true) ↔ ((env.scrape_error ≡ false) × (0 < total)))
unfolding find_run
run_one_scrape-records_example = run_one_scrape-records env tables 10 1 refl refl refl refl refl

default : scrape_run_retention "" ≡ pos 2592000000000000
unfolding scrape_run_retention
default = refl

negative_days : scrape_run_retention "-1" ≡ scrape_run_retention "30"
unfolding scrape_run_retention parse_int
negative_days = refl

-- 213504 days wrap around to less than half an hour.
wrapped : scrape_run_retention "213504" ≡ pos 1526290448384
unfolding scrape_run_retention parse_int
wrapped = refl
