-- ===== src/Scrape/Guards.antt =====
-- When a run cleans up, what it records, and what it leaves of the seen-set.
use c3x_pricing_api.Base.{
  ℕ, ◌/◌, ◌<◌, ◌≤◌, ◌≡◌, ◌≢◌, ◌⊎◌, String, some, List, [], ◌∷◌, true, false, arith, All, eq_iff,
}
use c3x_pricing_api.Db.Store.{Row, Seen, is_seen, is_stale, delete_stale_products}
use c3x_pricing_api.Db.Store.Rows.{find}
use c3x_pricing_api.Scrape.{
  previous, Tables, Env, handle_all, count_seen, delete_stale_if_seen_set_complete, cleanup,
  conclude, empty_scrape_error, run_one_scrape, seen_set_complete,
}
use c3x_pricing_api.Scrape.Safety.{opened, run_one_scrape-conclude}

-- The conditions under which a run may delete what it has not seen.
pub record IsTrustworthy (env : Env) (run total : ℕ) (t : Tables) : Type 0 where
  pub no_error : env.scrape_error ≡ false
  pub ingested : 0 < total
  pub no_failures : env.failed_services ≡ 0
  pub no_regression : previous env t / 2 ≤ total
  pub seen : 0 < count_seen run t.seen
  pub complete : total / 2 ≤ count_seen run t.seen

-- A row that the cleanup of a vendor keeps: another vendor's, one written since the start of the
-- run, or one that the run saw.
abbrev pub IsLive : String → ℕ → ℕ → List Seen → Row → Type 0
IsLive vendor run start seen r =
    (r.product.vendor_name ≢ vendor)
    ⊎ (start ≤ r.updated_at)
    ⊎ (is_seen run r.product.product_hash seen ≡ true)

abbrev deleted_rows : Env → ℕ → ℕ → Tables → List Row
deleted_rows env run start t = delete_stale_products env.vendor run start t.seen t.rows

cleanup-guarded :
    (env : Env) (run start total : ℕ) (t : Tables)
    → ((cleanup env run start total t).0 ≡ t.rows)
      ⊎ ((env.failed_services ≡ 0)
          × (previous env t / 2 ≤ total)
          × (0 < count_seen run t.seen)
          × (total / 2 ≤ count_seen run t.seen)
          × ((cleanup env run start total t).0 ≡ deleted_rows env run start t))
unfolding cleanup delete_stale_if_seen_set_complete seen_set_complete
cleanup-guarded env run start total t = ground arith

conclude-guarded :
    (env : Env) (run start total : ℕ) (t : Tables)
    → let rows = (conclude env run start (t, total)).0.rows in
      (rows ≡ t.rows) ⊎ (IsTrustworthy env run total t × (rows ≡ deleted_rows env run start t))
unfolding conclude empty_scrape_error
conclude-guarded env run start total t = ground (arith, cleanup-guarded env run start total t)

-- A run that holds the lock either leaves the rows as its handler calls left them, or deletes the
-- vendor's rows that are neither seen nor written since its start. It deletes only if the scraper
-- returned no error and no failed service, ingested something, and at least half as much as the
-- vendor's last successful run (0 where that cannot be read), and if the seen-set counts at least
-- half of what was ingested.
pub run_one_scrape-guarded :
    (env : Env) (t : Tables) (start run : ℕ)
    → env.lock ≡ some true
    → env.start_time ≡ some start
    → env.run_id ≡ some run
    → let (t₁, total) = handle_all run env.events (opened env start run t) 0 in
      let rows = (run_one_scrape env t).0.rows in
      (rows ≡ t₁.rows)
      ⊎ (IsTrustworthy env run total t₁
          × (rows ≡ delete_stale_products env.vendor run start t₁.seen t₁.rows))
run_one_scrape-guarded env t start run lock time id =
    let (t₁, total) = handle_all run env.events (opened env start run t) 0 in
    rw (run_one_scrape-conclude env t start run lock time id)
      (conclude-guarded env run start total t₁)

not_stale-IsLive :
    (vendor : String) (run start : ℕ) (seen : List Seen) (r : Row)
    → is_stale vendor run start seen r ≡ false
    → IsLive vendor run start seen r
unfolding is_stale
not_stale-IsLive vendor run start seen r h = ground (arith, eq_iff r.product.vendor_name vendor)

IsLive-not_stale :
    (vendor : String) (run start : ℕ) (seen : List Seen) (r : Row)
    → IsLive vendor run start seen r
    → is_stale vendor run start seen r ≡ false
unfolding is_stale
IsLive-not_stale vendor run start seen r h = ground (arith, eq_iff r.product.vendor_name vendor)

delete_stale_products-All :
    (vendor : String) (run start : ℕ) (seen : List Seen) (rows : List Row)
    → All (IsLive vendor run start seen) (delete_stale_products vendor run start seen rows)
unfolding delete_stale_products
delete_stale_products-All vendor run start seen [] = tt
delete_stale_products-All vendor run start seen (r ∷ rows) = ground (
  arith,
  delete_stale_products-All vendor run start seen rows,
  not_stale-IsLive vendor run start seen r,
)

delete_stale_products-find :
    (vendor : String) (run start : ℕ) (seen : List Seen) (rows : List Row) (k : String) (r : Row)
    → find k rows ≡ some r
    → IsLive vendor run start seen r
    → find k (delete_stale_products vendor run start seen rows) ≡ some r
unfolding delete_stale_products find
delete_stale_products-find vendor run start seen [] k r e live = cc
delete_stale_products-find vendor run start seen (q ∷ rows) k r e live = ground (
  arith,
  delete_stale_products-find vendor run start seen rows k r,
  IsLive-not_stale vendor run start seen r live,
)

-- The cleanup leaves no row of the vendor that is neither seen by the run nor written since its
-- start, and it keeps every row of another vendor, seen by the run or written since its start.
pub delete_stale_products-IsLive :
    (vendor : String) (run start : ℕ) (seen : List Seen) (rows : List Row)
    → All (IsLive vendor run start seen) (delete_stale_products vendor run start seen rows)
      × ((k : String) (r : Row)
          → find k rows ≡ some r
          → IsLive vendor run start seen r
          → find k (delete_stale_products vendor run start seen rows) ≡ some r)
delete_stale_products-IsLive vendor run start seen rows = (
  delete_stale_products-All vendor run start seen rows,
  delete_stale_products-find vendor run start seen rows,
)
