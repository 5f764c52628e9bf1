-- ===== src/Server/Status.antt =====
-- internal/server/server.go: `vendorStatus`, and the two queries of `handleStatus` that feed it.
pub mod Latest
use c3x_pricing_api.Base.{
  ℕ, ◌-◌, String, Option, none, some, List, [], ◌∷◌, Bool, true, false, ltb, leb, ◌==◌, str_eq,
  ◌&&◌, not, if◌then◌else◌,
}
use c3x_pricing_api.Db.Runs.{Run, Status, running, success, failed, is_success}

pub data VendorStatus : Type 0 where
  never scraping failing empty stale ready : VendorStatus

pub record Facts : Type 0 where
  pub saw_success : Bool
  pub success_products : ℕ
  pub latest_status : Option Status
  pub finished_at : Option ℕ

-- 48 hours, in seconds.
abbrev pub stale_after : ℕ
stale_after = 172800

abbrev is_old : ℕ → Option ℕ → Bool
is_old now none = false
is_old now (some t) = ltb stale_after (now - t)

abbrev is_in_progress : Option Status → Bool
is_in_progress (some running) = true
is_in_progress _ = false

abbrev is_failed : Option Status → Bool
is_failed (some failed) = true
is_failed _ = false

abbrev is_none : Option Status → Bool
is_none none = true
is_none (some s) = false

unfoldable pub vendor_status : ℕ → Facts → VendorStatus
vendor_status now f =
    if is_none f.latest_status && not f.saw_success
    then never
    else if is_in_progress f.latest_status
    then scraping
    else if is_failed f.latest_status
    then failing
    else if f.saw_success
    then (if f.success_products == 0
        then empty
        else if is_old now f.finished_at
        then stale
        else ready)
    else never

-- DISTINCT ON (vendor) ... ORDER BY vendor, id DESC: the vendor's run with the largest id, of those
-- that the WHERE clause keeps.
abbrev newer : Run → Option Run → Option Run
newer r none = some r
newer r (some best) = if ltb best.id r.id then some r else some best

unfoldable pub latest : (Run → Bool) → String → List Run → Option Run
latest keeps vendor [] = none
latest keeps vendor (r ∷ runs) =
    let rest = latest keeps vendor runs in
    if str_eq r.vendor vendor && keeps r then newer r rest else rest

add_success : Option Run → Facts → Facts
add_success none f = f
add_success (some r) f = record f { saw_success = true; success_products = r.products }

add_latest : Option Run → Facts → Facts
add_latest none f = f
add_latest (some r) f = record f { latest_status = some r.status; finished_at = r.finished_at }

abbrev pub no_facts : Facts
no_facts = record {
  saw_success = false;
  success_products = 0;
  latest_status = none;
  finished_at = none;
}

-- What /status reports of a vendor; a query that fails adds no facts.
unfoldable pub handle_status : Bool → Bool → ℕ → String → List Run → VendorStatus
unfolding add_success add_latest
handle_status success_query latest_query now vendor runs =
    let found = if success_query then latest (λ r. is_success r.status) vendor runs else none in
    let newest = if latest_query then latest (λ r. true) vendor runs else none in
    vendor_status now (add_latest newest (add_success found no_facts))
