-- ===== src/Server/Status/Latest.antt =====
-- /status reports a vendor by its latest run.
use c3x_pricing_api.Base.{
  ℕ, ◌≤◌, ◌≡◌, refl, String, Option, none, some, List, [], ◌∷◌, true, ◌==◌, if◌then◌else◌, arith,
  Option-cases, Bool-cases, inl, inr,
}
use c3x_pricing_api.Db.Runs.{Run, Status, running, success, failed, is_success}
use c3x_pricing_api.Server.Status.{
  VendorStatus, never, scraping, failing, empty, stale, ready, vendor_status, is_old, latest,
  handle_status,
}

-- The state of a vendor whose last run this is.
abbrev pub status_of_run : ℕ → Option ℕ → ℕ → Status → VendorStatus
status_of_run now finished_at products running = scraping
status_of_run now finished_at products failed = failing
status_of_run now finished_at products success =
    if products == 0 then empty else if is_old now finished_at then stale else ready

abbrev pub status_of : ℕ → Option Run → VendorStatus
status_of now none = never
status_of now (some r) = status_of_run now r.finished_at r.products r.status

latest-none :
    (vendor : String) (runs : List Run)
    → latest (λ r. true) vendor runs ≡ none
    → latest (λ r. is_success r.status) vendor runs ≡ none
unfolding latest
latest-none vendor [] h = refl
latest-none vendor (r ∷ runs) h = elim (Option-cases (latest (λ r. true) vendor runs)) [
  | inl e ↦ ground (arith, latest-none vendor runs e, e, h)
  | inr (best, e) ↦ absurd (ground (arith, e, h))
]

latest-le :
    (vendor : String) (runs : List Run) (r best : Run)
    → latest (λ r. true) vendor runs ≡ some best
    → latest (λ r. is_success r.status) vendor runs ≡ some r
    → r.id ≤ best.id
unfolding latest
latest-le vendor [] r best h s = absurd (ground arith)
latest-le vendor (q ∷ runs) r best h s = elim (Option-cases (latest (λ r. true) vendor runs)) [
  | inl e ↦ ground (arith, latest-none vendor runs e, e, h, s)
  | inr (b, e) ↦ elim (Option-cases (latest (λ r. is_success r.status) vendor runs)) [
    | inl none' ↦ ground (arith, e, none', h, s)
    | inr (c, f) ↦ ground (arith, latest-le vendor runs c b e f, e, f, h, s)
  ]
]

latest-success :
    (vendor : String) (runs : List Run) (r : Run)
    → latest (λ r. true) vendor runs ≡ some r
    → is_success r.status ≡ true
    → latest (λ r. is_success r.status) vendor runs ≡ some r
unfolding latest
latest-success vendor [] r h s = absurd (ground arith)
latest-success vendor (q ∷ runs) r h s = elim (Option-cases (latest (λ r. true) vendor runs)) [
  | inl e ↦ ground (arith, latest-none vendor runs e, e, h, s)
  | inr (b, e) ↦ elim (Option-cases (latest (λ r. is_success r.status) vendor runs)) [
    | inl none' ↦ ground (arith, latest-success vendor runs b e, e, none', h, s)
    | inr (c, f) ↦
        ground (arith, latest-success vendor runs b e, latest-le vendor runs c b e f, e, f, h, s)
  ]
]

-- If both queries succeed, /status reports a vendor by its latest run alone: `never` with no run,
-- by the run's state if it is running or failed, and else `empty` if it ingested nothing, `stale`
-- if it finished more than 48 hours ago, and `ready`. An older success never hides a newer failure.
pub handle_status-latest :
    (now : ℕ) (vendor : String) (runs : List Run)
    → handle_status true true now vendor runs ≡ status_of now (latest (λ r. true) vendor runs)
unfolding handle_status vendor_status
handle_status-latest now vendor runs = elim (Option-cases (latest (λ r. true) vendor runs)) [
  | inl e ↦ ground (arith, latest-none vendor runs e, e)
  | inr (r, e) ↦ elim (Bool-cases (is_success r.status)) [
    | inl s ↦ ground (arith, latest-success vendor runs r e s, e, s)
    | inr s ↦ ground (arith, e, s)
  ]
]
