-- ===== src/Scrape/Retention.antt =====
-- cmd/server/main.go: `scrapeRunRetention`. A Duration is an int64 of nanoseconds, and its products
-- wrap around.
use Prim.Native.Nat.{◌-◌}
use c3x_pricing_api.Base.{ℕ, ◌*◌, ◌%◌, ◌^◌, String, none, some, ltb, if◌then◌else◌, is_empty}
use c3x_pricing_api.Base.Int.{ℤ, pos, negsuc}
use c3x_pricing_api.Base.Strconv.{parse_int}

-- The int64 with the low 64 bits of a number.
unfoldable pub int64 : ℕ → ℤ
int64 n = let low = n % 2 ^ 64 in if ltb low (2 ^ 63) then pos low else negsuc (2 ^ 64 - low - 1)

-- The value of SCRAPE_RUNS_RETENTION_DAYS, if it is a number of days.
unfoldable pub retention_days : String → ℕ
retention_days v =
    if is_empty v
    then 30
    else elim (parse_int v) [ none ↦ 30 | some (pos n) ↦ n | some (negsuc n) ↦ 30 ]

unfoldable pub scrape_run_retention : String → ℤ
unfolding int64 retention_days
scrape_run_retention v = int64 (retention_days v * 24 * (3600 * 10 ^ 9))
