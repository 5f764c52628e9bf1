-- ===== src/Db/Snapshots/Prefix.antt =====
-- What `RecordPriceSnapshots` writes, if its statements succeed and if one fails.
use c3x_pricing_api.Base.{String, Option, List}
use c3x_pricing_api.Base.Int.{ℤ}
use c3x_pricing_api.Db.Types.{Product, Price}
use c3x_pricing_api.Db.Snapshots.{Snapshot, snapshots}

module _ (marshal : List Price → Option String) (run : ℤ) where
  abbrev rows_of : List Product → List Snapshot
  rows_of = snapshots marshal run
