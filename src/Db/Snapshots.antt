-- ===== src/Db/Snapshots.antt =====
-- internal/db/queries.go: `RecordPriceSnapshots`. The encoding of prices as JSON is a parameter, and
-- whether a statement succeeds is an input.
pub mod Prefix
mod Tests
use c3x_pricing_api.Base.{
  ℕ, zero, suc, ◌+◌, String, Option, none, some, List, [], ◌∷◌, ◌++◌, Bool, if◌then◌else◌, length,
  take, drop,
}
use c3x_pricing_api.Base.Int.{ℤ, pos, leb_ℤ}
use c3x_pricing_api.Db.Types.{Product, Price}

pub record Snapshot : Type 0 where
  pub product_hash : String
  pub prices : String
  pub scrape_run_id : ℤ

abbrev pub snapshot_batch_size : ℕ
snapshot_batch_size = 1000

abbrev pub snapshot_cols : ℕ
snapshot_cols = 3

-- Prices that cannot be encoded get no row.
unfoldable pub add_row : ℤ → Product → Option String → List Snapshot → List Snapshot
add_row run p none rows = rows
add_row run p (some json) rows =
    record { product_hash = p.product_hash; prices = json; scrape_run_id = run } ∷ rows

-- The rows of one statement.
unfoldable pub snapshots : (List Price → Option String) → ℤ → List Product → List Snapshot
unfolding add_row
snapshots marshal run [] = []
snapshots marshal run (p ∷ ps) = add_row run p (marshal p.prices) (snapshots marshal run ps)

pub data Recorded : Type 0 where
  recorded broken : List Snapshot → Recorded

-- The statement of a batch, before the rest of the loop; none is sent without rows.
unfoldable pub send_rows : Bool → Recorded → List Snapshot → List Snapshot → Recorded
send_rows exec rest table [] = rest
send_rows exec rest table (row ∷ rows) = if exec then rest else broken table

-- The batch at `i` and those after it.
unfoldable pub record_batches :
    (List Price → Option String) → (ℕ → Bool) → ℤ → ℕ → ℕ → List Product → List Snapshot → Recorded
unfolding snapshots send_rows
record_batches marshal exec run zero i ps table = recorded table
record_batches marshal exec run (suc rounds) i [] table = recorded table
record_batches marshal exec run (suc rounds) i (p ∷ ps) table =
    let rows = snapshots marshal run (take snapshot_batch_size (p ∷ ps)) in
    let rest =
      record_batches marshal exec run rounds (i + 1) (drop snapshot_batch_size (p ∷ ps))
        (table ++ rows) in
    send_rows (exec i) rest table rows

unfoldable pub record_price_snapshots :
    (List Price → Option String) → (ℕ → Bool) → List Product → ℤ → List Snapshot → Recorded
unfolding record_batches
record_price_snapshots marshal exec products run table =
    if leb_ℤ run (pos 0)
    then recorded table
    else record_batches marshal exec run (length products) 0 products table
