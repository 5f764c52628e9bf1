-- ===== src/Db/Store.antt =====
-- The tables that internal/db writes, and its SQL statements as functions on them: `upsertBatch`,
-- `UpsertProducts`, `MarkSeen`, `ClearSeen`, `DeleteStaleProducts`, and those on scrape_runs. A
-- statement sees the time `now` of its own transaction.
pub mod Rows
pub mod Batches
pub mod Presence
pub mod Slices
pub mod Outcome
use c3x_pricing_api.Base.{
  ℕ, zero, suc, ◌+◌, ◌*◌, ◌/◌, String, Option, none, some, List, [], ◌∷◌, ◌++◌, Bool, true, false,
  not, ◌&&◌, ◌||◌, ltb, leb, ◌==◌, str_eq, if◌then◌else◌, length, take, drop, keep, any,
}
use c3x_pricing_api.Db.Types.{Product, Price}

pub record Row : Type 0 where
  pub product : Product
  pub updated_at : ℕ

-- scrape_seen; its rows are pairs, and a pair is there once or not at all.
pub record Seen : Type 0 where
  pub run_id : ℕ
  pub product_hash : String

abbrev attributes_eq : List (String × String) → List (String × String) → Bool
attributes_eq [] [] = true
attributes_eq ((k, v) ∷ a) ((l, w) ∷ b) = (str_eq k l && str_eq v w) && attributes_eq a b
attributes_eq _ _ = false

price_eq : Price → Price → Bool
price_eq p q =
    str_eq p.price_hash q.price_hash
    && str_eq p.purchase_option q.purchase_option
    && str_eq p.unit q.unit
    && str_eq p.usd q.usd
    && str_eq p.start_usage_amount q.start_usage_amount
    && str_eq p.end_usage_amount q.end_usage_amount
    && str_eq p.description q.description
    && str_eq p.term_length q.term_length
    && str_eq p.term_purchase_option q.term_purchase_option
    && str_eq p.term_offering_class q.term_offering_class

prices_eq : List Price → List Price → Bool
prices_eq [] [] = true
prices_eq (p ∷ ps) (q ∷ qs) = price_eq p q && prices_eq ps qs
prices_eq _ _ = false

-- Not IS DISTINCT FROM, in prices, attributes and sku: `upsertChangedOnly` skips the row.
unfoldable pub unchanged : Product → Product → Bool
unfolding prices_eq price_eq
unchanged p q =
    prices_eq p.prices q.prices && attributes_eq p.attributes q.attributes && str_eq p.sku q.sku

-- DO UPDATE SET writes these columns and no others.
unfoldable pub overwrite : ℕ → Row → Product → Row
unfolding unchanged
overwrite now r p = if unchanged r.product p then r else record {
  product = record r.product { sku = p.sku; attributes = p.attributes; prices = p.prices };
  updated_at = now;
}

-- INSERT ... ON CONFLICT (product_hash) DO UPDATE, for one row of VALUES.
unfoldable pub upsert_row : ℕ → Product → List Row → List Row
unfolding overwrite
upsert_row now p [] = record { product = p; updated_at = now } ∷ []
upsert_row now p (r ∷ rows) =
    if str_eq r.product.product_hash p.product_hash
    then overwrite now r p ∷ rows
    else r ∷ upsert_row now p rows

unfoldable pub upsert_rows : ℕ → List Product → List Row → List Row
upsert_rows now [] rows = rows
upsert_rows now (p ∷ ps) rows = upsert_rows now ps (upsert_row now p rows)

unfoldable pub contains_hash : String → List String → Bool
contains_hash k [] = false
contains_hash k (j ∷ js) = str_eq j k || contains_hash k js

-- The first product of each hash.
unfoldable pub dedupe : List String → List Product → List Product
dedupe seen [] = []
dedupe seen (p ∷ ps) = elim (contains_hash p.product_hash seen) [
  | true ↦ dedupe seen ps
  | false ↦ p ∷ dedupe (p.product_hash ∷ seen) ps
]

abbrev pub max_postgres_params : ℕ
max_postgres_params = 65535

abbrev pub cols_per_row : ℕ
cols_per_row = 8

abbrev pub max_batch_size : ℕ
max_batch_size = max_postgres_params / cols_per_row

abbrev pub batch_size : ℕ
batch_size = 1000

pub data Written : Type 0 where
  ok : List Row → Written
  failed : List Row → Written

-- `exec` tells whether the statement succeeds; a failed statement writes nothing.
unfoldable pub upsert_batch : Bool → ℕ → List Product → List Row → Written
unfolding upsert_rows
upsert_batch exec now [] rows = ok rows
upsert_batch exec now (p ∷ ps) rows =
    let deduped = dedupe [] (p ∷ ps) in
    if ltb max_batch_size (length deduped)
    then failed rows
    else if exec
    then ok (upsert_rows now deduped rows)
    else failed rows

-- products[i:end], for i = 0, 1000, ...; a slice a round.
unfoldable pub batches : ℕ → List Product → List (List Product)
batches zero ps = []
batches (suc rounds) [] = []
batches (suc rounds) (p ∷ ps) = take batch_size (p ∷ ps) ∷ batches rounds (drop batch_size (p ∷ ps))

-- Each statement has a time of its own. A failed batch ends the loop; the batches before it stay written.
unfoldable pub upsert_batches : (ℕ → Bool) → (ℕ → ℕ) → ℕ → List (List Product) → List Row → Written
upsert_batches exec now i [] rows = ok rows
upsert_batches exec now i (batch ∷ more) rows = elim (upsert_batch (exec i) (now i) batch rows) [
  | ok rows' ↦ upsert_batches exec now (i + 1) more rows'
  | failed rows' ↦ failed rows'
]

unfoldable pub upsert_products : (ℕ → Bool) → (ℕ → ℕ) → List Product → List Row → Written
unfolding upsert_batches batches
upsert_products exec now products rows =
    upsert_batches exec now 0 (batches (length products) products) rows

unfoldable pub is_seen : ℕ → String → List Seen → Bool
is_seen run hash [] = false
is_seen run hash (s ∷ seen) =
    (s.run_id == run && str_eq s.product_hash hash) || is_seen run hash seen

-- INSERT ... ON CONFLICT DO NOTHING; there is no work for run 0 or an empty list.
unfoldable pub mark_rows : ℕ → List Product → List Seen → List Seen
mark_rows run [] seen = seen
mark_rows run (p ∷ ps) seen = mark_rows run ps (
    if is_seen run p.product_hash seen
    then seen
    else record { run_id = run; product_hash = p.product_hash } ∷ seen)

unfoldable pub mark_seen : ℕ → List Product → List Seen → List Seen
mark_seen run products seen = if run == 0 then seen else mark_rows run products seen

unfoldable pub is_stale : String → ℕ → ℕ → List Seen → Row → Bool
is_stale vendor run before seen r =
    str_eq r.product.vendor_name vendor
    && ltb r.updated_at before
    && not (is_seen run r.product.product_hash seen)

-- The rows that DELETE leaves.
unfoldable pub delete_stale_products : String → ℕ → ℕ → List Seen → List Row → List Row
delete_stale_products vendor run before seen = keep (λ r. not (is_stale vendor run before seen r))
