-- ===== src/Db/Store/Batches.antt =====
-- The batches of `UpsertProducts`, and what the loop over them writes.
use mathlib.Core.List.{flatten}
use c3x_pricing_api.Base.{
  ℕ, zero, suc, ◌+◌, ◌*◌, ◌≤◌, ◌≡◌, refl, ap, ◌∙◌, String, Option, List, [], ◌∷◌, ◌++◌, Bool, true,
  arith, length, length-take, length-drop, take, drop, take-append-drop, All,
}
use c3x_pricing_api.Db.Types.{Product}
use c3x_pricing_api.Db.Store.{
  Row, ok, dedupe, upsert_batch, batches, batch_size, max_postgres_params, cols_per_row,
  upsert_batches, upsert_products, upsert_rows,
}
use c3x_pricing_api.Db.Store.Rows.{
  find, first_with, overwritten, length-dedupe-le, upsert_batch-find,
}

-- As many rounds as products are enough, and every product is in one batch, in order.
pub batches-cover :
    (rounds : ℕ) (ps : List Product) → length ps ≤ rounds → flatten (batches rounds ps) ≡ ps
unfolding batches flatten
batches-cover zero [] h = refl
batches-cover zero (p ∷ ps) h = absurd (omega arith)
batches-cover (suc rounds) [] h = refl
batches-cover (suc rounds) (p ∷ ps) h =
    let rest = drop batch_size (p ∷ ps) in
    let shorter : length rest ≤ rounds = omega (arith, length-drop batch_size (p ∷ ps)) in
    ap (λ more. take batch_size (p ∷ ps) ++ more) (batches-cover rounds rest shorter)
    ∙ take-append-drop batch_size (p ∷ ps)

abbrev pub Fits : List Product → Type 0
Fits batch = length batch ≤ batch_size

batches-fit : (rounds : ℕ) (ps : List Product) → All Fits (batches rounds ps)
unfolding batches
batches-fit zero ps = tt
batches-fit (suc rounds) [] = tt
batches-fit (suc rounds) (p ∷ ps) =
    (omega (arith, length-take batch_size (p ∷ ps)), batches-fit rounds (drop batch_size (p ∷ ps)))

-- `UpsertProducts` splits the products, in order and with none lost, into batches of which each
-- statement stays within PostgreSQL's limit on parameters.
pub batches_lem :
    (ps : List Product)
    → (flatten (batches (length ps) ps) ≡ ps)
      × All
          (λ batch. length (dedupe [] batch) * cols_per_row ≤ max_postgres_params)
          (batches (length ps) ps)
batches_lem ps =
    (batches-cover (length ps) ps (omega arith), small (batches (length ps) ps) (batches-fit _ ps))
  where
    small :
        (bs : List (List Product))
        → All Fits bs
        → All (λ batch. length (dedupe [] batch) * cols_per_row ≤ max_postgres_params) bs
    small [] h = tt
    small (b ∷ bs) (h, hs) = (omega (arith, length-dedupe-le [] b), small bs hs)

-- What the batches leave under a hash: in each batch the first product with it counts, and a later
-- batch overwrites an earlier one.
unfoldable pub writes : (ℕ → ℕ) → ℕ → String → List (List Product) → Option Row → Option Row
writes now i k [] found = found
writes now i k (batch ∷ more) found =
    writes now (i + 1) k more (overwritten (now i) (first_with k batch) found)

upsert_batch-Fits :
    (now : ℕ) (batch : List Product) (rows : List Row)
    → Fits batch
    → (rows' : List Row) × (upsert_batch true now batch rows ≡ ok rows')
unfolding upsert_batch
upsert_batch-Fits now [] rows h = (rows, refl)
upsert_batch-Fits now (p ∷ ps) rows h =
    (upsert_rows now (dedupe [] (p ∷ ps)) rows, ground (arith, length-dedupe-le [] (p ∷ ps)))

upsert_batches-writes :
    (exec : ℕ → Bool) (now : ℕ → ℕ) (i : ℕ) (bs : List (List Product)) (rows : List Row)
    → ((j : ℕ) → exec j ≡ true)
    → All Fits bs
    → (rows' : List Row) × (upsert_batches exec now i bs rows ≡ ok rows')
      × ((k : String) → find k rows' ≡ writes now i k bs (find k rows))
unfolding upsert_batches writes
upsert_batches-writes exec now i [] rows h fit = (rows, refl, λ k. refl)
upsert_batches-writes exec now i (b ∷ bs) rows h (fit, fits) =
    let (rows₁, done) = upsert_batch-Fits (now i) b rows fit in
    let (rows₂, rest, found) = upsert_batches-writes exec now (i + 1) bs rows₁ h fits in
    (
      rows₂,
      ground (arith, h i, done, rest),
      λ k. found k ∙ ap (writes now (i + 1) k bs) (upsert_batch-find (now i) b rows rows₁ k done),
    )

-- If every statement succeeds, so does `UpsertProducts`, and its batches are written in order.
pub upsert_products-writes :
    (exec : ℕ → Bool) (now : ℕ → ℕ) (ps : List Product) (rows : List Row)
    → ((i : ℕ) → exec i ≡ true)
    → (rows' : List Row) × (upsert_products exec now ps rows ≡ ok rows')
      × ((k : String) → find k rows' ≡ writes now 0 k (batches (length ps) ps) (find k rows))
unfolding upsert_products
upsert_products-writes exec now ps rows h =
    upsert_batches-writes exec now 0 (batches (length ps) ps) rows h (batches-fit (length ps) ps)
