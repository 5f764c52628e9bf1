-- ===== src/Db/Store/Rows.antt =====
-- The products table as a map from hashes to rows.
use c3x_pricing_api.Base.{
  ℕ, ◌≤◌, ◌≡◌, refl, ap, ◌∙◌, String, Option, none, some, List, [], ◌∷◌, true, false, arith, str_eq,
  if◌then◌else◌, eq_iff, eq_refl, length, Bool-cases, inl, inr,
}
use c3x_pricing_api.Db.Types.{Product}
use c3x_pricing_api.Db.Store.{
  Row, ok, overwrite, upsert_row, upsert_rows, dedupe, contains_hash, upsert_batch,
}

unfoldable pub find : String → List Row → Option Row
find k [] = none
find k (r ∷ rows) = if str_eq r.product.product_hash k then some r else find k rows

-- The row that an upsert leaves under the hash of the product.
abbrev pub written : ℕ → Product → Option Row → Row
written now p none = record { product = p; updated_at = now }
written now p (some r) = overwrite now r p

pub overwrite-product_hash :
    (now : ℕ) (r : Row) (p : Product)
    → (overwrite now r p).product.product_hash ≡ r.product.product_hash
unfolding overwrite
overwrite-product_hash now r p = ground arith

pub find-upsert_row :
    (now : ℕ) (p : Product) (k : String) (rows : List Row)
    → find k (upsert_row now p rows)
      ≡ (if str_eq p.product_hash k then some (written now p (find k rows)) else find k rows)
unfolding find upsert_row
find-upsert_row now p k [] = refl
find-upsert_row now p k (r ∷ rows) =
    elim (Bool-cases (str_eq r.product.product_hash p.product_hash)) [
      | inl same ↦
          let hashes : r.product.product_hash ≡ p.product_hash = (eq_iff _ _).0 same in
          rw same (ground (arith, hashes, overwrite-product_hash now r p))
      | inr other ↦ rw other (
          ground (
            arith,
            find-upsert_row now p k rows,
            eq_iff r.product.product_hash k,
            eq_iff p.product_hash k,
            eq_iff r.product.product_hash p.product_hash,
          ))
    ]

-- The first product with a hash.
unfoldable pub first_with : String → List Product → Option Product
first_with k [] = none
first_with k (p ∷ ps) = if str_eq p.product_hash k then some p else first_with k ps

abbrev pub overwritten : ℕ → Option Product → Option Row → Option Row
overwritten now none found = found
overwritten now (some p) found = some (written now p found)

dedupe_nil : (seen : List String) → dedupe seen [] ≡ []
unfolding dedupe
dedupe_nil seen = refl

dedupe_known :
    (seen : List String) (p : Product) (ps : List Product)
    → contains_hash p.product_hash seen ≡ true
    → dedupe seen (p ∷ ps) ≡ dedupe seen ps
unfolding dedupe
dedupe_known seen p ps e = ground arith

dedupe_fresh :
    (seen : List String) (p : Product) (ps : List Product)
    → contains_hash p.product_hash seen ≡ false
    → dedupe seen (p ∷ ps) ≡ p ∷ dedupe (p.product_hash ∷ seen) ps
unfolding dedupe
dedupe_fresh seen p ps e = ground arith

pub first_with-dedupe :
    (seen : List String) (k : String) (ps : List Product)
    → first_with k (dedupe seen ps) ≡ (if contains_hash k seen then none else first_with k ps)
unfolding first_with contains_hash
first_with-dedupe seen k [] = ap (first_with k) (dedupe_nil seen) ∙ ground arith
first_with-dedupe seen k (p ∷ ps) =
    let h = p.product_hash in
    elim (Bool-cases (contains_hash h seen)) [
      | inl known ↦
          rw (dedupe_known seen p ps known)
            (ground (arith, first_with-dedupe seen k ps, eq_iff h k, known))
      | inr fresh ↦
          rw (dedupe_fresh seen p ps fresh)
            (ground (arith, first_with-dedupe (h ∷ seen) k ps, eq_iff h k, fresh))
    ]

-- No two products have the same hash.
abbrev pub HaveDistinctHashes : List Product → Type 0
HaveDistinctHashes [] = Unit
HaveDistinctHashes (p ∷ ps) = (first_with p.product_hash ps ≡ none) × HaveDistinctHashes ps

pub dedupe-HaveDistinctHashes :
    (seen : List String) (ps : List Product) → HaveDistinctHashes (dedupe seen ps)
unfolding contains_hash
dedupe-HaveDistinctHashes seen [] = rw (dedupe_nil seen) tt
dedupe-HaveDistinctHashes seen (p ∷ ps) = elim (Bool-cases (contains_hash p.product_hash seen)) [
  | inl known ↦ rw (dedupe_known seen p ps known) (dedupe-HaveDistinctHashes seen ps)
  | inr fresh ↦ rw (dedupe_fresh seen p ps fresh) (
    first_with-dedupe (p.product_hash ∷ seen) p.product_hash ps ∙ rw eq_refl refl,
    dedupe-HaveDistinctHashes (p.product_hash ∷ seen) ps,
  )
]

pub find-upsert_rows :
    (now : ℕ) (k : String) (ps : List Product) (rows : List Row)
    → HaveDistinctHashes ps
    → find k (upsert_rows now ps rows) ≡ overwritten now (first_with k ps) (find k rows)
unfolding upsert_rows first_with
find-upsert_rows now k [] rows d = refl
find-upsert_rows now k (p ∷ ps) rows (fresh, d) = ground (
  arith,
  find-upsert_rows now k ps (upsert_row now p rows) d,
  find-upsert_row now p k rows,
  eq_iff p.product_hash k,
  fresh,
)

pub length-dedupe-le :
    (seen : List String) (ps : List Product) → length (dedupe seen ps) ≤ length ps
unfolding dedupe
length-dedupe-le seen [] = omega arith
length-dedupe-le seen (p ∷ ps) =
    ground (arith, length-dedupe-le seen ps, length-dedupe-le (p.product_hash ∷ seen) ps)

-- One statement writes, for each hash of the batch, the first product with it, and leaves the
-- other rows alone.
pub upsert_batch-find :
    (now : ℕ) (ps : List Product) (rows rows' : List Row) (k : String)
    → upsert_batch true now ps rows ≡ ok rows'
    → find k rows' ≡ overwritten now (first_with k ps) (find k rows)
unfolding upsert_batch first_with contains_hash
upsert_batch-find now [] rows rows' k e = ground arith
upsert_batch-find now (p ∷ ps) rows rows' k e =
    let deduped = dedupe [] (p ∷ ps) in
    ground (
      arith,
      find-upsert_rows now k deduped rows (dedupe-HaveDistinctHashes [] (p ∷ ps)),
      first_with-dedupe [] k (p ∷ ps),
    )
