-- ===== src/Db/Store/Outcome.antt =====
-- What `UpsertProducts` leaves in the table.
use c3x_pricing_api.Base.{
  ℕ, ◌+◌, ◌≡◌, refl, sym, ap, ◌∙◌, subst, String, Option, none, some, List, [], ◌∷◌, ◌++◌, Bool,
  true, eq_iff, arith, length, All,
}
use c3x_pricing_api.Db.Types.{Product, Price}
use c3x_pricing_api.Db.Store.{
  Row, ok, batches, upsert_products, overwrite, unchanged, prices_eq, price_eq, attributes_eq,
}
use c3x_pricing_api.Db.Store.Rows.{find, first_with, written, overwritten}
use c3x_pricing_api.Db.Store.Slices.{slice, beyond, first_with-quiet, batches-slice}
use c3x_pricing_api.Db.Store.Batches.{writes, batches-cover, upsert_products-writes}

-- The row has the content of the product.
abbrev pub Carries : Product → Row → Type 0
Carries p r =
    (r.product.sku ≡ p.sku) × (r.product.attributes ≡ p.attributes) × (r.product.prices ≡ p.prices)

-- The two rows are of the same product.
abbrev pub SameIdentity : Row → Row → Type 0
SameIdentity q r =
    (r.product.product_hash ≡ q.product.product_hash)
    × (r.product.vendor_name ≡ q.product.vendor_name)
    × (r.product.region ≡ q.product.region)
    × (r.product.service ≡ q.product.service)
    × (r.product.product_family ≡ q.product.product_family)

attributes_eq_sound : (a b : List (String × String)) → attributes_eq a b ≡ true → a ≡ b
attributes_eq_sound [] [] h = refl
attributes_eq_sound [] (q ∷ b) h = cc
attributes_eq_sound (p ∷ a) [] h = cc
attributes_eq_sound ((k, v) ∷ a) ((l, w) ∷ b) h =
    ground (arith, h, eq_iff k l, eq_iff v w, attributes_eq_sound a b)

price_eq_sound : (p q : Price) → price_eq p q ≡ true → p ≡ q
unfolding price_eq
price_eq_sound p q h = ground (
  arith,
  h,
  eq_iff p.price_hash q.price_hash,
  eq_iff p.purchase_option q.purchase_option,
  eq_iff p.unit q.unit,
  eq_iff p.usd q.usd,
  eq_iff p.start_usage_amount q.start_usage_amount,
  eq_iff p.end_usage_amount q.end_usage_amount,
  eq_iff p.description q.description,
  eq_iff p.term_length q.term_length,
  eq_iff p.term_purchase_option q.term_purchase_option,
  eq_iff p.term_offering_class q.term_offering_class,
)

prices_eq_sound : (ps qs : List Price) → prices_eq ps qs ≡ true → ps ≡ qs
unfolding prices_eq
prices_eq_sound [] [] h = refl
prices_eq_sound [] (q ∷ qs) h = cc
prices_eq_sound (p ∷ ps) [] h = cc
prices_eq_sound (p ∷ ps) (q ∷ qs) h = ground (arith, h, price_eq_sound p q, prices_eq_sound ps qs)

overwrite-Carries : (now : ℕ) (r : Row) (p : Product) → Carries p (overwrite now r p)
unfolding overwrite unchanged
overwrite-Carries now r p = ground (
  arith,
  prices_eq_sound r.product.prices p.prices,
  attributes_eq_sound r.product.attributes p.attributes,
  eq_iff r.product.sku p.sku,
)

written-Carries : (now : ℕ) (p : Product) (found : Option Row) → Carries p (written now p found)
written-Carries now p none = (refl, refl, refl)
written-Carries now p (some r) = overwrite-Carries now r p

overwrite-SameIdentity :
    (now : ℕ) (q r : Row) (p : Product) → SameIdentity q r → SameIdentity q (overwrite now r p)
unfolding overwrite
overwrite-SameIdentity now q r p h = ground (arith, h)

abbrev HasSame : Row → Option Row → Type 0
HasSame q found = (r : Row) × (found ≡ some r) × SameIdentity q r

overwritten-HasSame :
    (now : ℕ) (q : Row) (o : Option Product) (found : Option Row)
    → HasSame q found
    → HasSame q (overwritten now o found)
overwritten-HasSame now q none found h = h
overwritten-HasSame now q (some p) found (r, e, same) =
    (overwrite now r p, rw e refl, overwrite-SameIdentity now q r p same)

module _ (now : ℕ → ℕ) (k : String) where
  writes-HasSame :
      (q : Row) (i : ℕ) (bs : List (List Product)) (found : Option Row)
      → HasSame q found
      → HasSame q (writes now i k bs found)
  unfolding writes
  writes-HasSame q i [] found h = h
  writes-HasSame q i (b ∷ bs) found h =
      writes-HasSame q (i + 1) bs _ (overwritten-HasSame (now i) q (first_with k b) found h)

  writes-none :
      (i : ℕ) (bs : List (List Product)) (found : Option Row)
      → All (λ b. first_with k b ≡ none) bs
      → writes now i k bs found ≡ found
  unfolding writes
  writes-none i [] found h = refl
  writes-none i (b ∷ bs) found (h, hs) = rw h (writes-none (i + 1) bs found hs)

  writes-last :
      (i : ℕ) (before : List (List Product)) (b : List Product) (after : List (List Product))
      (p : Product) (found : Option Row)
      → first_with k b ≡ some p
      → All (λ b. first_with k b ≡ none) after
      → (r : Row) × (writes now i k (before ++ b ∷ after) found ≡ some r) × Carries p r
  unfolding writes
  writes-last i [] b after p found h quiet = (
    written (now i) p found,
    ap (λ o. writes now (i + 1) k after (overwritten (now i) o found)) h
        ∙ writes-none (i + 1) after _ quiet,
    written-Carries (now i) p found,
  )
  writes-last i (c ∷ before) b after p found h quiet =
      writes-last (i + 1) before b after p _ h quiet

row_inj : {q r : Row} → some q ≡ some r → q ≡ r
row_inj h = ground (arith, h)

-- If every statement succeeds, so does `UpsertProducts`. A hash of no product is stored as before.
-- Of the products with a hash, the one that counts is the first in the last slice of 1000 that has
-- any: the row has its sku, attributes and prices, and a row that was there before keeps its
-- vendor, region, service and product family.
pub upsert_products-find :
    (exec : ℕ → Bool) (now : ℕ → ℕ) (ps : List Product) (rows : List Row)
    → ((i : ℕ) → exec i ≡ true)
    → (rows' : List Row) × (upsert_products exec now ps rows ≡ ok rows')
      × ((k : String) → first_with k ps ≡ none → find k rows' ≡ find k rows)
      × ((k : String) (n : ℕ) (p : Product)
          → first_with k (slice n ps) ≡ some p
          → first_with k (beyond n ps) ≡ none
          → (r : Row) × (find k rows' ≡ some r)
            × Carries p r
            × ((q : Row) → find k rows ≡ some q → SameIdentity q r))
upsert_products-find exec now ps rows h =
    let (rows', done, found) = upsert_products-writes exec now ps rows h in
    let bs = batches (length ps) ps in
    let covered = batches-cover (length ps) ps (omega arith) in
    (
      rows',
      done,
      (λ k none_of.
          found k
          ∙ writes-none now k 0 bs (find k rows)
              (first_with-quiet k bs (ap (first_with k) covered ∙ none_of))),
      (λ k n p here quiet.
          let (before, left, fits, cut) = batches-slice k p n (length ps) ps (omega arith) here in
          let silent =
            first_with-quiet k (batches left (beyond n ps))
              (ap (first_with k) (batches-cover left (beyond n ps) fits) ∙ quiet) in
          let (r, last, carries) =
            writes-last now k 0 before (slice n ps) (batches left (beyond n ps)) p (find k rows)
              here silent in
          let stored = found k ∙ ap (λ l. writes now 0 k l (find k rows)) cut ∙ last in
          (
            r,
            stored,
            carries,
            (λ q there.
                let (r', e, same) =
                  writes-HasSame now k q 0 bs (find k rows)
                    (q, there, (refl, refl, refl, refl, refl)) in
                subst (SameIdentity q) (row_inj (sym e ∙ sym (found k) ∙ stored)) same),
          )),
    )
