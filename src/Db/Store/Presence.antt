-- ===== src/Db/Store/Presence.antt =====
-- Which hashes the products table and the seen-set hold, and that writing keeps them.
use mathlib.Core.List.{flatten}
use c3x_pricing_api.Base.{
  ℕ, ◌+◌, ◌≡◌, ◌⊎◌, refl, subst, String, List, [], ◌∷◌, ◌++◌, Bool, true, arith, length, is_some,
  str_eq, eq_iff, eq_refl, Bool-cases, inl, inr,
}
use c3x_pricing_api.Db.Types.{Product}
use c3x_pricing_api.Db.Store.{
  Row, Seen, Written, ok, failed, upsert_row, upsert_rows, upsert_batch, batches, dedupe,
  upsert_batches, upsert_products, is_seen, mark_rows, is_stale, delete_stale_products,
  contains_hash,
}
use c3x_pricing_api.Db.Store.Rows.{find, first_with, find-upsert_row, first_with-dedupe}
use c3x_pricing_api.Db.Store.Batches.{batches_lem}

abbrev pub Holds : String → List Row → Type 0
Holds k rows = is_some (find k rows) ≡ true

abbrev pub rows_of : Written → List Row
rows_of (ok rows) = rows
rows_of (failed rows) = rows

upsert_row-Holds :
    (now : ℕ) (p : Product) (k : String) (rows : List Row)
    → Holds k rows
    → Holds k (upsert_row now p rows)
upsert_row-Holds now p k rows h = rw (find-upsert_row now p k rows) (ground arith)

upsert_row-Holds_self :
    (now : ℕ) (p : Product) (rows : List Row) → Holds p.product_hash (upsert_row now p rows)
upsert_row-Holds_self now p rows =
    rw (find-upsert_row now p p.product_hash rows) (rw (eq_refl p.product_hash))

upsert_rows-Holds :
    (now : ℕ) (ps : List Product) (k : String) (rows : List Row)
    → Holds k rows
    → Holds k (upsert_rows now ps rows)
unfolding upsert_rows
upsert_rows-Holds now [] k rows h = h
upsert_rows-Holds now (p ∷ ps) k rows h =
    upsert_rows-Holds now ps k _ (upsert_row-Holds now p k rows h)

upsert_rows-Holds_first :
    (now : ℕ) (ps : List Product) (k : String) (rows : List Row)
    → is_some (first_with k ps) ≡ true
    → Holds k (upsert_rows now ps rows)
unfolding upsert_rows first_with
upsert_rows-Holds_first now [] k rows h = cc
upsert_rows-Holds_first now (p ∷ ps) k rows h = elim (Bool-cases (str_eq p.product_hash k)) [
  | inl here ↦
      let same : p.product_hash ≡ k = (eq_iff _ _).0 here in
      upsert_rows-Holds now ps k _
        (subst (λ j. Holds j (upsert_row now p rows)) same (upsert_row-Holds_self now p rows))
  | inr there ↦ upsert_rows-Holds_first now ps k _ (rw there at h)
]

upsert_batch-Holds :
    (exec : Bool) (now : ℕ) (ps : List Product) (k : String) (rows : List Row)
    → Holds k rows
    → Holds k (rows_of (upsert_batch exec now ps rows))
unfolding upsert_batch
upsert_batch-Holds exec now [] k rows h = h
upsert_batch-Holds exec now (p ∷ ps) k rows h =
    ground (arith, upsert_rows-Holds now (dedupe [] (p ∷ ps)) k rows h)

upsert_batch-Holds_first :
    (exec : Bool) (now : ℕ) (ps : List Product) (k : String) (rows rows' : List Row)
    → upsert_batch exec now ps rows ≡ ok rows'
    → is_some (first_with k ps) ≡ true
    → Holds k rows'
unfolding upsert_batch first_with contains_hash
upsert_batch-Holds_first exec now [] k rows rows' e h = cc
upsert_batch-Holds_first exec now (p ∷ ps) k rows rows' e h = ground (
  arith,
  upsert_rows-Holds_first now (dedupe [] (p ∷ ps)) k rows,
  first_with-dedupe [] k (p ∷ ps),
)

continue_lem :
    (exec : ℕ → Bool) (now : ℕ → ℕ) (i : ℕ) (b : List Product) (bs : List (List Product))
    (k : String) (rows : List Row)
    → Holds k (rows_of (upsert_batch (exec i) (now i) b rows))
    → ((rows' : List Row)
        → Holds k rows'
        → Holds k (rows_of (upsert_batches exec now (i + 1) bs rows')))
    → Holds k (rows_of (upsert_batches exec now i (b ∷ bs) rows))
unfolding upsert_batches
continue_lem exec now i b bs k rows = go (upsert_batch (exec i) (now i) b rows)
  where
    go :
        (w : Written)
        → Holds k (rows_of w)
        → ((rows' : List Row)
            → Holds k rows'
            → Holds k (rows_of (upsert_batches exec now (i + 1) bs rows')))
        → Holds k (
            rows_of (elim w [
              | ok rows' ↦ upsert_batches exec now (i + 1) bs rows'
              | failed rows' ↦ failed rows'
            ]))
    go (ok rows') h ih = ih rows' h
    go (failed rows') h ih = h

upsert_batches-Holds :
    (exec : ℕ → Bool) (now : ℕ → ℕ) (i : ℕ) (bs : List (List Product)) (k : String)
    (rows : List Row)
    → Holds k rows
    → Holds k (rows_of (upsert_batches exec now i bs rows))
unfolding upsert_batches
upsert_batches-Holds exec now i [] k rows h = h
upsert_batches-Holds exec now i (b ∷ bs) k rows h =
    continue_lem exec now i b bs k rows (upsert_batch-Holds (exec i) (now i) b k rows h)
      (upsert_batches-Holds exec now (i + 1) bs k)

upsert_batches-ok :
    (exec : ℕ → Bool) (now : ℕ → ℕ) (i : ℕ) (b : List Product) (bs : List (List Product))
    (rows rows' : List Row)
    → upsert_batches exec now i (b ∷ bs) rows ≡ ok rows'
    → (mid : List Row) × (upsert_batch (exec i) (now i) b rows ≡ ok mid)
      × (upsert_batches exec now (i + 1) bs mid ≡ ok rows')
unfolding upsert_batches
upsert_batches-ok exec now i b bs rows rows' = go (upsert_batch (exec i) (now i) b rows)
  where
    go :
        (w : Written)
        → elim w [ ok mid ↦ upsert_batches exec now (i + 1) bs mid | failed mid ↦ failed mid ]
          ≡ ok rows'
        → (mid : List Row) × (w ≡ ok mid) × (upsert_batches exec now (i + 1) bs mid ≡ ok rows')
    go (ok mid) e = (mid, refl, e)
    go (failed mid) e = cc

first_with-append :
    (k : String) (ps qs : List Product)
    → is_some (first_with k (ps ++ qs)) ≡ true
    → (is_some (first_with k ps) ≡ true) ⊎ (is_some (first_with k qs) ≡ true)
unfolding first_with
first_with-append k [] qs h = inr h
first_with-append k (p ∷ ps) qs h = ground (arith, first_with-append k ps qs)

upsert_batches-Holds_first :
    (exec : ℕ → Bool) (now : ℕ → ℕ) (i : ℕ) (bs : List (List Product)) (k : String)
    (rows rows' : List Row)
    → upsert_batches exec now i bs rows ≡ ok rows'
    → is_some (first_with k (flatten bs)) ≡ true
    → Holds k rows'
unfolding first_with flatten
upsert_batches-Holds_first exec now i [] k rows rows' e h = cc
upsert_batches-Holds_first exec now i (b ∷ bs) k rows rows' e h =
    let (mid, first, rest) = upsert_batches-ok exec now i b bs rows rows' e in
    elim (first_with-append k b (flatten bs) h) [
      | inl here ↦
          let kept =
            upsert_batches-Holds exec now (i + 1) bs k mid
              (upsert_batch-Holds_first (exec i) (now i) b k rows mid first here) in
          subst (λ w. Holds k (rows_of w)) rest kept
      | inr there ↦ upsert_batches-Holds_first exec now (i + 1) bs k mid rows' rest there
    ]

-- A hash that is stored stays stored, whether or not the statements succeed.
pub upsert_products-Holds :
    (exec : ℕ → Bool) (now : ℕ → ℕ) (ps : List Product) (k : String) (rows : List Row)
    → Holds k rows
    → Holds k (rows_of (upsert_products exec now ps rows))
unfolding upsert_products
upsert_products-Holds exec now ps k rows h =
    upsert_batches-Holds exec now 0 (batches (length ps) ps) k rows h

pub upsert_products-Holds_first :
    (exec : ℕ → Bool) (now : ℕ → ℕ) (ps : List Product) (k : String) (rows rows' : List Row)
    → upsert_products exec now ps rows ≡ ok rows'
    → is_some (first_with k ps) ≡ true
    → Holds k rows'
unfolding upsert_products
upsert_products-Holds_first exec now ps k rows rows' e h =
    upsert_batches-Holds_first exec now 0 (batches (length ps) ps) k rows rows' e
      (rw ((batches_lem ps).0) h)

-- What the seen-set knows.
abbrev pub IsSeen : ℕ → String → List Seen → Type 0
IsSeen run k seen = is_seen run k seen ≡ true

pub mark_rows-IsSeen :
    (run : ℕ) (ps : List Product) (j : ℕ) (k : String) (seen : List Seen)
    → IsSeen j k seen
    → IsSeen j k (mark_rows run ps seen)
unfolding mark_rows is_seen
mark_rows-IsSeen run [] j k seen h = h
mark_rows-IsSeen run (p ∷ ps) j k seen h = mark_rows-IsSeen run ps j k _ (ground arith)

pub mark_rows-IsSeen_first :
    (run : ℕ) (ps : List Product) (k : String) (seen : List Seen)
    → is_some (first_with k ps) ≡ true
    → IsSeen run k (mark_rows run ps seen)
unfolding mark_rows is_seen first_with
mark_rows-IsSeen_first run [] k seen h = cc
mark_rows-IsSeen_first run (p ∷ ps) k seen h = elim (Bool-cases (str_eq p.product_hash k)) [
  | inl here ↦
      let same : p.product_hash ≡ k = (eq_iff _ _).0 here in
      mark_rows-IsSeen run ps run k _ (ground (arith, same, eq_refl k))
  | inr there ↦ mark_rows-IsSeen_first run ps k _ (rw there at h)
]

-- A seen row survives the cleanup of its run.
pub delete_stale_products-Holds :
    (vendor : String) (run before : ℕ) (seen : List Seen) (k : String) (rows : List Row)
    → IsSeen run k seen
    → Holds k rows
    → Holds k (delete_stale_products vendor run before seen rows)
unfolding delete_stale_products is_stale find
delete_stale_products-Holds vendor run before seen k [] s h = h
delete_stale_products-Holds vendor run before seen k (r ∷ rows) s h = ground (
  arith,
  delete_stale_products-Holds vendor run before seen k rows s,
  eq_iff r.product.product_hash k,
)
