-- ===== src/Db/Store/Slices.antt =====
-- The slices of 1000 products that `UpsertProducts` takes, by their numbers.
use mathlib.Core.List.{flatten}
use c3x_pricing_api.Base.{
  ℕ, zero, suc, ◌+◌, ◌*◌, ◌≤◌, ◌≡◌, refl, sym, ap, ap₂, ◌∙◌, subst, String, none, some, List, [],
  ◌∷◌, ◌++◌, arith, length, length-drop, take, drop, All,
}
use c3x_pricing_api.Db.Types.{Product}
use c3x_pricing_api.Db.Store.{batches, batch_size}
use c3x_pricing_api.Db.Store.Rows.{first_with}

first_with-none :
    (k : String) (ps qs : List Product)
    → first_with k (ps ++ qs) ≡ none
    → (first_with k ps ≡ none) × (first_with k qs ≡ none)
unfolding first_with
first_with-none k [] qs h = (refl, h)
first_with-none k (p ∷ ps) qs h = ground (arith, h, first_with-none k ps qs)

pub first_with-quiet :
    (k : String) (bs : List (List Product))
    → first_with k (flatten bs) ≡ none
    → All (λ b. first_with k b ≡ none) bs
unfolding flatten
first_with-quiet k [] h = tt
first_with-quiet k (b ∷ bs) h =
    let (here, there) = first_with-none k b (flatten bs) h in (here, first_with-quiet k bs there)

drop-nil {ℓ} : {A : Type ℓ} (n : ℕ) → drop {A = A} n [] ≡ []
drop-nil zero = refl
drop-nil (suc n) = refl

drop_add {ℓ} : {A : Type ℓ} (m n : ℕ) (xs : List A) → drop (m + n) xs ≡ drop n (drop m xs)
drop_add zero n xs = ap (λ i. drop i xs) (omega arith)
drop_add (suc m) n [] = drop-nil (suc m + n) ∙ sym (drop-nil n)
drop_add (suc m) n (x ∷ xs) =
    let next : suc m + n ≡ suc (m + n) = omega arith in
    ap (λ i. drop i (x ∷ xs)) next ∙ drop_add m n xs

-- The n-th slice of 1000 products, and those after it.
abbrev pub slice : ℕ → List Product → List Product
slice n ps = take batch_size (drop (n * batch_size) ps)

abbrev pub beyond : ℕ → List Product → List Product
beyond n ps = drop (suc n * batch_size) ps

slice_next : (n : ℕ) (ps : List Product) → slice (suc n) ps ≡ slice n (drop batch_size ps)
slice_next n ps =
    ap (take batch_size)
      (ap (λ i. drop i ps) (omega arith) ∙ drop_add batch_size (n * batch_size) ps)

beyond_next : (n : ℕ) (ps : List Product) → beyond (suc n) ps ≡ beyond n (drop batch_size ps)
beyond_next n ps = ap (λ i. drop i ps) (omega arith) ∙ drop_add batch_size (suc n * batch_size) ps

empty_slice : (k : String) (p : Product) (n : ℕ) → first_with k (slice n []) ≡ some p → ⊥
unfolding first_with
empty_slice k p n e =
    let empty : slice n [] ≡ [] = ap (take batch_size) (drop-nil (n * batch_size)) in
    let none_in : first_with k (slice n []) ≡ none = ap (first_with k) empty in cc

-- A slice that holds a product is a batch, and the batches after it hold the rest.
pub batches-slice :
    (k : String) (p : Product) (n rounds : ℕ) (ps : List Product)
    → length ps ≤ rounds
    → first_with k (slice n ps) ≡ some p
    → (before : List (List Product)) × (left : ℕ) × (length (beyond n ps) ≤ left)
      × (batches rounds ps ≡ before ++ slice n ps ∷ batches left (beyond n ps))
unfolding batches first_with
batches-slice k p n rounds [] h e = absurd (empty_slice k p n e)
batches-slice k p n zero (q ∷ ps) h e = absurd (omega (arith, h))
batches-slice k p zero (suc rounds) (q ∷ ps) h e =
    ([], rounds, omega (arith, length-drop batch_size (q ∷ ps), h), refl)
batches-slice k p (suc n) (suc rounds) (q ∷ ps) h e =
    let rest = drop batch_size (q ∷ ps) in
    let fewer : length rest ≤ rounds = omega (arith, length-drop batch_size (q ∷ ps), h) in
    let (before, left, fits, cut) =
      batches-slice k p n rounds rest fewer (ap (first_with k) (sym (slice_next n (q ∷ ps))) ∙ e) in
    (
      take batch_size (q ∷ ps) ∷ before,
      left,
      subst (λ l. length l ≤ left) (sym (beyond_next n (q ∷ ps))) fits,
      ap (λ l. take batch_size (q ∷ ps) ∷ l)
          (cut
            ∙ ap₂ (λ s l. before ++ s ∷ batches left l) (sym (slice_next n (q ∷ ps)))
                (sym (beyond_next n (q ∷ ps)))),
    )
