-- ===== src/Scraper/Fetch/Pages.antt =====
-- Reading a list page by page.
use c3x_pricing_api.Base.{
  ℕ, zero, suc, ◌≤◌, ◌≡◌, ◌≢◌, refl, List, [], ◌∷◌, ◌++◌, some, arith, eq_iff, inl, inr, ◌⊎◌,
}
use c3x_pricing_api.Scraper.Fetch.{
  Fetched, fetched, refused, cancelled, exhausted, Page, fold_items, read_pages,
}

Fetched-cases :
    {A : Type 0} (r : Fetched A)
    → ((a : A) × (r ≡ fetched a)) ⊎ ((k : ℕ) × (r ≡ refused k)) ⊎ (r ≡ cancelled) ⊎ (r ≡ exhausted)
Fetched-cases (fetched a) = inl (a, refl)
Fetched-cases (refused k) = inr (inl (k, refl))
Fetched-cases cancelled = inr (inr (inl refl))
Fetched-cases exhausted = inr (inr (inr refl))

module _ {A : Type 0} (fetch : ℕ → Fetched (Page A)) where
  -- The pages from the n-th on, so many of them, and their items in order.
  pub data Pages : ℕ → ℕ → List A → Type 0 where
    last : (n : ℕ) (p : Page A) → fetch n ≡ fetched p → p.next ≡ "" → Pages n 1 p.items
    more :
        (n count : ℕ) (p : Page A) (rest : List A)
        → fetch n ≡ fetched p
        → p.next ≢ ""
        → Pages (suc n) count rest
        → Pages n (suc count) (p.items ++ rest)

  -- The pages up to one that is not fetched.
  pub data IsBroken : ℕ → ℕ → Type 0 where
    now : (n : ℕ) → ((p : Page A) → fetch n ≢ fetched p) → IsBroken n 1
    later :
        (n count : ℕ) (p : Page A)
        → fetch n ≡ fetched p
        → p.next ≢ ""
        → IsBroken (suc n) count
        → IsBroken n (suc count)

  module _ {S : Type 0} (step : A → S → S) where
    fold_items-append :
        (xs ys : List A) (s : S)
        → fold_items step (xs ++ ys) s ≡ fold_items step ys (fold_items step xs s)
    unfolding fold_items
    fold_items-append [] ys s = refl
    fold_items-append (x ∷ xs) ys s = fold_items-append xs ys (step x s)

    read_pages-last :
        (fuel n : ℕ) (s : S) (p : Page A)
        → fetch n ≡ fetched p
        → p.next ≡ ""
        → read_pages fetch step (suc fuel) n s ≡ some (fetched (fold_items step p.items s))
    unfolding read_pages
    read_pages-last fuel n s p e h = ground (arith, e, eq_iff p.next "", h)

    read_pages-more :
        (fuel n : ℕ) (s : S) (p : Page A)
        → fetch n ≡ fetched p
        → p.next ≢ ""
        → read_pages fetch step (suc fuel) n s
          ≡ read_pages fetch step fuel (suc n) (fold_items step p.items s)
    unfolding read_pages
    read_pages-more fuel n s p e h = ground (arith, e, eq_iff p.next "", h)

    read_pages-stopped :
        (fuel n : ℕ) (s : S)
        → ((p : Page A) → fetch n ≢ fetched p)
        → (r : Fetched S) × (read_pages fetch step (suc fuel) n s ≡ some r)
          × ((t : S) → r ≢ fetched t)
    unfolding read_pages
    read_pages-stopped fuel n s h = elim (Fetched-cases (fetch n)) [
      | inl (p, e) ↦ absurd (h p e)
      | inr (inl (k, e)) ↦ (refused k, ground (arith, e), (λ t q. cc))
      | inr (inr (inl e)) ↦ (cancelled, ground (arith, e), (λ t q. cc))
      | inr (inr (inr e)) ↦ (exhausted, ground (arith, e), (λ t q. cc))
    ]

    -- With as much fuel as there are pages, all their items are folded in, in order.
    pub read_pages-all :
        {n count : ℕ} {items : List A}
        → Pages n count items
        → (fuel : ℕ) (s : S) → count ≤ fuel
        → read_pages fetch step fuel n s ≡ some (fetched (fold_items step items s))
    read_pages-all (last n p e h) zero s le = absurd (omega arith)
    read_pages-all (last n p e h) (suc fuel) s le = read_pages-last fuel n s p e h
    read_pages-all (more n count p rest e h pages) zero s le = absurd (omega arith)
    read_pages-all (more n count p rest e h pages) (suc fuel) s le =
        rw (read_pages-more fuel n s p e h, fold_items-append p.items rest s)
          (read_pages-all pages fuel (fold_items step p.items s) (omega arith))

    -- A page that is not fetched loses the list: nothing of the pages before it is returned.
    pub read_pages-broken :
        {n count : ℕ}
        → IsBroken n count
        → (fuel : ℕ) (s : S) → count ≤ fuel
        → (r : Fetched S) × (read_pages fetch step fuel n s ≡ some r) × ((t : S) → r ≢ fetched t)
    read_pages-broken (now n h) zero s le = absurd (omega arith)
    read_pages-broken (now n h) (suc fuel) s le = read_pages-stopped fuel n s h
    read_pages-broken (later n count p e h broken) zero s le = absurd (omega arith)
    read_pages-broken (later n count p e h broken) (suc fuel) s le =
        rw (read_pages-more fuel n s p e h)
          (read_pages-broken broken fuel (fold_items step p.items s) (omega arith))
