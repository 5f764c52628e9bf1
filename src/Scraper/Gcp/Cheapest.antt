-- ===== src/Scraper/Gcp/Cheapest.antt =====
-- indexCPURAMPrices keeps the lowest price of each region and purchase option.
use mathlib.Core.List.Memᴰ.{head, tail}
use c3x_pricing_api.Base.{
  ℕ, String, List, [], ◌∷◌, some, ◌≡◌, sym, subst, false, Bool-cases, Option-cases, inl, inr, arith,
}
use c3x_pricing_api.Db.Types.{Price, Product}
use c3x_pricing_api.Scraper.Order.{IsOrder}
use c3x_pricing_api.Scraper.Gcp.{
  Library, PriceKey, key_eq, find, put_min, counted, index_price, index_prices, matches,
  index_products,
}
use c3x_pricing_api.Scraper.Gcp.Index.{
  key, key_eq_sound, key_eq_refl, IsPriced, IsOffered, find-put_min, index_price-none,
  index_price-some, index_products-old,
}

module _ (lib : Library) where
  -- The index has a price for the key that is no higher.
  abbrev pub Covers : List (PriceKey × ℕ) → PriceKey → ℕ → Type 0
  Covers index k v = (w : ℕ) × (find k index ≡ some w) × (lib.less v w ≡ false)

  module _ (order : IsOrder lib.less) where
    put_min-Covers_new :
        (k : PriceKey) (v : ℕ) (index : List (PriceKey × ℕ)) → Covers (put_min lib k v index) k v
    put_min-Covers_new k v index =
        let found = rw (key_eq_refl k) at (find-put_min lib k k v index) in
        elim (Option-cases (find k index)) [
          | inl n ↦ (v, ground (arith, found, n), order.irreflexive v)
          | inr (u, s) ↦ elim (Bool-cases (lib.less v u)) [
            | inl c ↦ (v, ground (arith, found, s, c), order.irreflexive v)
            | inr c ↦ (u, ground (arith, found, s, c), c)
          ]
        ]

    put_min-Covers :
        (j k : PriceKey) (u v : ℕ) (index : List (PriceKey × ℕ))
        → Covers index k v
        → Covers (put_min lib j u index) k v
    put_min-Covers j k u v index (w, found, le) = elim (Bool-cases (key_eq j k)) [
      | inr e ↦ (w, ground (arith, found, find-put_min lib j k u index, e), le)
      | inl e ↦
          let at_j = subst (λ i. find i index ≡ some w) (sym (key_eq_sound j k e)) found in
          elim (Bool-cases (lib.less u w)) [
            | inr c ↦ (w, ground (arith, find-put_min lib j k u index, e, at_j, c), le)
            | inl c ↦ (
              u,
              ground (arith, find-put_min lib j k u index, e, at_j, c),
              order.transitive v w u le (order.asymmetric u w c),
            )
          ]
    ]

    index_prices-Covers :
        (region : String) (ps : List Price) (k : PriceKey) (v : ℕ) (index : List (PriceKey × ℕ))
        → Covers index k v
        → Covers (index_prices lib region ps index) k v
    unfolding index_prices
    index_prices-Covers region [] k v index h = h
    index_prices-Covers region (p ∷ ps) k v index h =
        index_prices-Covers region ps k v (index_price lib region p index)
          (elim (Option-cases (counted lib p)) [
            | inl n ↦ rw (index_price-none lib region p index n) h
            | inr (u, s) ↦
                rw (index_price-some lib region p u index s)
                  (put_min-Covers (key region p.purchase_option) k u v index h)
          ])

    index_prices-Covers_new :
        (region : String) (ps : List Price) (k : PriceKey) (v : ℕ) (index : List (PriceKey × ℕ))
        → IsPriced lib k v region ps
        → Covers (index_prices lib region ps index) k v
    unfolding index_prices
    index_prices-Covers_new region [] k v index (p, m, c, e) = elim m [ ]
    index_prices-Covers_new region (q ∷ ps) k v index (p, head same, c, e) =
        index_prices-Covers region ps k v (index_price lib region q index) (
          subst (λ i. Covers (index_price lib region q index) i v) e
            (rw same (
              rw (index_price-some lib region q v index (rw same at c))
                (put_min-Covers_new (key region q.purchase_option) v index))))
    index_prices-Covers_new region (q ∷ ps) k v index (p, tail m, c, e) =
        index_prices-Covers_new region ps k v (index_price lib region q index) (p, m, c, e)

    index_products-Covers :
        (pattern : String) (xs : List Product) (k : PriceKey) (v : ℕ) (index : List (PriceKey × ℕ))
        → Covers index k v
        → Covers (index_products lib pattern xs index) k v
    unfolding index_products
    index_products-Covers pattern [] k v index h = h
    index_products-Covers pattern (x ∷ xs) k v index h =
        index_products-Covers pattern xs k v _ (elim (Bool-cases (matches pattern x)) [
          | inl ok ↦ rw ok (index_prices-Covers x.region x.prices k v index h)
          | inr skip ↦ rw skip h
        ])

    index_products-Covers_new :
        (pattern : String) (xs : List Product) (k : PriceKey) (v : ℕ) (index : List (PriceKey × ℕ))
        → IsOffered lib pattern xs k v
        → Covers (index_products lib pattern xs index) k v
    unfolding index_products
    index_products-Covers_new pattern [] k v index (x, m, ok, priced) = elim m [ ]
    index_products-Covers_new pattern (y ∷ xs) k v index (x, head same, ok, priced) =
        let priced' = subst (λ (z : Product). IsPriced lib k v z.region z.prices) same priced in
        index_products-Covers pattern xs k v _
          (rw (rw same at ok) (index_prices-Covers_new y.region y.prices k v index priced'))
    index_products-Covers_new pattern (y ∷ xs) k v index (x, tail m, ok, priced) =
        index_products-Covers_new pattern xs k v _ (x, m, ok, priced)

    -- The index of a pattern has a price for a region and purchase option exactly when a product of
    -- Compute Engine that matches the pattern has one that counts; it is then the lowest of them,
    -- whatever their order.
    pub index_products-lowest :
        (pattern : String) (xs : List Product) (k : PriceKey)
        → ((w : ℕ)
            → find k (index_products lib pattern xs []) ≡ some w
            → IsOffered lib pattern xs k w)
          × ((v : ℕ) → IsOffered lib pattern xs k v → Covers (index_products lib pattern xs []) k v)
    index_products-lowest pattern xs k = (
      (λ w h. elim (index_products-old lib pattern xs k w [] h) [
        | inl none_yet ↦ unfold find in cc
        | inr offered ↦ offered
      ]),
      (λ v offered. index_products-Covers_new pattern xs k v [] offered),
    )
