-- ===== src/Scraper/Gcp/Index.antt =====
-- What the index of prices holds: only prices that are offered, one for each key.
use mathlib.Core.List.{Memᴰ}
use mathlib.Core.List.Memᴰ.{head, tail}
use c3x_pricing_api.Base.{
  ℕ, String, List, [], ◌∷◌, Option, none, some, ◌≡◌, ◌⊎◌, ◌↔◌, refl, sym, subst, ap, true, eq_iff,
  eq_refl, Bool-cases, Option-cases, inl, inr, if◌then◌else◌, arith,
}
use c3x_pricing_api.Db.Types.{Price, Product}
use c3x_pricing_api.Scraper.Gcp.{
  Library, PriceKey, key_eq, find, put_min, counted, index_price, index_prices, matches,
  index_products,
}

abbrev pub key : String → String → PriceKey
key region option = record { region = region; purchase_option = option }

pub key_eq_sound : (a b : PriceKey) → key_eq a b ≡ true → a ≡ b
unfolding key_eq
key_eq_sound a b h =
    let r : a.region ≡ b.region = ground (arith, h, eq_iff a.region b.region) in
    let o : a.purchase_option ≡ b.purchase_option =
      ground (arith, h, eq_iff a.purchase_option b.purchase_option) in
    λ i. record { region = r i; purchase_option = o i }

pub key_eq_refl : (a : PriceKey) → key_eq a a ≡ true
unfolding key_eq
key_eq_refl a = rw (eq_refl a.region, eq_refl a.purchase_option)

pub key_eq_iff : (a b : PriceKey) → (key_eq a b ≡ true) ↔ (a ≡ b)
key_eq_iff a b = (key_eq_sound a b, λ e. subst (λ c. key_eq a c ≡ true) e (key_eq_refl a))

module _ (lib : Library) where
  abbrev pub lower : ℕ → Option ℕ → ℕ
  lower v none = v
  lower v (some w) = if lib.less v w then v else w

  pub find-put_min :
      (j k : PriceKey) (v : ℕ) (index : List (PriceKey × ℕ))
      → find k (put_min lib j v index)
        ≡ (if key_eq j k then some (lower v (find j index)) else find k index)
  unfolding find put_min
  find-put_min j k v [] = ground (arith)
  find-put_min j k v ((i, u) ∷ index) =
      ground (arith, find-put_min j k v index, key_eq_iff i j, key_eq_iff j k, key_eq_iff i k)

  -- A price of the key is among the prices of a product.
  abbrev pub IsPriced : PriceKey → ℕ → String → List Price → Type 0
  IsPriced k v region ps =
      (p : Price) × Memᴰ p ps × (counted lib p ≡ some v) × (key region p.purchase_option ≡ k)

  -- A price of the key is among those of the products that match a pattern.
  abbrev pub IsOffered : String → List Product → PriceKey → ℕ → Type 0
  IsOffered pattern products k v =
      (x : Product) × Memᴰ x products × (matches pattern x ≡ true) × IsPriced k v x.region x.prices

  put_min-old :
      (j k : PriceKey) (v w : ℕ) (index : List (PriceKey × ℕ))
      → find k (put_min lib j v index) ≡ some w
      → (find k index ≡ some w) ⊎ ((j ≡ k) × (w ≡ v))
  put_min-old j k v w index h = elim (Bool-cases (key_eq j k)) [
    | inr e ↦ inl (ground (arith, h, find-put_min j k v index, e))
    | inl e ↦
        let same = key_eq_sound j k e in
        elim (Option-cases (find j index)) [
          | inl n ↦ inr (same, ground (arith, h, find-put_min j k v index, e, n))
          | inr (u, s) ↦ elim (Bool-cases (lib.less v u)) [
            | inl c ↦ inr (same, ground (arith, h, find-put_min j k v index, e, s, c))
            | inr c ↦ inl (
                subst (λ i. find i index ≡ some w) same
                  (ground (arith, h, find-put_min j k v index, e, s, c)))
          ]
        ]
  ]

  pub index_price-none :
      (region : String) (p : Price) (index : List (PriceKey × ℕ))
      → counted lib p ≡ none
      → index_price lib region p index ≡ index
  unfolding index_price
  index_price-none region p index h = ground (arith, h)

  pub index_price-some :
      (region : String) (p : Price) (v : ℕ) (index : List (PriceKey × ℕ))
      → counted lib p ≡ some v
      → index_price lib region p index ≡ put_min lib (key region p.purchase_option) v index
  unfolding index_price
  index_price-some region p v index h = ground (arith, h)

  index_price-old :
      (region : String) (p : Price) (k : PriceKey) (w : ℕ) (index : List (PriceKey × ℕ))
      → find k (index_price lib region p index) ≡ some w
      → (find k index ≡ some w) ⊎ ((counted lib p ≡ some w) × (key region p.purchase_option ≡ k))
  index_price-old region p k w index h = elim (Option-cases (counted lib p)) [
    | inl n ↦ inl (rw (index_price-none region p index n) at h)
    | inr (v, s) ↦
        elim (put_min-old (key region p.purchase_option) k v w index
          (rw (index_price-some region p v index s) at h)) [
            | inl old ↦ inl old
            | inr (same, eq) ↦ inr (cc, same)
          ]
  ]

  index_prices-old :
      (region : String) (ps : List Price) (k : PriceKey) (w : ℕ) (index : List (PriceKey × ℕ))
      → find k (index_prices lib region ps index) ≡ some w
      → (find k index ≡ some w) ⊎ IsPriced k w region ps
  unfolding index_prices
  index_prices-old region [] k w index h = inl h
  index_prices-old region (p ∷ ps) k w index h =
      elim (index_prices-old region ps k w (index_price lib region p index) h) [
        | inr (q, m, c, e) ↦ inr (q, tail m, c, e)
        | inl h' ↦ elim (index_price-old region p k w index h') [
          | inl old ↦ inl old
          | inr (c, e) ↦ inr (p, head refl, c, e)
        ]
      ]

  pub index_products-old :
      (pattern : String) (xs : List Product) (k : PriceKey) (w : ℕ) (index : List (PriceKey × ℕ))
      → find k (index_products lib pattern xs index) ≡ some w
      → (find k index ≡ some w) ⊎ IsOffered pattern xs k w
  unfolding index_products
  index_products-old pattern [] k w index h = inl h
  index_products-old pattern (x ∷ xs) k w index h = elim (index_products-old pattern xs k w _ h) [
    | inr (y, m, ok, priced) ↦ inr (y, tail m, ok, priced)
    | inl h' ↦ elim (Bool-cases (matches pattern x)) [
      | inr skip ↦ inl (rw skip at h')
      | inl ok ↦ elim (index_prices-old x.region x.prices k w index (rw ok at h')) [
        | inl old ↦ inl old
        | inr priced ↦ inr (x, head refl, ok, priced)
      ]
    ]
  ]

-- One entry for each key.
abbrev pub IsDistinct : List (PriceKey × ℕ) → Type 0
IsDistinct [] = Unit
IsDistinct ((k, v) ∷ index) = (find k index ≡ none) × IsDistinct index

pub find-Mem :
    (k : PriceKey) (v : ℕ) (index : List (PriceKey × ℕ))
    → Memᴰ (k, v) index
    → IsDistinct index
    → find k index ≡ some v
unfolding find
find-Mem k v [] m d = elim m [ ]
find-Mem k v ((j, w) ∷ index) (head same) (fresh, d) =
    let j_is : k ≡ j = ap (λ (x : PriceKey × ℕ). x.0) same in
    let w_is : v ≡ w = ap (λ (x : PriceKey × ℕ). x.1) same in
    ground (arith, w_is, (key_eq_iff j k).1 (sym j_is))
find-Mem k v ((j, w) ∷ index) (tail m) (fresh, d) =
    let found = find-Mem k v index m d in ground (arith, found, fresh, key_eq_iff j k)

module _ (lib : Library) where
  put_min-IsDistinct :
      (k : PriceKey) (v : ℕ) (index : List (PriceKey × ℕ))
      → IsDistinct index
      → IsDistinct (put_min lib k v index)
  unfolding put_min find
  put_min-IsDistinct k v [] d = (refl, tt)
  put_min-IsDistinct k v ((j, w) ∷ index) (fresh, d) = ground (
    arith,
    put_min-IsDistinct k v index d,
    find-put_min lib k j v index,
    key_eq_iff j k,
    key_eq_iff k j,
  )

  index_price-IsDistinct :
      (region : String) (p : Price) (index : List (PriceKey × ℕ))
      → IsDistinct index
      → IsDistinct (index_price lib region p index)
  index_price-IsDistinct region p index d = elim (Option-cases (counted lib p)) [
    | inl n ↦ rw (index_price-none lib region p index n) d
    | inr (v, s) ↦ rw (index_price-some lib region p v index s) (put_min-IsDistinct _ v index d)
  ]

  index_prices-IsDistinct :
      (region : String) (ps : List Price) (index : List (PriceKey × ℕ))
      → IsDistinct index
      → IsDistinct (index_prices lib region ps index)
  unfolding index_prices
  index_prices-IsDistinct region [] index d = d
  index_prices-IsDistinct region (p ∷ ps) index d =
      index_prices-IsDistinct region ps _ (index_price-IsDistinct region p index d)

  pub index_products-IsDistinct :
      (pattern : String) (xs : List Product) (index : List (PriceKey × ℕ))
      → IsDistinct index
      → IsDistinct (index_products lib pattern xs index)
  unfolding index_products
  index_products-IsDistinct pattern [] index d = d
  index_products-IsDistinct pattern (x ∷ xs) index d =
      index_products-IsDistinct pattern xs _ (elim (Bool-cases (matches pattern x)) [
        | inl ok ↦ rw ok (index_prices-IsDistinct x.region x.prices index d)
        | inr skip ↦ rw skip d
      ])

pub Mem-find :
    (k : PriceKey) (v : ℕ) (index : List (PriceKey × ℕ)) → find k index ≡ some v → Memᴰ (k, v) index
unfolding find
Mem-find k v [] h = cc
Mem-find k v ((j, w) ∷ index) h = elim (Bool-cases (key_eq j k)) [
  | inr e ↦ tail (Mem-find k v index (ground (arith, h, e)))
  | inl e ↦
      let w_is : w ≡ v = ground (arith, h, e) in
      let k_is = key_eq_sound j k e in head (sym (λ i. (k_is i, w_is i)))
]
