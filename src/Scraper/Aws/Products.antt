-- ===== src/Scraper/Aws/Products.antt =====
-- The products of an offer file.
use mathlib.Core.List.{Memᴰ}
use mathlib.Core.List.Memᴰ
use mathlib.Core.List.Memᴰ.{head, tail}
use c3x_pricing_api.Base.{
  ℕ, String, List, [], ◌∷◌, ◌≡◌, ◌≢◌, refl, sym, subst, ap, ◌∙◌, Bool, true, false, Bool-cases, inl,
  inr, if◌then◌else◌,
}
use c3x_pricing_api.Db.Types.{Price, Product}
use c3x_pricing_api.Scraper.Aws.{
  Library, AwsProduct, AwsPriceDimension, AwsTermOffer, AwsRawPricing, dimension_usd, is_skipped,
  offers_of, build_product, has_prices, build_products, build_product_list,
}
use c3x_pricing_api.Scraper.Aws.Built.{
  HasAmount, IsPriceOf, ComesFrom, price_of, price_of-usd, kept_iff, HasAmount-dimension_usd,
  dimension_price-IsPriceOf, offer_prices-ComesFrom, Mem-offer_prices,
}

-- The terms that a kind of offer is in.
abbrev pub terms_of : AwsRawPricing → Bool → List (String × List AwsTermOffer)
terms_of raw is_reserved = if is_reserved then raw.reserved_terms else raw.on_demand_terms

has_prices-Mem : (p : Price) (ps : List Price) → Memᴰ p ps → has_prices ps ≡ true
has_prices-Mem p [] m = elim m [ ]
has_prices-Mem p (q ∷ ps) m = refl

has_prices-ne : (ps : List Price) → has_prices ps ≡ true → ps ≢ []
has_prices-ne [] h e = cc
has_prices-ne (p ∷ ps) h e = cc

module _ (lib : Library) (rate : ℕ) (raw : AwsRawPricing) (service : String) where
  build_products-cons :
      (p : AwsProduct) (ps : List AwsProduct) (b : Bool)
      → has_prices (build_product lib rate raw service p).prices ≡ b
      → build_products lib rate raw service (p ∷ ps) ≡ (
          if b
          then build_product lib rate raw service p ∷ build_products lib rate raw service ps
          else build_products lib rate raw service ps)
  unfolding build_products
  build_products-cons p ps b e = rw e

  Mem-build_products :
      (p : AwsProduct) (ps : List AwsProduct)
      → Memᴰ p ps
      → has_prices (build_product lib rate raw service p).prices ≡ true
      → Memᴰ (build_product lib rate raw service p) (build_products lib rate raw service ps)
  Mem-build_products p [] m h = elim m [ ]
  Mem-build_products p (x ∷ ps) (head e) h =
      subst (λ y. Memᴰ (build_product lib rate raw service p) y)
        (sym (build_products-cons x ps true (rw (sym e) h)))
        (head (ap (build_product lib rate raw service) e))
  Mem-build_products p (x ∷ ps) (tail m) h =
      let found = Mem-build_products p ps m h in
      elim (Bool-cases (has_prices (build_product lib rate raw service x).prices)) [
        | inl e ↦
            subst (λ y. Memᴰ (build_product lib rate raw service p) y)
              (sym (build_products-cons x ps true e)) (tail found)
        | inr e ↦
            subst (λ y. Memᴰ (build_product lib rate raw service p) y)
              (sym (build_products-cons x ps false e)) found
      ]

  build_products-Mem :
      (x : Product) (ps : List AwsProduct)
      → Memᴰ x (build_products lib rate raw service ps)
      → (p : AwsProduct) × Memᴰ p ps
        × (x ≡ build_product lib rate raw service p)
        × (has_prices (build_product lib rate raw service p).prices ≡ true)
  unfolding build_products
  build_products-Mem x [] m = elim m [ ]
  build_products-Mem x (p ∷ ps) m =
      elim (Bool-cases (has_prices (build_product lib rate raw service p).prices)) [
        | inl e ↦ elim (subst (Memᴰ x) (build_products-cons p ps true e) m) [
          | head same ↦ (p, head refl, same, e)
          | tail m' ↦ let (q, n, same, h) = build_products-Mem x ps m' in (q, tail n, same, h)
        ]
        | inr e ↦
            let (q, n, same, h) =
              build_products-Mem x ps (subst (Memᴰ x) (build_products-cons p ps false e) m) in
            (q, tail n, same, h)
      ]

  -- The price is one that an offer of the product gives.
  abbrev pub IsOffered : AwsProduct → String → Price → Type 0
  IsOffered p hash q = (r : Bool) × ComesFrom lib rate r hash (offers_of p.sku (terms_of raw r)) q

  build_product-IsOffered :
      (p : AwsProduct) (q : Price)
      → let x = build_product lib rate raw service p in
        Memᴰ q x.prices → IsOffered p x.product_hash q
  unfolding build_product
  build_product-IsOffered p q m = elim (Memᴰ.append_cases _ m) [
    | inl here ↦ (false, offer_prices-ComesFrom lib rate false _ _ q here)
    | inr there ↦ (true, offer_prices-ComesFrom lib rate true _ _ q there)
  ]

  build_product-sku : (p : AwsProduct) → (build_product lib rate raw service p).sku ≡ p.sku
  unfolding build_product
  build_product-sku p = refl

  -- Every product of an offer file is one of the file's, by its sku, and has at least one price.
  -- Each of its prices says what a dimension of an offer under that sku says, on demand without a
  -- term, or reserved with the offer's term and not sold by quantity: its unit, start, end and
  -- description, an end of "Inf" being "", and its amount, which is not empty, in USD, or in CNY
  -- converted at the rate. The price's hash is that of its own fields and its product's hash.
  pub build_product_list_sound :
      (x : Product)
      → Memᴰ x (build_product_list lib rate raw service)
      → (x.prices ≢ [])
        × ((p : AwsProduct) × Memᴰ p raw.products
            × (x.sku ≡ p.sku)
            × ((q : Price) → Memᴰ q x.prices → IsOffered p x.product_hash q))
  unfolding build_product_list
  build_product_list_sound x m =
      let (p, n, same, h) = build_products-Mem x raw.products m in
      subst
        (λ (y : Product).
          (y.prices ≢ [])
          × ((p : AwsProduct) × Memᴰ p raw.products
              × (y.sku ≡ p.sku)
              × ((q : Price) → Memᴰ q y.prices → IsOffered p y.product_hash q)))
        (sym same) (has_prices-ne _ h, (p, n, build_product-sku p, build_product-IsOffered p))

  build_product-Mem :
      (r : Bool) (p : AwsProduct) (offer : AwsTermOffer) (dim : AwsPriceDimension)
      → Memᴰ offer (offers_of p.sku (terms_of raw r))
      → Memᴰ dim offer.price_dimensions
      → is_skipped lib rate r dim ≡ false
      → let x = build_product lib rate raw service p in
        Memᴰ (price_of lib rate r x.product_hash offer dim) x.prices
  unfolding build_product
  build_product-Mem false p offer dim m n h =
      Memᴰ.append_left _ (Mem-offer_prices lib rate false _ offer dim _ m n h)
  build_product-Mem true p offer dim m n h =
      Memᴰ.append_right _ (Mem-offer_prices lib rate true _ offer dim _ m n h)

  -- Every dimension that an offer of a product gives, on demand or reserved, with an amount in USD,
  -- or in CNY that is a number, and for a reservation not by quantity, is a price of a product in
  -- the list with the same sku: with that amount, CNY being converted at the rate, and with the
  -- unit, range, description and term that the offer and the dimension give.
  pub build_product_list_complete :
      (r : Bool) (p : AwsProduct) (offer : AwsTermOffer) (dim : AwsPriceDimension) (usd : String)
      → Memᴰ p raw.products
      → Memᴰ offer (offers_of p.sku (terms_of raw r))
      → Memᴰ dim offer.price_dimensions
      → HasAmount lib rate dim usd
      → usd ≢ ""
      → (r ≡ true → dim.unit ≢ "Quantity")
      → (x : Product) × Memᴰ x (build_product_list lib rate raw service)
        × (x.sku ≡ p.sku)
        × ((q : Price) × Memᴰ q x.prices × (q.usd ≡ usd) × IsPriceOf lib rate r offer dim q)
  unfolding build_product_list
  build_product_list_complete r p offer dim usd k m n amount ne unit =
      let costs = HasAmount-dimension_usd lib rate dim usd amount in
      let filled : dimension_usd lib rate dim ≢ "" = λ e. ne (sym costs ∙ e) in
      let found =
        build_product-Mem r p offer dim m n ((kept_iff lib rate r dim).1 (filled, unit)) in
      let x = build_product lib rate raw service p in
      (
        x,
        Mem-build_products p raw.products k (has_prices-Mem _ _ found),
        build_product-sku p,
        (
          price_of lib rate r x.product_hash offer dim,
          found,
          price_of-usd lib rate r x.product_hash offer dim ∙ costs,
          dimension_price-IsPriceOf lib rate r x.product_hash offer dim filled,
        ),
      )
