-- ===== src/Scraper/Azure/Builder/Products.antt =====
-- What a finished product has of its rows.
use mathlib.Core.List.{Memᴰ}
use mathlib.Core.List.Memᴰ.{head, tail}
use c3x_pricing_api.Base.{
  String, List, [], ◌∷◌, ◌≡◌, ◌⊎◌, refl, sym, subst, ap, Bool, true, false, ◌||◌, any, str_eq,
  eq_iff, Bool-cases, inl, inr, arith, if◌then◌else◌,
}
use c3x_pricing_api.Db.Types.{Price, Product}
use c3x_pricing_api.Scraper.Azure.{Library, is_virtual_region}
use c3x_pricing_api.Scraper.Order.{IsOrder}
use c3x_pricing_api.Scraper.Keyed.{HaveKeys}
use c3x_pricing_api.Scraper.Azure.Builder.{
  Entry, dedupe_key, deduplicate_prices, tier_key, deduplicate_prices_by_tier, kept_of,
  finish_prices, finish_product, has_none, products_from,
}
use c3x_pricing_api.Scraper.Azure.Builder.Dedupe.{
  dedupe_from-Mem, Mem-dedupe_from, dedupe_from-HaveKeys,
}
use c3x_pricing_api.Scraper.Azure.Builder.Tiers.{
  StandsFor, place_all-StandsFor, place_all-Mem, place_all-HaveKeys,
}

-- How one price stands for another under a region that is virtual, or is not.
abbrev pub Replaces : Library → Bool → Price → Price → Type 0
Replaces lib true p q = StandsFor lib p q
Replaces lib false p q = dedupe_key q ≡ dedupe_key p

abbrev pub price_key : Bool → Price → String
price_key true = tier_key
price_key false = dedupe_key

-- What the deduplication makes of a list of prices.
abbrev IsDeduped : Library → Bool → List Price → List Price → Type 0
IsDeduped lib virtual ps qs =
    ((q : Price) → Memᴰ q qs → Memᴰ q ps)
    × ((p : Price) → Memᴰ p ps → (q : Price) × Memᴰ q qs × Replaces lib virtual p q)
    × HaveKeys (price_key virtual) qs

finish_prices-IsDeduped :
    (lib : Library) (region : String) (ps : List Price)
    → IsOrder lib.is_cheaper
    → IsDeduped lib (is_virtual_region region) ps (finish_prices lib region ps)
unfolding finish_prices deduplicate_prices deduplicate_prices_by_tier
finish_prices-IsDeduped lib region ps order =
    elim (is_virtual_region region)
      as (λ b.
        IsDeduped lib b ps
          (if b then deduplicate_prices_by_tier lib ps else deduplicate_prices ps)) [
            | true ↦ (
              (λ q m. elim (place_all-Mem lib q ps [] m) [ inl m' ↦ m' | inr m' ↦ elim m' [ ] ]),
              (λ p m. place_all-StandsFor lib order ps p [] m),
              place_all-HaveKeys lib ps [] tt,
            )
            | false ↦ (
              (λ q m. (dedupe_from-Mem q [] ps m).0),
              (λ p m. Mem-dedupe_from p [] ps m refl),
              dedupe_from-HaveKeys [] ps,
            )
          ]

-- A product with a hash, and with at least one price.
abbrev pub IsPriced : String → List Product → Type 0
IsPriced hash ps =
    (x : Product) × Memᴰ x ps × (x.product_hash ≡ hash) × ((p : Price) × Memᴰ p x.prices)

has_none-Mem : (p : Price) (ps : List Price) → Memᴰ p ps → has_none ps ≡ false
has_none-Mem p [] m = elim m [ ]
has_none-Mem p (q ∷ ps) m = refl

products_from-cons :
    (lib : Library) (seen : List String) (e : Entry) (es : List Entry) (b : Bool)
    → (has_none (kept_of e) || any (str_eq e.product.product_hash) seen) ≡ b
    → products_from lib seen (e ∷ es) ≡ (
        if b
        then products_from lib seen es
        else finish_product lib e ∷ products_from lib (e.product.product_hash ∷ seen) es)
unfolding products_from
products_from-cons lib seen e es b h = ground (arith, h)

finish_product-IsPriced :
    (lib : Library) (e : Entry)
    → IsOrder lib.is_cheaper
    → (p : Price) × Memᴰ p (kept_of e)
    → (q : Price) × Memᴰ q (finish_product lib e).prices
unfolding finish_product
finish_product-IsPriced lib e order (p, m) =
    let (_, all, _) = finish_prices-IsDeduped lib e.product.region (kept_of e) order in
    let (q, m', _) = all p m in (q, m')

Mem-has_none : (ps : List Price) → has_none ps ≡ false → (p : Price) × Memᴰ p ps
Mem-has_none [] h = cc
Mem-has_none (p ∷ ps) h = (p, head refl)

module _ (lib : Library) (order : IsOrder lib.is_cheaper) where
  -- The next entry comes out as a product.
  emitted-IsPriced :
      (seen : List String) (x : Entry) (es : List Entry) (hash : String)
      → x.product.product_hash ≡ hash
      → (p : Price) × Memᴰ p (kept_of x)
      → (has_none (kept_of x) || any (str_eq x.product.product_hash) seen) ≡ false
      → IsPriced hash (products_from lib seen (x ∷ es))
  emitted-IsPriced seen x es hash same priced test = (
    finish_product lib x,
    subst (Memᴰ (finish_product lib x)) (sym (products_from-cons lib seen x es false test))
        (head refl),
    (unfold finish_product in same),
    finish_product-IsPriced lib x order priced,
  )

  pub products_from-IsPriced :
      (seen : List String) (es : List Entry) (e : Entry)
      → Memᴰ e es
      → (p : Price) × Memᴰ p (kept_of e)
      → (any (str_eq e.product.product_hash) seen ≡ true)
        ⊎ IsPriced e.product.product_hash (products_from lib seen es)
  products_from-IsPriced seen [] e m priced = elim m [ ]
  products_from-IsPriced seen (x ∷ es) e (head same) (p, n) =
      elim (Bool-cases (any (str_eq e.product.product_hash) seen)) [
        | inl old ↦ inl old
        | inr new ↦
            let test : (has_none (kept_of x) || any (str_eq x.product.product_hash) seen) ≡ false =
              rw (sym same) (rw (has_none-Mem p (kept_of e) n) new) in
            inr (
              emitted-IsPriced seen x es e.product.product_hash
                (ap (λ (y : Entry). y.product.product_hash) (sym same))
                (subst (λ y. (p : Price) × Memᴰ p (kept_of y)) same (p, n)) test)
      ]
  products_from-IsPriced seen (x ∷ es) e (tail m) priced =
      elim (Bool-cases (has_none (kept_of x) || any (str_eq x.product.product_hash) seen)) [
        | inl skip ↦
            subst
              (λ ps.
                (any (str_eq e.product.product_hash) seen ≡ true)
                ⊎ IsPriced e.product.product_hash ps)
              (sym (products_from-cons lib seen x es true skip))
              (products_from-IsPriced seen es e m priced)
        | inr test ↦ elim (products_from-IsPriced (x.product.product_hash ∷ seen) es e m priced) [
          | inr (y, n, same, q) ↦ inr (
            y,
            subst (Memᴰ y) (sym (products_from-cons lib seen x es false test)) (tail n),
            same,
            q,
          )
          | inl found ↦ elim (Bool-cases (str_eq e.product.product_hash x.product.product_hash)) [
            | inr ne ↦ inl (ground (arith, found, ne))
            | inl eq ↦ inr (
                emitted-IsPriced seen x es e.product.product_hash (sym ((eq_iff _ _).0 eq))
                  (Mem-has_none (kept_of x) (ground (arith, test))) test)
          ]
        ]
      ]
