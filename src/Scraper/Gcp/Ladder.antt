-- ===== src/Scraper/Gcp/Ladder.antt =====
-- The products of a SKU: one for each region, whose tiers follow on from each other.
use mathlib.Core.List.{Memᴰ}
use mathlib.Core.List.Memᴰ.{head, tail}
use c3x_pricing_api.Base.{
  String, List, [], ◌∷◌, ◌≡◌, ◌≢◌, refl, sym, subst, ap, Bool, true, false, Bool-cases, inl, inr,
  if◌then◌else◌,
}
use c3x_pricing_api.Db.Types.{Price, Product}
use c3x_pricing_api.Scraper.Hash.{product_hash}
use c3x_pricing_api.Scraper.Gcp.{
  Library, GcpSku, GcpPrice, GcpTieredRate, normalize_gcp_service_name, end_usage, tier_price,
  tier_prices, region_product, has_prices, region_products, transform_sku,
}

-- Each price ends where the next one starts, and the last is open.
abbrev pub IsLadder : List Price → Type 0
IsLadder [] = Unit
IsLadder (p ∷ []) = p.end_usage_amount ≡ ""
IsLadder (p ∷ q ∷ ps) = (p.end_usage_amount ≡ q.start_usage_amount) × IsLadder (q ∷ ps)

module _ (lib : Library) (sku : GcpSku) (pricing : GcpPrice) where
  tier_prices-IsLadder :
      (hash : String) (tiers : List GcpTieredRate)
      → IsLadder (tier_prices lib hash sku pricing tiers)
  unfolding tier_prices tier_price end_usage
  tier_prices-IsLadder hash [] = tt
  tier_prices-IsLadder hash (t ∷ []) = refl
  tier_prices-IsLadder hash (t ∷ u ∷ tiers) = (refl, tier_prices-IsLadder hash (u ∷ tiers))

  tier_prices-has_prices :
      (hash : String) (tiers : List GcpTieredRate)
      → tiers ≢ []
      → has_prices (tier_prices lib hash sku pricing tiers) ≡ true
  unfolding tier_prices
  tier_prices-has_prices hash [] h = absurd (h refl)
  tier_prices-has_prices hash (t ∷ tiers) h = refl

  -- What a product of the SKU is like.
  abbrev pub IsOfSku : Product → Type 0
  IsOfSku x =
      (x.prices ≢ [])
      × IsLadder x.prices
      × Memᴰ x.region sku.service_regions
      × (x.product_hash
          ≡ product_hash lib.hex "gcp" x.region
              (normalize_gcp_service_name sku.service_display_name) sku.sku_id)

  region_products-cons :
      (region : String) (regions : List String) (b : Bool)
      → has_prices (region_product lib sku pricing region).prices ≡ b
      → region_products lib sku pricing (region ∷ regions) ≡ (
          if b
          then region_product lib sku pricing region ∷ region_products lib sku pricing regions
          else region_products lib sku pricing regions)
  unfolding region_products
  region_products-cons region regions b e = rw e

  has_prices-ne : (ps : List Price) → has_prices ps ≡ true → ps ≢ []
  has_prices-ne [] h e = cc
  has_prices-ne (p ∷ ps) h e = cc

  region_product-IsOfSku :
      (region : String)
      → Memᴰ region sku.service_regions
      → has_prices (region_product lib sku pricing region).prices ≡ true
      → IsOfSku (region_product lib sku pricing region)
  unfolding region_product
  region_product-IsOfSku region m h =
      (has_prices-ne _ h, tier_prices-IsLadder _ pricing.tiered_rates, m, refl)

  pub region_products-IsOfSku :
      (x : Product) (regions : List String)
      → ((r : String) → Memᴰ r regions → Memᴰ r sku.service_regions)
      → Memᴰ x (region_products lib sku pricing regions)
      → IsOfSku x
  unfolding region_products
  region_products-IsOfSku x [] sub m = elim m [ ]
  region_products-IsOfSku x (r ∷ regions) sub m =
      elim (Bool-cases (has_prices (region_product lib sku pricing r).prices)) [
        | inl e ↦ elim (subst (Memᴰ x) (region_products-cons r regions true e) m) [
          | head same ↦ subst IsOfSku (sym same) (region_product-IsOfSku r (sub r (head refl)) e)
          | tail m' ↦ region_products-IsOfSku x regions (λ s n. sub s (tail n)) m'
        ]
        | inr e ↦
            region_products-IsOfSku x regions (λ s n. sub s (tail n))
              (subst (Memᴰ x) (region_products-cons r regions false e) m)
      ]

  region_product-has_prices :
      (region : String)
      → pricing.tiered_rates ≢ []
      → has_prices (region_product lib sku pricing region).prices ≡ true
  unfolding region_product
  region_product-has_prices region h = tier_prices-has_prices _ pricing.tiered_rates h

  pub Mem-region_products :
      (region : String) (regions : List String)
      → pricing.tiered_rates ≢ []
      → Memᴰ region regions
      → Memᴰ (region_product lib sku pricing region) (region_products lib sku pricing regions)
  Mem-region_products region [] h m = elim m [ ]
  Mem-region_products region (r ∷ regions) h (head e) =
      subst (Memᴰ _) (sym (region_products-cons r regions true (region_product-has_prices r h)))
        (head (ap (region_product lib sku pricing) e))
  Mem-region_products region (r ∷ regions) h (tail m) =
      subst (Memᴰ _) (sym (region_products-cons r regions true (region_product-has_prices r h)))
        (tail (Mem-region_products region regions h m))

-- The products of a SKU with a first pricing info that has tiers: each has prices, of which each
-- ends where the next starts and the last is open, a region of the SKU, and the hash of region,
-- normalised service and SKU; and each region of the SKU has its product.
pub transform_sku_lem :
    (lib : Library) (sku : GcpSku) (pricing : GcpPrice) (rest : List GcpPrice)
    → sku.pricing_info ≡ pricing ∷ rest
    → pricing.tiered_rates ≢ []
    → ((x : Product) → Memᴰ x (transform_sku lib sku) → IsOfSku lib sku pricing x)
      × ((region : String)
          → Memᴰ region sku.service_regions
          → (x : Product) × Memᴰ x (transform_sku lib sku) × (x.region ≡ region))
unfolding transform_sku
transform_sku_lem lib sku pricing rest e h =
    let eq : transform_sku lib sku ≡ region_products lib sku pricing sku.service_regions = rw e in
    (
      (λ x m.
          region_products-IsOfSku lib sku pricing x sku.service_regions (λ r n. n)
            (subst (Memᴰ x) eq m)),
      (λ region m. (
        region_product lib sku pricing region,
        subst (Memᴰ _) (sym eq)
            (Mem-region_products lib sku pricing region sku.service_regions h m),
        (unfold region_product in refl),
      )),
    )
