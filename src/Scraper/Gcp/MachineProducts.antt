-- ===== src/Scraper/Gcp/MachineProducts.antt =====
-- The products of a machine type: one for each region in which both its parts are priced.
use mathlib.Core.List.{Memᴰ}
use mathlib.Core.List.Memᴰ.{head, tail}
use c3x_pricing_api.Base.{
  ℕ, String, List, [], ◌∷◌, none, some, ◌≡◌, ◌⊎◌, refl, sym, subst, ap, Bool, true, false, any,
  str_eq, eq_iff, Bool-cases, Option-cases, inl, inr, if◌then◌else◌, arith,
}
use c3x_pricing_api.Db.Types.{Price, Product}
use c3x_pricing_api.Scraper.Gcp.{Library, PriceKey, find, has_prices}
use c3x_pricing_api.Scraper.Gcp.Synthesize.{machine_product, machine_products}
use c3x_pricing_api.Scraper.Gcp.Machines.{Index, IsSum, machine_prices-IsSum, Mem-machine_prices}
use c3x_pricing_api.Scraper.Gcp.MachineTypes.{MachineType}

module _ (lib : Library) (machine : MachineType) (cpus ram : Index) where
  abbrev product_in : String → Product
  product_in region = machine_product lib machine region cpus ram

  machine_products-skip :
      (seen : List String) (k : PriceKey) (c : ℕ) (keys : Index)
      → (find k ram ≡ none) ⊎ (any (str_eq k.region) seen ≡ true)
      → machine_products lib machine cpus ram seen ((k, c) ∷ keys)
        ≡ machine_products lib machine cpus ram seen keys
  unfolding machine_products
  machine_products-skip seen k c keys (inl e) = ground (arith, e)
  machine_products-skip seen k c keys (inr e) = elim (Option-cases (find k ram)) [
    | inl n ↦ ground (arith, n)
    | inr (v, s) ↦ ground (arith, e, s)
  ]

  machine_products-take :
      (seen : List String) (k : PriceKey) (c v : ℕ) (keys : Index) (b : Bool)
      → find k ram ≡ some v
      → any (str_eq k.region) seen ≡ false
      → has_prices (product_in k.region).prices ≡ b
      → machine_products lib machine cpus ram seen ((k, c) ∷ keys) ≡ (
          if b
          then product_in k.region ∷ machine_products lib machine cpus ram (k.region ∷ seen) keys
          else machine_products lib machine cpus ram (k.region ∷ seen) keys)
  unfolding machine_products
  machine_products-take seen k c v keys b e h q = ground (arith, e, h, q)

  has_prices-Mem : (p : Price) (ps : List Price) → Memᴰ p ps → has_prices ps ≡ true
  has_prices-Mem p [] m = elim m [ ]
  has_prices-Mem p (q ∷ ps) m = refl

  product_in-Mem :
      (k : PriceKey) (c v : ℕ) (region : String)
      → Memᴰ (k, c) cpus
      → find k ram ≡ some v
      → k.region ≡ region
      → has_prices (product_in region).prices ≡ true
  unfolding machine_product
  product_in-Mem k c v region m e h =
      has_prices-Mem _ _ (Mem-machine_prices lib machine region _ ram cpus k c v m e h)

  -- The region of each key that both indices have gets the machine type's product.
  pub Mem-machine_products :
      (seen : List String) (keys : Index) (k : PriceKey) (c v : ℕ)
      → Memᴰ (k, c) keys
      → Memᴰ (k, c) cpus
      → find k ram ≡ some v
      → any (str_eq k.region) seen ≡ false
      → Memᴰ (product_in k.region) (machine_products lib machine cpus ram seen keys)
  Mem-machine_products seen [] k c v m n e h = elim m [ ]
  Mem-machine_products seen ((j, d) ∷ keys) k c v (head same) n e h =
      let j_is : k ≡ j = ap (λ (x : PriceKey × ℕ). x.0) same in
      let priced = product_in-Mem k c v k.region n e refl in
      subst
        (λ (i : PriceKey).
          Memᴰ (product_in k.region) (machine_products lib machine cpus ram seen ((i, d) ∷ keys)))
        j_is
        (subst (Memᴰ _) (sym (machine_products-take seen k d v keys true e h priced)) (head refl))
  Mem-machine_products seen ((j, d) ∷ keys) k c v (tail m) n e h =
      elim (Option-cases (find j ram)) [
        | inl q ↦
            subst (Memᴰ _) (sym (machine_products-skip seen j d keys (inl q)))
              (Mem-machine_products seen keys k c v m n e h)
        | inr (w, s) ↦ elim (Bool-cases (any (str_eq j.region) seen)) [
          | inl old ↦
              subst (Memᴰ _) (sym (machine_products-skip seen j d keys (inr old)))
                (Mem-machine_products seen keys k c v m n e h)
          | inr new ↦ elim (Bool-cases (str_eq k.region j.region)) [
            | inl eq ↦
                let same = (eq_iff k.region j.region).0 eq in
                let priced = product_in-Mem k c v j.region n e same in
                subst (Memᴰ _) (sym (machine_products-take seen j d w keys true s new priced))
                  (head (ap product_in same))
            | inr ne ↦
                let later =
                  Mem-machine_products (j.region ∷ seen) keys k c v m n e (ground (arith, ne, h)) in
                elim (Bool-cases (has_prices (product_in j.region).prices)) [
                  | inl q ↦
                      subst (Memᴰ _) (sym (machine_products-take seen j d w keys true s new q))
                        (tail later)
                  | inr q ↦
                      subst (Memᴰ _) (sym (machine_products-take seen j d w keys false s new q))
                        later
                ]
          ]
        ]
      ]

  -- A product of the machine type is that of a region, and has a price.
  pub machine_products-Mem :
      (seen : List String) (keys : Index) (x : Product)
      → Memᴰ x (machine_products lib machine cpus ram seen keys)
      → (x ≡ product_in x.region) × (has_prices x.prices ≡ true)
  machine_products-Mem seen [] x m = unfold machine_products in elim m [ ]
  machine_products-Mem seen ((j, d) ∷ keys) x m = elim (Option-cases (find j ram)) [
    | inl q ↦
        machine_products-Mem seen keys x
          (subst (Memᴰ x) (machine_products-skip seen j d keys (inl q)) m)
    | inr (w, s) ↦ elim (Bool-cases (any (str_eq j.region) seen)) [
      | inl old ↦
          machine_products-Mem seen keys x
            (subst (Memᴰ x) (machine_products-skip seen j d keys (inr old)) m)
      | inr new ↦ elim (Bool-cases (has_prices (product_in j.region).prices)) [
        | inr q ↦
            machine_products-Mem (j.region ∷ seen) keys x
              (subst (Memᴰ x) (machine_products-take seen j d w keys false s new q) m)
        | inl q ↦ elim (subst (Memᴰ x) (machine_products-take seen j d w keys true s new q) m) [
          | tail m' ↦ machine_products-Mem (j.region ∷ seen) keys x m'
          | head same ↦ rw same ((unfold machine_product in refl), q)
        ]
      ]
    ]
  ]

  pub product_in-IsSum :
      (region : String) (p : Price)
      → Memᴰ p (product_in region).prices
      → IsSum lib machine cpus ram region p
  unfolding machine_product
  product_in-IsSum region p m = machine_prices-IsSum lib machine region _ ram cpus p m
