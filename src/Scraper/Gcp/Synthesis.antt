-- ===== src/Scraper/Gcp/Synthesis.antt =====
-- The prices of the synthesized machine types.
use mathlib.Core.List.{Memᴰ}
use mathlib.Core.List.Memᴰ
use mathlib.Core.List.Memᴰ.{head, tail}
use c3x_pricing_api.Base.{ℕ, String, List, [], ◌∷◌, ◌≡◌, refl, subst, false, ◌<>◌}
use c3x_pricing_api.Db.Types.{Price, Product}
use c3x_pricing_api.Scraper.Order.{IsOrder}
use c3x_pricing_api.Scraper.Gcp.{Library, PriceKey, index_products}
use c3x_pricing_api.Scraper.Gcp.Synthesize.{
  machine_products, machine_product, family_products, synthesize,
}
use c3x_pricing_api.Scraper.Gcp.MachineTypes.{MachineType, Family}
use c3x_pricing_api.Scraper.Gcp.Index.{key, IsOffered, Mem-find}
use c3x_pricing_api.Scraper.Gcp.Cheapest.{index_products-lowest}
use c3x_pricing_api.Scraper.Gcp.MachineProducts.{Mem-machine_products}

module _ (lib : Library) (products : List Product) where
  -- The lowest price of a vCPU or GB that the products offer for a key.
  abbrev pub IsLowest : String → PriceKey → ℕ → Type 0
  IsLowest pattern k w =
      IsOffered lib pattern products k w
      × ((u : ℕ) → IsOffered lib pattern products k u → lib.less u w ≡ false)

  -- A price of the machine type: the lowest price of a vCPU times its vCPUs plus the lowest price of
  -- a GB times its GB of memory, for region and purchase option.
  abbrev pub IsLowestSum : Family → MachineType → String → Price → Type 0
  IsLowestSum family machine region p =
      let k = key region p.purchase_option in
      (cpu : ℕ) × (v : ℕ) × (IsLowest family.cpu_pattern k cpu)
      × (IsLowest family.ram_pattern k v)
      × (p.usd
          ≡ lib.fixed (
              lib.add (lib.multiply cpu (lib.of_hundredths machine.cpus))
                (lib.multiply v (lib.of_hundredths machine.ram))))

  Mem-family_products :
      (cpus ram : List (PriceKey × ℕ)) (machines : List MachineType) (machine : MachineType)
      (x : Product)
      → Memᴰ machine machines
      → Memᴰ x (machine_products lib machine cpus ram [] cpus)
      → Memᴰ x (family_products lib cpus ram machines)
  unfolding family_products
  Mem-family_products cpus ram [] machine x m n = elim m [ ]
  Mem-family_products cpus ram (y ∷ machines) machine x (head same) n =
      Memᴰ.append_left _ (subst (λ z. Memᴰ x (machine_products lib z cpus ram [] cpus)) same n)
  Mem-family_products cpus ram (y ∷ machines) machine x (tail m) n =
      Memᴰ.append_right _ (Mem-family_products cpus ram machines machine x m n)

  -- For each machine type of a family, and each region in which Compute Engine's products offer a
  -- vCPU and a GB of the family under one purchase option, there is a synthesized product.
  pub synthesize-offered :
      (families : List Family) (family : Family) (machine : MachineType) (k : PriceKey) (c v : ℕ)
      → IsOrder lib.less
      → Memᴰ family families
      → Memᴰ machine family.machine_types
      → IsOffered lib family.cpu_pattern products k c
      → IsOffered lib family.ram_pattern products k v
      → (x : Product) × Memᴰ x (synthesize lib products families)
        × (x.region ≡ k.region)
        × (x.sku ≡ "mt-" <> machine.name)
  unfolding synthesize
  synthesize-offered [] family machine k c v order m n cpu ram = elim m [ ]
  synthesize-offered (f ∷ families) family machine k c v order (tail m) n cpu ram =
      let (x, there, region, sku) =
        synthesize-offered families family machine k c v order m n cpu ram in
      (x, Memᴰ.append_right _ there, region, sku)
  synthesize-offered (f ∷ families) family machine k c v order (head same) n cpu ram =
      let cpus = index_products lib family.cpu_pattern products [] in
      let rams = index_products lib family.ram_pattern products [] in
      let (c', found, _) =
        (index_products-lowest lib order family.cpu_pattern products k).1 c cpu in
      let (v', found', _) =
        (index_products-lowest lib order family.ram_pattern products k).1 v ram in
      let entry = Mem-find k c' cpus found in
      let made =
        Mem-machine_products lib machine cpus rams [] cpus k c' v' entry entry found' refl in
      (
        machine_product lib machine k.region cpus rams,
        subst
            (λ (g : Family).
              Memᴰ (machine_product lib machine k.region cpus rams)
                (synthesize lib products (g ∷ families)))
            same
            (Memᴰ.append_left _
              (Mem-family_products cpus rams family.machine_types machine _ n made)),
        (unfold machine_product in refl),
        (unfold machine_product in refl),
      )
