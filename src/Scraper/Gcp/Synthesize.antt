-- ===== src/Scraper/Gcp/Synthesize.antt =====
-- internal/scraper/gcp.go: machine types from the prices of vCPUs and memory.
use c3x_pricing_api.Base.{
  ℕ, String, List, [], ◌∷◌, ◌++◌, none, some, true, false, any, str_eq, ◌<>◌, if◌then◌else◌,
}
use c3x_pricing_api.Db.Types.{Price, Product}
use c3x_pricing_api.Scraper.Hash.{product_hash, price_hash}
use c3x_pricing_api.Scraper.Gcp.{Library, PriceKey, find, has_prices, index_products}
use c3x_pricing_api.Scraper.Gcp.MachineTypes.{MachineType, Family}

unfoldable pub total_price : Library → MachineType → ℕ → ℕ → ℕ
total_price lib machine cpu ram =
    lib.add (lib.multiply cpu (lib.of_hundredths machine.cpus))
      (lib.multiply ram (lib.of_hundredths machine.ram))

unfoldable pub machine_price : Library → MachineType → String → String → PriceKey → ℕ → ℕ → Price
unfolding total_price
machine_price lib machine region hash key cpu ram = record {
  price_hash = price_hash lib.hex hash key.purchase_option "h" "0" machine.name "" "" "";
  purchase_option = key.purchase_option;
  unit = "h";
  usd = lib.fixed (total_price lib machine cpu ram);
  start_usage_amount = "";
  end_usage_amount = "";
  description = machine.name <> (" in " <> region);
  term_length = "";
  term_purchase_option = "";
  term_offering_class = "";
}

-- The prices of a machine type in a region: one for each key of both maps.
unfoldable pub machine_prices :
    Library → MachineType → String → String → List (PriceKey × ℕ) → List (PriceKey × ℕ) → List Price
machine_prices lib machine region hash ram [] = []
machine_prices lib machine region hash ram ((k, cpu) ∷ cpus) =
    let rest = machine_prices lib machine region hash ram cpus in
    elim (find k ram) [
      | none ↦ rest
      | some v ↦
          if str_eq k.region region
          then machine_price lib machine region hash k cpu v ∷ rest
          else rest
    ]

unfoldable pub machine_product :
    Library → MachineType → String → List (PriceKey × ℕ) → List (PriceKey × ℕ) → Product
machine_product lib machine region cpus ram =
    let sku = "mt-" <> machine.name in
    let hash = product_hash lib.hex "gcp" region "Compute Engine" sku in
    record {
      product_hash = hash;
      sku = sku;
      vendor_name = "gcp";
      region = region;
      service = "Compute Engine";
      product_family = "Compute Instance";
      attributes =
          ("description", machine.name <> " predefined instance")
          ∷ ("machineType", machine.name)
          ∷ [];
      prices = machine_prices lib machine region hash ram cpus;
    }

-- The loop over the keys of the vCPU prices; `seen` has the regions that are done.
unfoldable pub machine_products :
    Library
    → MachineType
    → List (PriceKey × ℕ)
    → List (PriceKey × ℕ)
    → List String
    → List (PriceKey × ℕ)
    → List Product
machine_products lib machine cpus ram seen [] = []
machine_products lib machine cpus ram seen ((k, cpu) ∷ keys) = elim (find k ram) [
  | none ↦ machine_products lib machine cpus ram seen keys
  | some v ↦ elim (any (str_eq k.region) seen) [
    | true ↦ machine_products lib machine cpus ram seen keys
    | false ↦
        let product = machine_product lib machine k.region cpus ram in
        let rest = machine_products lib machine cpus ram (k.region ∷ seen) keys in
        if has_prices product.prices then product ∷ rest else rest
  ]
]

unfoldable pub family_products :
    Library → List (PriceKey × ℕ) → List (PriceKey × ℕ) → List MachineType → List Product
family_products lib cpus ram [] = []
family_products lib cpus ram (machine ∷ machines) =
    machine_products lib machine cpus ram [] cpus ++ family_products lib cpus ram machines

unfoldable pub synthesize : Library → List Product → List Family → List Product
synthesize lib products [] = []
synthesize lib products (family ∷ families) =
    family_products lib (index_products lib family.cpu_pattern products [])
      (index_products lib family.ram_pattern products []) family.machine_types
    ++ synthesize lib products families
