-- ===== src/Scraper/Azure.antt =====
-- internal/scraper/azure.go: a row of the Retail Prices API, the regions it is stored under, its
-- names and attributes. A float64 is its 64 bits, as a number.
pub mod Builder
mod Tests
use c3x_pricing_api.Base.{
  ℕ, String, code, List, [], ◌∷◌, ◌++◌, some, none, Bool, true, false, ◌&&◌, ◌||◌, str_eq, leb,
  ◌==◌, if◌then◌else◌,
}
use c3x_pricing_api.Base.{has_prefix, has_suffix, contains, cut_last, is_empty}

-- What packages strings, strconv, fmt and crypto/sha256 compute.
pub record Library : Type 0 where
  -- SHA-256, in hexadecimal digits
  pub hex : String → String
  pub to_lower : String → String
  -- %.10f and %g
  pub fixed : ℕ → String
  pub general : ℕ → String
  pub is_positive : ℕ → Bool
  -- whether the first text parses to a smaller float64 than the second
  pub is_cheaper : String → String → Bool

-- azureItem; the fields that the code does not read are left out.
pub record Item : Type 0 where
  pub retail_price : ℕ
  pub unit_of_measure : String
  pub arm_region_name : String
  pub service_name : String
  pub service_family : String
  pub product_name : String
  pub sku_name : String
  pub arm_sku_name : String
  pub meter_name : String
  pub kind : String
  pub is_primary_meter_region : Bool
  pub reservation_term : String
  pub tier_minimum_units : ℕ

unfoldable pub is_virtual_region : String → Bool
is_virtual_region region =
    has_prefix region "Zone"
    || str_eq region "Global"
    || has_prefix region "US Gov"
    || has_prefix region "DE "
    || contains region "China"

unfoldable pub skip_primary_meter_filter : Item → Bool
skip_primary_meter_filter item =
    let product = item.product_name in
    let service = item.service_name in
    str_eq product "IP Addresses"
    || has_prefix product "Azure Cosmos DB"
    || contains item.meter_name "Disk Operations"
    || (has_suffix product "Managed Disks" && contains item.meter_name "Disk Transactions")
    || (has_prefix product "SQL Database Single"
        || has_prefix product "SQL Database Basic"
        || has_prefix product "SQL Database Premium")
    || has_prefix product "Virtual Machines"
    || has_prefix product "Container Registry"
    || has_prefix product "Logic Apps"
    || has_prefix product "Key Vault"
    || has_prefix product "Event Hubs"
    || (str_eq service "Azure Analysis Services"
        || str_eq service "Azure Purview"
        || str_eq service "Azure Site Recovery")

unfoldable pub uses_virtual_regions : String → Bool
uses_virtual_regions service =
    str_eq service "Azure DNS" || str_eq service "VPN Gateway" || str_eq service "Load Balancer"

unfoldable pub azure_convert_region : Library → String → String
azure_convert_region lib region =
    let lower = lib.to_lower region in
    if contains lower "usgov"
    then "US Gov"
    else if contains lower "china"
    then "China"
    else "Global"

unfoldable pub azure_dns_zone_region : Library → String → String
azure_dns_zone_region lib region =
    let lower = lib.to_lower region in
    if has_prefix lower "usgov"
    then "US Gov Zone 1"
    else if has_prefix lower "germany"
    then "DE Zone 1"
    else if has_prefix lower "china"
    then "Zone 1 (China)"
    else "Zone 1"

-- The virtual regions of the services that have them.
unfoldable pub virtual_regions : Library → Item → List String
virtual_regions lib item =
    if str_eq item.service_name "Load Balancer"
    then azure_convert_region lib item.arm_region_name ∷ []
    else if str_eq item.service_name "Azure DNS"
    then azure_dns_zone_region lib item.arm_region_name ∷ []
    else if str_eq item.service_name "VPN Gateway"
    then azure_convert_region lib item.arm_region_name
      ∷ azure_dns_zone_region lib item.arm_region_name
      ∷ []
    else []

or_global : List String → List String
or_global [] = "Global" ∷ []
or_global (r ∷ rs) = r ∷ rs

unfoldable pub azure_product_regions : Library → Item → List String
unfolding or_global
azure_product_regions lib item =
    let region = item.arm_region_name in
    or_global ((if str_eq region "" then [] else region ∷ []) ++ virtual_regions lib item)

all_digits : String → Bool
all_digits String.[] = true
all_digits (String.◌∷◌ c s) = leb b'0' (code c) && leb (code c) b'9' && all_digits s

-- v\d+, whole
is_version : String → Bool
unfolding all_digits
is_version String.[] = false
is_version (String.◌∷◌ c s) = let digits = all_digits s in code c == b'v' && not_empty s && digits
  where
    not_empty : String → Bool
    not_empty String.[] = false
    not_empty (String.◌∷◌ c s) = true

-- The regular expression ` v\d+$`: what follows the last blank is the version.
unfoldable pub strip_version : String → String
unfolding is_version
strip_version name = elim (cut_last b' ' name) [
  | none ↦ name
  | some (before, after) ↦ if is_version after then before else name
]

unfoldable pub normalize_azure_product_name : String → String
normalize_azure_product_name name =
    if has_prefix name "Virtual Machines" then strip_version name else name

unfoldable pub is_azure_cloud_services : String → Bool
is_azure_cloud_services name = contains name "Cloud Services" || contains name "CloudServices"

unfoldable pub azure_os : String → String → List (String × String)
azure_os service product =
    if str_eq service "Virtual Machines"
    then (if is_azure_cloud_services product
        then []
        else if has_suffix product " Windows" || has_suffix product " Win"
        then ("os", "Windows") ∷ []
        else ("os", "Linux") ∷ [])
    else []

-- The map's entries in the order of their keys.
unfoldable pub azure_attributes :
    String → String → String → String → String → String → List (String × String)
azure_attributes service product sku meter arm_sku family =
    ("armSkuName", arm_sku)
    ∷ ("meterName", meter)
    ∷ (azure_os service product
        ++ (("productName", product) ∷ ("serviceFamily", family) ∷ ("skuName", sku) ∷ []))
