-- ===== src/Scraper/Gcp/Targets.antt =====
-- internal/scraper/gcp.go: which services are scraped, and the scrape as a whole. A map from display
-- names to service ids is a list in the order of its keys.
use c3x_pricing_api.Base.{
  ℕ, zero, suc, String, List, [], ◌∷◌, ◌++◌, Option, none, some, Bool, true, false, any, map,
  str_eq, if◌then◌else◌,
}
use c3x_pricing_api.Db.Types.{Product}
use c3x_pricing_api.Scraper.Attributes.{set}
use c3x_pricing_api.Scraper.Group.{got, lost, Task, Group, fresh, call_handler, run_tasks}
use c3x_pricing_api.Scraper.Gcp.{Library}
use c3x_pricing_api.Scraper.Gcp.Synthesize.{synthesize}
use c3x_pricing_api.Scraper.Gcp.MachineTypes.{gcp_families}

unfoldable pub gcp_services : List (String × String)
gcp_services =
    ("Cloud DNS", "FA26-5236-B8B5")
    ∷ ("Cloud Pub/Sub", "A1E8-BE35-7EBC")
    ∷ ("Cloud Run", "152E-C115-5142")
    ∷ ("Cloud Run Functions", "29E7-DA93-CA13")
    ∷ ("Cloud SQL", "9662-B51E-5089")
    ∷ ("Cloud Storage", "95FF-2EF5-5EA1")
    ∷ ("Compute Engine", "6F81-5844-456A")
    ∷ ("Kubernetes Engine", "CCD8-9BF1-090E")
    ∷ ("Networking", "E505-1604-58F8")
    ∷ []

unfoldable pub gcp_discoverable_services : List String
gcp_discoverable_services =
    "Cloud Memorystore for Redis" ∷ "BigQuery" ∷ "Cloud Filestore" ∷ "Cloud Bigtable"
    ∷ "Secret Manager" ∷ "Cloud Key Management Service (KMS)" ∷ "Artifact Registry"
    ∷ "Cloud Logging" ∷ "Cloud Spanner" ∷ "Cloud Dataflow" ∷ "Dataproc" ∷ []

-- One page of the services list: display names and ids.
pub record ServicePage : Type 0 where
  pub services : List (String × String)
  pub next_page_token : String

-- A display name is wanted if it is one of the discoverable names up to case.
unfoldable pub is_wanted : (String → String) → String → Bool
is_wanted to_lower name = any (str_eq (to_lower name)) (map to_lower gcp_discoverable_services)

unfoldable pub take_wanted :
    (String → String) → List (String × String) → List (String × String) → List (String × String)
take_wanted to_lower [] out = out
take_wanted to_lower ((name, id) ∷ services) out =
    take_wanted to_lower services (if is_wanted to_lower name then set name id out else out)

-- The pages from the n-th on; a page is none if its request fails. The result is none if the fuel
-- ends before the pages do, and its flag says whether there was no error.
unfoldable pub resolve_discoverable_services :
    (String → String)
    → (ℕ → Option ServicePage)
    → ℕ
    → ℕ
    → List (String × String)
    → Option (List (String × String) × Bool)
resolve_discoverable_services to_lower listing zero n out = none
resolve_discoverable_services to_lower listing (suc fuel) n out = elim (listing n) [
  | none ↦ some (out, false)
  | some page ↦ elim (str_eq page.next_page_token "") [
    | true ↦ some (take_wanted to_lower page.services out, true)
    | false ↦
        resolve_discoverable_services to_lower listing fuel (suc n)
          (take_wanted to_lower page.services out)
  ]
]

merge : List (String × String) → List (String × String) → List (String × String)
merge [] targets = targets
merge ((name, id) ∷ services) targets = set name id (merge services targets)

-- The static ids win; after an error nothing that was resolved counts.
unfoldable pub scrape_targets : List (String × String) × Bool → List (String × String)
unfolding merge
scrape_targets (resolved, true) = merge gcp_services resolved
scrape_targets (resolved, false) = merge gcp_services []

-- A service with its task.
pub record GcpTask : Type 0 where
  pub service : String
  pub task : Task

unfoldable pub compute_products : List GcpTask → List Product
compute_products [] = []
compute_products (t ∷ tasks) = elim t.task.scraped [
  | lost ↦ compute_products tasks
  | got ps ↦
      if str_eq t.service "Compute Engine"
      then ps ++ compute_products tasks
      else compute_products tasks
]

-- ScrapeWithHandler; the last flag says how the handler takes the machine types.
unfoldable pub scrape_gcp : Library → String → List GcpTask → Bool → Group
scrape_gcp lib api_key tasks handler_ok =
    if str_eq api_key ""
    then record fresh { error = true }
    else (let g = run_tasks (map (λ (t : GcpTask). t.task) tasks) fresh in
        if g.error
        then g
        else call_handler g handler_ok (synthesize lib (compute_products tasks) gcp_families))
