-- ===== src/Scraper/Tests.antt =====
-- Small price lists: requests with retries, hashes, and a run that misses a region of EC2.
use mathlib.Core.List.Memᴰ.{head}
use c3x_pricing_api.Base.{
  ℕ, zero, suc, ◌≡◌, ◌≢◌, ◌↔◌, refl, String, [], ◌∷◌, ◌++◌, some, none, true, false, List, str_eq,
  size, if◌then◌else◌, Bool-cases, has_char, All, inl, inr, arith,
}
use c3x_pricing_api.Scrape.{Tables, Env, handle_all, run_one_scrape}
use c3x_pricing_api.Scrape.Safety.{opened}
use c3x_pricing_api.Scraper.Hash.Fields.{IsPlain, IsApart, same_start, price_hash-injective}
use c3x_pricing_api.Scraper.Hash.{join, price_hash}
use c3x_pricing_api.Scraper.Fetch.{
  Attempt, done, failed, Fetched, fetched, refused, retry_from, retry_with_backoff, Exchange,
  no_answer, answer, page, Page, fetch_gcp_page, read_pages, fold_items,
}
use c3x_pricing_api.Scraper.Fetch.Attempts.{
  Succeeds, gcp_attempt, retry_with_backoff_iff, fetch_gcp_page-retry,
}
use c3x_pricing_api.Scraper.Fetch.Pages.{Pages, last, more, read_pages-all}
use c3x_pricing_api.Scraper.Group.{got, lost, Task, Group, fresh, run_tasks, Region, scrape_aws}
use c3x_pricing_api.Scraper.Group.Flagged.{run_one_scrape-lost_service}
use c3x_pricing_api.Scraper.Gcp.{Library}
use c3x_pricing_api.Scraper.Gcp.Targets.{GcpTask, scrape_gcp}
use c3x_pricing_api.Scraper.Gcp.Flagged.{run_one_scrape-missed_gcp}
use c3x_pricing_api.Scraper.Group.Regions.{run_one_scrape-missed_region}

-- The second attempt answers.
abbrev second : ℕ → Attempt ℕ
second zero = failed true
second (suc n) = done 7

retry_with_backoff_iff_example :
    (retry_with_backoff 5 second (λ n. true) ≡ fetched 7) ↔ Succeeds second (λ n. true) 0 5 7
retry_with_backoff_iff_example = retry_with_backoff_iff 5 second (λ n. true) 7

abbrev throttled : ℕ → Exchange ℕ
throttled zero = no_answer
throttled (suc n) = answer 200 (page 7)

fetch_gcp_page-retry_example :
    fetch_gcp_page throttled (λ n. true)
    ≡ retry_with_backoff 3 (λ n. gcp_attempt (throttled n)) (λ n. true)
fetch_gcp_page-retry_example = fetch_gcp_page-retry throttled (λ n. true)

gives_up : retry_with_backoff {A = ℕ} 3 (λ n. failed true) (λ n. true) ≡ refused 2
unfolding retry_with_backoff retry_from
gives_up = refl

abbrev first_page : Page ℕ
first_page = record { items = 1 ∷ 2 ∷ []; next = "n" }

abbrev last_page : Page ℕ
last_page = record { items = 3 ∷ []; next = "" }

abbrev two_pages : ℕ → Fetched (Page ℕ)
two_pages zero = fetched first_page
two_pages (suc n) = fetched last_page

goes_on : first_page.next ≢ last_page.next
goes_on e = cc

abbrev both : Pages two_pages 0 2 (1 ∷ 2 ∷ 3 ∷ [])
both = more 0 1 first_page (3 ∷ []) refl goes_on (last 1 last_page refl refl)

read_pages-all_example :
    read_pages two_pages (λ x xs. xs ++ x ∷ []) 5 0 []
    ≡ some (fetched (fold_items (λ x xs. xs ++ x ∷ []) (1 ∷ 2 ∷ 3 ∷ []) []))
read_pages-all_example = read_pages-all two_pages (λ x xs. xs ++ x ∷ []) both 5 [] (omega arith)

abbrev hash : String
hash = "a1"

abbrev option : String
option = "on_demand"

abbrev unit : String
unit = "Hrs"

abbrev empty : String
empty = ""

abbrev hourly : List String
hourly = hash ∷ option ∷ unit ∷ empty ∷ empty ∷ empty ∷ empty ∷ empty ∷ []

abbrev monthly : List String
monthly = hash ∷ option ∷ "Mo" ∷ empty ∷ empty ∷ empty ∷ empty ∷ empty ∷ []

hourly-IsPlain : All IsPlain hourly
unfolding has_char
hourly-IsPlain = (refl, (refl, (refl, (refl, (refl, (refl, (refl, (refl, tt))))))))

monthly-IsPlain : All IsPlain monthly
unfolding has_char
monthly-IsPlain = (refl, (refl, (refl, (refl, (refl, (refl, (refl, (refl, tt))))))))

abbrev zeros : String
zeros = "0000000000000000000000000000000000000000000000000000000000000000"

abbrev ones : String
ones = "1111111111111111111111111111111111111111111111111111111111111111"

-- A hash that tells the hourly price from all others.
abbrev hex : String → String
hex s = if str_eq s (join "\0" hourly) then zeros else ones

hex-long : (s : String) → size (hex s) ≡ 64
unfolding size
hex-long s = elim (Bool-cases (str_eq s (join "\0" hourly))) [
  | inl e ↦ rw e refl
  | inr e ↦ rw e refl
]

hex-IsApart : IsApart hex hourly monthly
unfolding same_start
hex-IsApart = record { long = hex-long; apart = λ (e : false ≡ true). cc }

hourly_ne_monthly : hourly ≢ monthly
hourly_ne_monthly e = cc

price_hash-injective_example :
    price_hash hex hash option unit empty empty empty empty empty
    ≢ price_hash hex hash option "Mo" empty empty empty empty empty
price_hash-injective_example =
    price_hash-injective hex hash option unit empty empty empty empty empty hash option "Mo" empty
      empty empty empty empty refl hourly-IsPlain monthly-IsPlain hex-IsApart hourly_ne_monthly

abbrev env : Group → Env
env g = record {
  vendor = "aws";
  lock = some true;
  start_time = some 10;
  run_id = some 1;
  events = [];
  scrape_error = g.error;
  failed_services = g.failed;
  previous_exec = true;
  count_exec = true;
  delete_exec = true;
  finish_exec = true;
  prune_exec = true;
  clear_exec = true;
  finish_time = 20;
  retention = 100;
}

abbrev tables : Tables
tables = record { rows = []; seen = []; runs = [] }

abbrev failing : Task
failing = record { scraped = lost; alive = true; handler_ok = true }

run_one_scrape-lost_service_example :
    let (t₁, total) =
      handle_all 1 [] (opened (env (run_tasks (failing ∷ []) fresh)) 10 1 tables) 0 in
    (run_one_scrape (env (run_tasks (failing ∷ []) fresh)) tables).0.rows ≡ t₁.rows
run_one_scrape-lost_service_example =
    run_one_scrape-lost_service (env (run_tasks (failing ∷ []) fresh)) tables 10 1 (failing ∷ [])
      failing refl refl refl refl refl (head refl) refl

abbrev gcp_lib : Library
gcp_lib = record {
  hex = λ s. s;
  parse_float = λ s. none;
  of_int = λ z. 0;
  of_hundredths = λ n. n;
  add = λ a b. a;
  multiply = λ a b. a;
  divide = λ a b. a;
  less = λ a b. false;
  fixed = λ n. "";
  plain = λ n. "";
}

abbrev gcp_tasks : List GcpTask
gcp_tasks = record { service = "Cloud SQL"; task = failing } ∷ []

abbrev gcp_group : Group
gcp_group = scrape_gcp gcp_lib "key" gcp_tasks true

run_one_scrape-missed_gcp_example :
    let (t₁, total) = handle_all 1 [] (opened (env gcp_group) 10 1 tables) 0 in
    (run_one_scrape (env gcp_group) tables).0.rows ≡ t₁.rows
run_one_scrape-missed_gcp_example =
    run_one_scrape-missed_gcp (env gcp_group) tables 10 1 gcp_lib "key" gcp_tasks true refl refl
      refl refl refl (inl (_, head refl, refl))

abbrev unread : Region
unread = record { scraped = lost; handler_ok = true }

abbrev aws_group : Group
aws_group = scrape_aws (got [] ∷ []) true (some (unread ∷ []))

run_one_scrape-missed_region_example :
    let (t₁, total) = handle_all 1 [] (opened (env aws_group) 10 1 tables) 0 in
    (run_one_scrape (env aws_group) tables).0.rows ≡ t₁.rows
run_one_scrape-missed_region_example =
    run_one_scrape-missed_region (env aws_group) tables 10 1 (got [] ∷ []) true (some (unread ∷ []))
      refl refl refl refl refl (inr (unread, head refl, inl refl))
