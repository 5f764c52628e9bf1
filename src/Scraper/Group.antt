-- ===== src/Scraper/Group.antt =====
-- internal/scraper: the services of a scrape, in the order in which their tasks end. What a task
-- meets is given: what was scraped, whether the caller's context still stands, and whether the
-- handler succeeds.
pub mod Flagged
pub mod Regions
use c3x_pricing_api.Base.{
  ℕ, zero, suc, ◌+◌, String, List, [], ◌∷◌, ◌++◌, Option, none, some, Bool, true, false, not, ◌||◌,
  ◌&&◌, ltb, ◌==◌, length, if◌then◌else◌,
}
use c3x_pricing_api.Db.Types.{Product}

-- What scrapeService, or the fetching and parsing of a region, returns; `lost` is an error.
pub data Scraped : Type 0 where
  got : List Product → Scraped
  lost : Scraped

pub record Task : Type 0 where
  pub scraped : Scraped
  pub alive : Bool
  pub handler_ok : Bool

-- The handler's calls so far, FailedServices, and whether an error was returned.
pub record Group : Type 0 where
  pub calls : List (List Product)
  pub failed : ℕ
  pub error : Bool

abbrev pub fresh : Group
fresh = record { calls = []; failed = 0; error = false }

abbrev pub call_handler : Group → Bool → List Product → Group
call_handler g ok [] = g
call_handler g ok (p ∷ ps) = record g {
  calls = g.calls ++ (p ∷ ps) ∷ [];
  error = g.error || not ok;
}

-- The closures of azure.go:90 and gcp.go:113. The group's context is cancelled by the first error
-- and with the caller's.
unfoldable pub run_task : Group → Task → Group
run_task g t = elim t.scraped [
  | got ps ↦ call_handler g t.handler_ok ps
  | lost ↦
      if g.error || not t.alive
      then record g { error = true }
      else record g { failed = g.failed + 1 }
]

unfoldable pub run_tasks : List Task → Group → Group
run_tasks [] g = g
run_tasks (t ∷ tasks) g = run_tasks tasks (run_task g t)

-- scrapeServices of aws.go: all products, and how many services failed.
unfoldable pub scrape_services : List Scraped → List Product → ℕ → List Product × ℕ
scrape_services [] all failed = (all, failed)
scrape_services (got ps ∷ tasks) all failed = scrape_services tasks (all ++ ps) failed
scrape_services (lost ∷ tasks) all failed = scrape_services tasks all (failed + 1)

-- One EC2 region; the handler's error is no error of the task.
pub record Region : Type 0 where
  pub scraped : Scraped
  pub handler_ok : Bool

pub record Stream : Type 0 where
  pub calls : List (List Product)
  pub total_products : ℕ
  pub total_failed : ℕ

abbrev pub handle_region : Stream → Bool → List Product → Stream
handle_region s ok [] = s
handle_region s ok (p ∷ ps) =
    if ok
    then record s {
      calls = s.calls ++ (p ∷ ps) ∷ [];
      total_products = s.total_products + length (p ∷ ps);
    }
    else record s { calls = s.calls ++ (p ∷ ps) ∷ []; total_failed = s.total_failed + 1 }

unfoldable pub stream_region : Stream → Region → Stream
stream_region s r = elim r.scraped [
  | got ps ↦ handle_region s r.handler_ok ps
  | lost ↦ record s { total_failed = s.total_failed + 1 }
]

unfoldable pub stream_regions : List Region → Stream → Stream
stream_regions [] s = s
stream_regions (r ∷ regions) s = stream_regions regions (stream_region s r)

-- streamEC2ByRegion, after what the other services left; the index is none if it is not fetched.
unfoldable pub stream_ec2 : Option (List Region) → Group → Group
stream_ec2 none g = record g { error = true }
stream_ec2 (some regions) g =
    let s =
      stream_regions regions (record { calls = g.calls; total_products = 0; total_failed = 0 }) in
    record {
      calls = s.calls;
      failed =
          if ltb 0 s.total_failed && not (s.total_products == 0)
          then g.failed + s.total_failed
          else g.failed;
      error = g.error || (ltb 0 s.total_failed && s.total_products == 0);
    }

unfoldable pub after_services : Bool → Option (List Region) → List Product × ℕ → Group
after_services ok index ([], failed) =
    stream_ec2 index (record { calls = []; failed = failed; error = false })
after_services ok index (p ∷ ps, failed) =
    if ok
    then stream_ec2 index (record { calls = (p ∷ ps) ∷ []; failed = failed; error = false })
    else record { calls = (p ∷ ps) ∷ []; failed = failed; error = true }

-- ScrapeWithHandler of aws.go: the services without EC2 in one call, then EC2 by region.
unfoldable pub scrape_aws : List Scraped → Bool → Option (List Region) → Group
unfolding after_services
scrape_aws tasks ok index = after_services ok index (scrape_services tasks [] 0)
