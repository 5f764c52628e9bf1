-- ===== src/Db/Runs.antt =====
-- internal/db/db.go, internal/db/queries.go and cmd/server/main.go: the scrape_runs table, and the
-- statements on it. Ids are those of BIGSERIAL: 1, 2, ...
pub mod SeenSet
use c3x_pricing_api.Base.{
  ℕ, ◌+◌, ◌-◌, String, Option, none, some, List, [], ◌∷◌, ◌++◌, Bool, true, false, not, ◌&&◌, ◌||◌,
  ltb, ◌==◌, str_eq, if◌then◌else◌, map, keep, any,
}
use c3x_pricing_api.Db.Store.{Seen}

pub data Status : Type 0 where
  running success failed : Status

pub record Run : Type 0 where
  pub id : ℕ
  pub vendor : String
  pub started_at : ℕ
  pub finished_at : Option ℕ
  pub status : Status
  pub products : ℕ
  pub deleted : ℕ

abbrev pub is_running : Status → Bool
is_running running = true
is_running _ = false

abbrev pub is_success : Status → Bool
is_success success = true
is_success _ = false

unfoldable pub start_scrape_run : ℕ → String → ℕ → List Run → List Run
start_scrape_run id vendor started_at runs =
    runs
    ++ record {
      id = id;
      vendor = vendor;
      started_at = started_at;
      finished_at = none;
      status = running;
      products = 0;
      deleted = 0;
    }
      ∷ []

unfoldable pub finish_scrape_run : ℕ → ℕ → Status → ℕ → ℕ → List Run → List Run
finish_scrape_run now id status products deleted = map λ r.
    if r.id == id
    then record r {
      finished_at = some now;
      status = status;
      products = products;
      deleted = deleted;
    }
    else r

abbrev finished_before : ℕ → Option ℕ → Bool
finished_before cutoff none = false
finished_before cutoff (some t) = ltb t cutoff

-- A retention of 0 keeps everything.
unfoldable pub prune_scrape_runs : ℕ → ℕ → List Run → List Run
prune_scrape_runs now retain runs =
    if retain == 0
    then runs
    else keep (λ r. not (finished_before (now - retain) r.finished_at)) runs

unfoldable pub reap_stale_scrape_runs : ℕ → ℕ → List Run → List Run
reap_stale_scrape_runs now timeout = map λ r.
    if is_running r.status && ltb r.started_at (now - timeout)
    then record r { status = failed; finished_at = some now }
    else r

later : Option ℕ → ℕ → Option (ℕ × ℕ) → Option (ℕ × ℕ)
later none n best = best
later (some t) n none = some (t, n)
later (some t) n (some (u, m)) = if ltb u t then some (t, n) else some (u, m)

-- The product count of the vendor's successful run that finished last; 0 with none. A successful
-- run has a finish time, since one UPDATE sets both.
unfoldable pub previous_count : String → List Run → Option (ℕ × ℕ) → ℕ
unfolding later
previous_count vendor [] none = 0
previous_count vendor [] (some (t, products)) = products
previous_count vendor (r ∷ runs) best = previous_count vendor runs (
    if str_eq r.vendor vendor && is_success r.status
    then later r.finished_at r.products best
    else best)

-- Some run with this id is running.
unfoldable pub runs_on : ℕ → List Run → Bool
runs_on id = any λ r. r.id == id && is_running r.status

-- Drops the rows of this run, and those of runs that are not running.
unfoldable pub clear_seen : ℕ → List Run → List Seen → List Seen
clear_seen run runs = keep λ s. not (s.run_id == run || not (runs_on s.run_id runs))
