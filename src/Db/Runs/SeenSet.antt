-- ===== src/Db/Runs/SeenSet.antt =====
-- Which rows of scrape_seen a clearing run leaves to the other runs.
use c3x_pricing_api.Base.{
  ℕ, ◌-◌, ◌<◌, ◌≤◌, ◌≡◌, ◌≢◌, refl, String, List, [], ◌∷◌, true, false, Bool, ◌&&◌, ◌==◌, any,
  arith, All,
}
use c3x_pricing_api.Db.Store.{Seen, is_seen}
use c3x_pricing_api.Db.Runs.{
  Run, reap_stale_scrape_runs, runs_on, clear_seen, is_running, start_scrape_run,
}

-- While a run is recorded as running, no other run's clearing touches its seen-set.
pub clear_seen-running :
    (run other : ℕ) (runs : List Run) (seen : List Seen) (k : String)
    → other ≢ run
    → runs_on other runs ≡ true
    → is_seen other k (clear_seen run runs seen) ≡ is_seen other k seen
unfolding clear_seen is_seen
clear_seen-running run other runs [] k h on = refl
clear_seen-running run other runs (s ∷ seen) k h on =
    ground (arith, clear_seen-running run other runs seen k h on, on)

-- The row of a run that started at that time is there and says running.
unfoldable pub at_work : ℕ → ℕ → List Run → Bool
at_work id start = any λ r. (r.id == id && is_running r.status) && r.started_at == start

pub at_work-runs_on :
    (id start : ℕ) (runs : List Run) → at_work id start runs ≡ true → runs_on id runs ≡ true
unfolding at_work runs_on
at_work-runs_on id start [] h = h
at_work-runs_on id start (r ∷ runs) h = ground (arith, at_work-runs_on id start runs)

-- The reaper leaves a run alone that is not older than the timeout.
pub at_work-reap :
    (now timeout id start : ℕ) (runs : List Run)
    → now - timeout ≤ start
    → at_work id start runs ≡ true
    → at_work id start (reap_stale_scrape_runs now timeout runs) ≡ true
unfolding at_work reap_stale_scrape_runs
at_work-reap now timeout id start [] young h = h
at_work-reap now timeout id start (r ∷ runs) young h =
    ground (arith, young, h, at_work-reap now timeout id start runs young)

pub at_work-start :
    (id start : ℕ) (vendor : String) (runs : List Run)
    → at_work id start (start_scrape_run id vendor start runs) ≡ true
unfolding at_work start_scrape_run
at_work-start id start vendor [] = ground arith
at_work-start id start vendor (r ∷ runs) = ground (arith, at_work-start id start vendor runs)

reap-runs_on :
    (now timeout id : ℕ) (runs : List Run)
    → All (λ r. r.id ≡ id → r.started_at < now - timeout) runs
    → runs_on id (reap_stale_scrape_runs now timeout runs) ≡ false
unfolding runs_on reap_stale_scrape_runs
reap-runs_on now timeout id [] h = refl
reap-runs_on now timeout id (r ∷ runs) (old, h) = ground (arith, reap-runs_on now timeout id runs h)

clear_seen-not_running :
    (run other : ℕ) (runs : List Run) (seen : List Seen) (k : String)
    → runs_on other runs ≡ false
    → is_seen other k (clear_seen run runs seen) ≡ false
unfolding clear_seen is_seen
clear_seen-not_running run other runs [] k h = refl
clear_seen-not_running run other runs (s ∷ seen) k h =
    ground (arith, clear_seen-not_running run other runs seen k h, h)

-- A run that started longer ago than the reaper's timeout has its seen-set deleted by the next
-- run that clears, also while it is still at work.
pub clear_seen-reaped :
    (run other now timeout : ℕ) (runs : List Run) (seen : List Seen) (k : String)
    → All (λ r. r.id ≡ other → r.started_at < now - timeout) runs
    → is_seen other k (clear_seen run (reap_stale_scrape_runs now timeout runs) seen) ≡ false
clear_seen-reaped run other now timeout runs seen k h =
    clear_seen-not_running run other (reap_stale_scrape_runs now timeout runs) seen k
      (reap-runs_on now timeout other runs h)
