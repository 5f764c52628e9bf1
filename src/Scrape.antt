-- ===== src/Scrape.antt =====
-- cmd/server/main.go: `runOneScrape`. What the database and the scraper answer is an `Env`; the
-- handler calls of the scraper come one after the other. Between them PostgreSQL may crash, another
-- run may clear the seen-set, and the reaper may mark runs as failed.
pub mod Tracking
pub mod Safety
pub mod Guards
pub mod Records
pub mod Retention
mod Tests
use c3x_pricing_api.Base.{
  ℕ, ◌+◌, ◌-◌, ◌/◌, String, Option, none, some, List, [], ◌∷◌, Bool, true, false, ◌&&◌, ltb, leb,
  ◌==◌, if◌then◌else◌, length,
}
use c3x_pricing_api.Db.Types.{Product}
use c3x_pricing_api.Db.Store.{
  Row, Seen, Written, ok, failed, upsert_products, mark_seen, delete_stale_products,
}
use c3x_pricing_api.Db.Runs.{
  Run, Status, start_scrape_run, finish_scrape_run, prune_scrape_runs, previous_count, clear_seen,
  reap_stale_scrape_runs,
}

pub record Tables : Type 0 where
  pub rows : List Row
  pub seen : List Seen
  pub runs : List Run

-- One call of the handler: its products, and how its statements fare.
pub record Call : Type 0 where
  pub products : List Product
  pub upsert_exec : ℕ → Bool
  pub mark_exec : Bool
  pub now : ℕ → ℕ

-- What happens to the tables while the scraper is at work: its own handler calls, a crash of
-- PostgreSQL, which truncates the UNLOGGED scrape_seen, the deferred ClearSeen of another run, and
-- the reaper of stale runs, at a time.
pub data Event : Type 0 where
  call : Call → Event
  crash : Event
  cleared : ℕ → Event
  reaped : ℕ → Event

-- The 6 hours of the reaper in `New`.
abbrev pub reap_timeout : ℕ
reap_timeout = 21600

pub record Env : Type 0 where
  pub vendor : String
  pub lock : Option Bool
  pub start_time : Option ℕ
  pub run_id : Option ℕ
  pub events : List Event
  pub scrape_error : Bool
  pub failed_services : ℕ
  pub previous_exec : Bool
  pub count_exec : Bool
  pub delete_exec : Bool
  pub finish_exec : Bool
  pub prune_exec : Bool
  pub clear_exec : Bool
  pub finish_time : ℕ
  pub retention : ℕ

-- UPDATE of scrape_seen by MarkSeen; an empty batch or run 0 sends nothing and cannot fail.
mark : Bool → ℕ → List Product → List Seen → Option (List Seen)
mark exec run [] seen = some seen
mark exec run (p ∷ ps) seen =
    if run == 0 then some seen else if exec then some (mark_seen run (p ∷ ps) seen) else none

after_mark : Tables → Option (List Seen) → Tables × Bool
after_mark t none = (t, false)
after_mark t (some seen) = (record t { seen = seen }, true)

after_upsert : ℕ → Call → Tables → Written → Tables × Bool
unfolding mark after_mark
after_upsert run c t (failed rows) = (record t { rows = rows }, false)
after_upsert run c t (ok rows) =
    after_mark (record t { rows = rows }) (mark c.mark_exec run c.products t.seen)

-- The handler: upsert, then mark; true if both succeed.
unfoldable pub handle : ℕ → Call → Tables → Tables × Bool
unfolding after_upsert
handle run c t = after_upsert run c t (upsert_products c.upsert_exec c.now c.products t.rows)

-- The tables after the events, and the products of the successful calls in `totalProducts`.
unfoldable pub handle_all : ℕ → List Event → Tables → ℕ → Tables × ℕ
handle_all run [] t total = (t, total)
handle_all run (crash ∷ events) t total = handle_all run events (record t { seen = [] }) total
handle_all run (cleared other ∷ events) t total =
    handle_all run events (record t { seen = clear_seen other t.runs t.seen }) total
handle_all run (reaped now ∷ events) t total =
    handle_all run events (record t { runs = reap_stale_scrape_runs now reap_timeout t.runs }) total
handle_all run (call c ∷ events) t total =
    let (t', done) = handle run c t in
    handle_all run events t' (if done then total + length c.products else total)

pub data EmptyScrape : Type 0 where
  services_failed nothing_ingested : EmptyScrape

unfoldable pub empty_scrape_error : ℕ → ℕ → Option EmptyScrape
empty_scrape_error products failed_services =
    if ltb 0 products
    then none
    else if ltb 0 failed_services
    then some services_failed
    else some nothing_ingested

unfoldable pub seen_set_complete : ℕ → ℕ → Bool
seen_set_complete seen ingested = ltb 0 seen && leb (ingested / 2) seen

-- SELECT count(*) FROM scrape_seen WHERE run_id = run
unfoldable pub count_seen : ℕ → List Seen → ℕ
count_seen run [] = 0
count_seen run (s ∷ seen) = (if s.run_id == run then 1 else 0) + count_seen run seen

-- The rows left, and how many went; a failed statement deletes nothing.
unfoldable pub delete_stale_if_seen_set_complete : Env → ℕ → ℕ → ℕ → Tables → List Row × ℕ
delete_stale_if_seen_set_complete env run start ingested t =
    if env.count_exec && seen_set_complete (count_seen run t.seen) ingested && env.delete_exec
    then (let left = delete_stale_products env.vendor run start t.seen t.rows in
        (left, length t.rows - length left))
    else (t.rows, 0)

pub data Failure : Type 0 where
  lock_failed time_failed record_failed scrape_failed : Failure

-- `produced` is the returned bool, with no error.
pub data Outcome : Type 0 where
  produced : Bool → Outcome
  error : Failure → Outcome

finish : Env → ℕ → Status → ℕ → ℕ → Tables → Tables
finish env run status products deleted t =
    if env.finish_exec
    then record t { runs = finish_scrape_run env.finish_time run status products deleted t.runs }
    else t

prune : Env → Tables → Tables
prune env t =
    if env.prune_exec
    then record t { runs = prune_scrape_runs env.finish_time env.retention t.runs }
    else t

-- The deferred ClearSeen.
clear : Env → ℕ → Tables → Tables
clear env run t = if env.clear_exec then record t { seen = clear_seen run t.runs t.seen } else t

-- prevCount; the error of its query is ignored.
abbrev pub previous : Env → Tables → ℕ
previous env t = if env.previous_exec then previous_count env.vendor t.runs none else 0

-- The cleanup switch: rows left, and deletions.
unfoldable pub cleanup : Env → ℕ → ℕ → ℕ → Tables → List Row × ℕ
cleanup env run start total t =
    if ltb 0 env.failed_services
    then (t.rows, 0)
    else if ltb 0 (previous env t) && ltb total (previous env t / 2)
    then (t.rows, 0)
    else delete_stale_if_seen_set_complete env run start total t

-- From the end of the scrape on.
unfoldable pub conclude : Env → ℕ → ℕ → Tables × ℕ → Tables × Outcome
unfolding finish prune clear
conclude env run start (t, total) =
    if env.scrape_error
    then (clear env run (finish env run Status.failed total 0 t), error scrape_failed)
    else elim (empty_scrape_error total env.failed_services) [
      | some e ↦ (clear env run (finish env run Status.failed 0 0 t), produced false)
      | none ↦
          let (rows, deleted) = cleanup env run start total t in
          (
            clear env run (
                prune env (finish env run Status.success total deleted (record t { rows = rows }))),
            produced true,
          )
    ]

-- With the lock held and the start known.
run_locked : Env → ℕ → Option ℕ → Tables → Tables × Outcome
run_locked env start none t = (t, error record_failed)
run_locked env start (some run) t =
    conclude env run start (
      handle_all run env.events (record t { runs = start_scrape_run run env.vendor start t.runs })
        0)

run_timed : Env → Option ℕ → Tables → Tables × Outcome
unfolding run_locked
run_timed env none t = (t, error time_failed)
run_timed env (some start) t = run_locked env start env.run_id t

-- `lock` is none if the lock cannot be asked for, and false if another session holds it.
unfoldable pub run_one_scrape : Env → Tables → Tables × Outcome
unfolding run_timed
run_one_scrape env t = elim env.lock [
  | none ↦ (t, error lock_failed)
  | some held ↦ if held then run_timed env env.start_time t else (t, produced true)
]
