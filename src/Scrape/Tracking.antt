-- ===== src/Scrape/Tracking.antt =====
-- What a run has handled stays stored and marked, as long as PostgreSQL does not crash and
-- the reaper does not take the run for stale.
use c3x_pricing_api.Base.{
  ℕ, ◌-◌, ◌<◌, ◌≤◌, ◌≡◌, ◌≢◌, sym, ap, ◌∙◌, String, List, [], ◌∷◌, ◌++◌, Bool, true, arith, is_some,
  All,
}
use c3x_pricing_api.Db.Types.{Product}
use c3x_pricing_api.Db.Store.{Seen, Written, ok, failed, upsert_products, mark_seen}
use c3x_pricing_api.Db.Store.Rows.{first_with}
use c3x_pricing_api.Db.Store.Batches.{upsert_products-writes}
use c3x_pricing_api.Db.Store.Presence.{
  Holds, IsSeen, rows_of, upsert_products-Holds, upsert_products-Holds_first, mark_rows-IsSeen,
  mark_rows-IsSeen_first,
}
use c3x_pricing_api.Db.Runs.{clear_seen, reap_stale_scrape_runs}
use c3x_pricing_api.Db.Runs.SeenSet.{at_work, at_work-runs_on, at_work-reap, clear_seen-running}
use c3x_pricing_api.Scrape.{
  Tables, Call, Event, call, crash, cleared, reaped, reap_timeout, mark, after_mark, after_upsert,
  handle, handle_all,
}

-- A hash that the run has stored and marked.
abbrev pub Tracked : ℕ → String → Tables → Type 0
Tracked run k t = Holds k t.rows × IsSeen run k t.seen

abbrev pub HasHash : String → List Product → Type 0
HasHash k ps = is_some (first_with k ps) ≡ true

-- All statements of the call succeed.
abbrev pub Succeeds : Call → Type 0
Succeeds c = ((i : ℕ) → c.upsert_exec i ≡ true) × (c.mark_exec ≡ true)

abbrev pub NoCrash : Event → Type 0
NoCrash crash = ⊥
NoCrash _ = Unit

-- What other sessions do leaves the run alone: a run that clears is another one, and the reaper
-- comes before the run is older than its timeout.
abbrev pub Spares : ℕ → ℕ → Event → Type 0
Spares run start (cleared other) = other ≢ run
Spares run start (reaped now) = now - reap_timeout ≤ start
Spares run start _ = Unit

mark_seen-IsSeen :
    (run j : ℕ) (k : String) (ps : List Product) (seen : List Seen)
    → IsSeen j k seen
    → IsSeen j k (mark_seen run ps seen)
unfolding mark_seen
mark_seen-IsSeen run j k ps seen h = ground (arith, mark_rows-IsSeen run ps j k seen h)

after_mark-Tracked :
    (exec : Bool) (run : ℕ) (k : String) (ps : List Product) (t : Tables)
    → Tracked run k t
    → Tracked run k (after_mark t (mark exec run ps t.seen)).0
unfolding after_mark mark
after_mark-Tracked exec run k [] t h = h
after_mark-Tracked exec run k (p ∷ ps) t h =
    ground (arith, h, mark_seen-IsSeen run run k (p ∷ ps) t.seen)

after_upsert-Tracked :
    (run : ℕ) (k : String) (c : Call) (t : Tables) (w : Written)
    → Holds k (rows_of w)
    → IsSeen run k t.seen
    → Tracked run k (after_upsert run c t w).0
unfolding after_upsert
after_upsert-Tracked run k c t (failed rows) h s = (h, s)
after_upsert-Tracked run k c t (ok rows) h s =
    after_mark-Tracked c.mark_exec run k c.products (record t { rows = rows }) (h, s)

handle-Tracked :
    (run : ℕ) (k : String) (c : Call) (t : Tables)
    → Tracked run k t
    → Tracked run k (handle run c t).0
unfolding handle
handle-Tracked run k c t (h, s) =
    after_upsert-Tracked run k c t (upsert_products c.upsert_exec c.now c.products t.rows)
      (upsert_products-Holds c.upsert_exec c.now c.products k t.rows h) s

mark-Tracked_first :
    (run : ℕ) (k : String) (ps : List Product) (t : Tables)
    → 0 < run
    → Holds k t.rows
    → HasHash k ps
    → Tracked run k (after_mark t (mark true run ps t.seen)).0
unfolding after_mark mark mark_seen first_with
mark-Tracked_first run k [] t pos h first = cc
mark-Tracked_first run k (p ∷ ps) t pos h first =
    ground (arith, h, mark_rows-IsSeen_first run (p ∷ ps) k t.seen first)

-- A successful call leaves each of its hashes stored and marked.
handle-Tracked_first :
    (run : ℕ) (k : String) (c : Call) (t : Tables)
    → 0 < run
    → Succeeds c
    → HasHash k c.products
    → Tracked run k (handle run c t).0
unfolding handle after_upsert
handle-Tracked_first run k c t pos (upserts, marks) first =
    let (rows, done, _) = upsert_products-writes c.upsert_exec c.now c.products t.rows upserts in
    let held =
      upsert_products-Holds_first c.upsert_exec c.now c.products k t.rows rows done first in
    let marked = mark-Tracked_first run k c.products (record t { rows = rows }) pos held first in
    rw (done, after_upsert) (rw marks marked)

-- No handler call writes to scrape_runs.
pub handle-runs : (run : ℕ) (c : Call) (t : Tables) → (handle run c t).0.runs ≡ t.runs
unfolding handle after_upsert after_mark
handle-runs run c t = ground arith

handle-at_work :
    (run start : ℕ) (c : Call) (t : Tables)
    → at_work run start t.runs ≡ true
    → at_work run start (handle run c t).0.runs ≡ true
handle-at_work run start c t on = ap (at_work run start) (handle-runs run c t) ∙ on

pub handle_all-Tracked :
    (run start : ℕ) (k : String) (events : List Event) (t : Tables) (total : ℕ)
    → All NoCrash events
    → All (Spares run start) events
    → at_work run start t.runs ≡ true
    → Tracked run k t
    → Tracked run k (handle_all run events t total).0
unfolding handle_all
handle_all-Tracked run start k [] t total up spared on h = h
handle_all-Tracked run start k (crash ∷ events) t total up spared on h = absurd (up.0)
handle_all-Tracked run start k (cleared other ∷ events) t total (_, up) (ne, spared) on (h, s) =
    let kept =
      clear_seen-running other run t.runs t.seen k (λ e. ne (sym e))
        (at_work-runs_on run start t.runs on) in
    handle_all-Tracked run start k events (record t { seen = clear_seen other t.runs t.seen }) total
      up spared on (h, kept ∙ s)
handle_all-Tracked run start k (reaped now ∷ events) t total (_, up) (young, spared) on h =
    handle_all-Tracked run start k events
      (record t { runs = reap_stale_scrape_runs now reap_timeout t.runs }) total up spared
      (at_work-reap now reap_timeout run start t.runs young on) h
handle_all-Tracked run start k (call c ∷ events) t total (_, up) (_, spared) on h =
    handle_all-Tracked run start k events (handle run c t).0 _ up spared
      (handle-at_work run start c t on) (handle-Tracked run k c t h)

-- Whatever came before it, a successful call with no crash after it has its hashes tracked at the
-- end of the scrape.
pub handle_all-Tracked_first :
    (run start : ℕ) (k : String) (before after : List Event) (c : Call) (t : Tables) (total : ℕ)
    → 0 < run
    → All NoCrash after
    → All (Spares run start) (before ++ call c ∷ after)
    → at_work run start t.runs ≡ true
    → Succeeds c
    → HasHash k c.products
    → Tracked run k (handle_all run (before ++ call c ∷ after) t total).0
unfolding handle_all
handle_all-Tracked_first run start k [] after c t total pos up (_, spared) on good first =
    handle_all-Tracked run start k after (handle run c t).0 _ up spared
      (handle-at_work run start c t on) (handle-Tracked_first run k c t pos good first)
handle_all-Tracked_first run start k (crash ∷ before) after c t total pos up (_, spared) on good
      first =
    handle_all-Tracked_first run start k before after c (record t { seen = [] }) total pos up spared
      on good first
handle_all-Tracked_first run start k (cleared other ∷ before) after c t total pos up (_, spared) on
      good first =
    handle_all-Tracked_first run start k before after c
      (record t { seen = clear_seen other t.runs t.seen }) total pos up spared on good first
handle_all-Tracked_first run start k (reaped now ∷ before) after c t total pos up (young, spared) on
      good first =
    handle_all-Tracked_first run start k before after c
      (record t { runs = reap_stale_scrape_runs now reap_timeout t.runs }) total pos up spared
      (at_work-reap now reap_timeout run start t.runs young on) good first
handle_all-Tracked_first run start k (call d ∷ before) after c t total pos up (_, spared) on good
      first =
    handle_all-Tracked_first run start k before after c (handle run d t).0 _ pos up spared
      (handle-at_work run start d t on) good first
