-- ===== src/Scrape/Records.antt =====
-- What a run records in scrape_runs, and what it leaves of the seen-set.
use c3x_pricing_api.Base.{
  ℕ, ◌<◌, ◌≡◌, ◌↔◌, refl, sym, subst, ◌⊎◌, inl, inr, ap, ◌∙◌, String, Option, none, some, List, [],
  ◌∷◌, true, false, arith, if◌then◌else◌, ltb, ◌==◌,
}
use c3x_pricing_api.Db.Store.{Seen}
use c3x_pricing_api.Db.Runs.{
  Run, Status, running, success, failed, start_scrape_run, finish_scrape_run, prune_scrape_runs,
  clear_seen, reap_stale_scrape_runs,
}
use c3x_pricing_api.Scrape.{
  Tables, Event, call, crash, cleared, reaped, reap_timeout, Env, produced, handle, handle_all,
  count_seen, cleanup, conclude, empty_scrape_error, run_one_scrape,
}
use c3x_pricing_api.Scrape.Tracking.{handle-runs}
use c3x_pricing_api.Scrape.Safety.{opened, run_one_scrape-conclude}

unfoldable pub find_run : ℕ → List Run → Option Run
find_run id [] = none
find_run id (r ∷ runs) = if r.id == id then some r else find_run id runs

abbrev pub started : ℕ → String → ℕ → Run
started id vendor start = record {
  id = id;
  vendor = vendor;
  started_at = start;
  finished_at = none;
  status = running;
  products = 0;
  deleted = 0;
}

find_run-start :
    (id : ℕ) (vendor : String) (start : ℕ) (runs : List Run)
    → find_run id runs ≡ none
    → find_run id (start_scrape_run id vendor start runs) ≡ some (started id vendor start)
unfolding find_run start_scrape_run
find_run-start id vendor start [] h = ground arith
find_run-start id vendor start (r ∷ runs) h = ground (arith, find_run-start id vendor start runs)

abbrev pub finished : ℕ → Status → ℕ → ℕ → Run → Run
finished now status products deleted r = record r {
  finished_at = some now;
  status = status;
  products = products;
  deleted = deleted;
}

find_run-finish :
    (now id : ℕ) (status : Status) (products deleted : ℕ) (runs : List Run) (r : Run)
    → find_run id runs ≡ some r
    → find_run id (finish_scrape_run now id status products deleted runs)
      ≡ some (finished now status products deleted r)
unfolding find_run finish_scrape_run
find_run-finish now id status products deleted [] r h = cc
find_run-finish now id status products deleted (q ∷ runs) r h =
    ground (arith, find_run-finish now id status products deleted runs r)

find_run-prune :
    (now retain id : ℕ) (runs : List Run) (r : Run)
    → find_run id runs ≡ some r
    → r.finished_at ≡ some now
    → find_run id (prune_scrape_runs now retain runs) ≡ some r
unfolding find_run prune_scrape_runs
find_run-prune now retain id [] r h e = cc
find_run-prune now retain id (q ∷ runs) r h e = ground (arith, find_run-prune now retain id runs r)

-- The row of the run, as it is or as the reaper has left it.
abbrev IsAtWork : Run → Option Run → Type 0
IsAtWork r found =
    (status : Status) × (time : Option ℕ) × (found
      ≡ some (record r { finished_at = time; status = status }))

find_run-reap :
    (now timeout id : ℕ) (runs : List Run) (q : Run)
    → find_run id runs ≡ some q
    → (find_run id (reap_stale_scrape_runs now timeout runs) ≡ some q)
      ⊎ (find_run id (reap_stale_scrape_runs now timeout runs)
          ≡ some (record q { status = failed; finished_at = some now }))
unfolding find_run reap_stale_scrape_runs
find_run-reap now timeout id [] q h = cc
find_run-reap now timeout id (r ∷ runs) q h = ground (arith, h, find_run-reap now timeout id runs q)

reap-IsAtWork :
    (now timeout id : ℕ) (runs : List Run) (r : Run)
    → IsAtWork r (find_run id runs)
    → IsAtWork r (find_run id (reap_stale_scrape_runs now timeout runs))
reap-IsAtWork now timeout id runs r (status, time, h) =
    elim (find_run-reap now timeout id runs _ h) [
      | inl e ↦ (status, time, e)
      | inr e ↦ (failed, some now, e)
    ]

handle_all-IsAtWork :
    (run : ℕ) (events : List Event) (t : Tables) (total : ℕ) (r : Run)
    → IsAtWork r (find_run run t.runs)
    → IsAtWork r (find_run run (handle_all run events t total).0.runs)
unfolding handle_all
handle_all-IsAtWork run [] t total r h = h
handle_all-IsAtWork run (crash ∷ events) t total r h =
    handle_all-IsAtWork run events (record t { seen = [] }) total r h
handle_all-IsAtWork run (cleared other ∷ events) t total r h =
    handle_all-IsAtWork run events (record t { seen = clear_seen other t.runs t.seen }) total r h
handle_all-IsAtWork run (reaped now ∷ events) t total r h =
    handle_all-IsAtWork run events
      (record t { runs = reap_stale_scrape_runs now reap_timeout t.runs }) total r
      (reap-IsAtWork now reap_timeout run t.runs r h)
handle_all-IsAtWork run (call c ∷ events) t total r h =
    handle_all-IsAtWork run events (handle run c t).0 _ r
      (subst (λ runs. IsAtWork r (find_run run runs)) (sym (handle-runs run c t)) h)

-- The record of a run whose handler calls ingested `total` products.
abbrev pub recorded : Env → ℕ → ℕ → Run → Run
recorded env total deleted r =
    if env.scrape_error
    then finished env.finish_time failed total 0 r
    else if ltb 0 total
    then finished env.finish_time success total deleted r
    else finished env.finish_time failed 0 0 r

-- What the reaper wrote is written over.
recorded_again :
    (env : Env) (total deleted : ℕ) (r : Run) (status : Status) (time : Option ℕ)
    → recorded env total deleted (record r { finished_at = time; status = status })
      ≡ recorded env total deleted r
recorded_again env total deleted r status time = ground arith

conclude-find :
    (env : Env) (run start total : ℕ) (t : Tables) (r : Run)
    → env.finish_exec ≡ true
    → find_run run t.runs ≡ some r
    → find_run run (conclude env run start (t, total)).0.runs
      ≡ some (recorded env total (cleanup env run start total t).1 r)
unfolding conclude empty_scrape_error
conclude-find env run start total t r e h =
    let now = env.finish_time in
    let deleted = (cleanup env run start total t).1 in
    ground (
      arith,
      e,
      find_run-finish now run failed total 0 t.runs r h,
      find_run-finish now run failed 0 0 t.runs r h,
      find_run-finish now run success total deleted t.runs r h,
      find_run-prune now env.retention run (finish_scrape_run now run success total deleted t.runs)
          (finished now success total deleted r),
    )

conclude-produced_iff :
    (env : Env) (run start total : ℕ) (t : Tables)
    → ((conclude env run start (t, total)).1 ≡ produced true)
      ↔ ((env.scrape_error ≡ false) × (0 < total))
unfolding conclude empty_scrape_error
conclude-produced_iff env run start total t = ground arith

-- A run that holds the lock reports data exactly when the scraper returned no error and the handler
-- ingested something; if its row can be written, it is recorded then as a success with the number
-- of products ingested, and otherwise as failed. A new run's row is there also after pruning.
pub run_one_scrape-records :
    (env : Env) (t : Tables) (start run : ℕ)
    → env.lock ≡ some true
    → env.start_time ≡ some start
    → env.run_id ≡ some run
    → env.finish_exec ≡ true
    → find_run run t.runs ≡ none
    → let (t₁, total) = handle_all run env.events (opened env start run t) 0 in
      let (t', outcome) = run_one_scrape env t in
      (find_run run t'.runs
        ≡ some
            (recorded env total (cleanup env run start total t₁).1 (started run env.vendor start)))
      × ((outcome ≡ produced true) ↔ ((env.scrape_error ≡ false) × (0 < total)))
run_one_scrape-records env t start run lock at id e fresh =
    let (t₁, total) = handle_all run env.events (opened env start run t) 0 in
    let new = find_run-start run env.vendor start t.runs fresh in
    let (status, time, there) =
      handle_all-IsAtWork run env.events (opened env start run t) 0 (started run env.vendor start)
        (running, none, new) in
    rw (run_one_scrape-conclude env t start run lock at id) (
      conclude-find env run start total t₁ _ e there
          ∙ ap some (recorded_again env total _ (started run env.vendor start) status time),
      conclude-produced_iff env run start total t₁,
    )

count_seen-clear :
    (run : ℕ) (runs : List Run) (seen : List Seen) → count_seen run (clear_seen run runs seen) ≡ 0
unfolding count_seen clear_seen
count_seen-clear run runs [] = refl
count_seen-clear run runs (s ∷ seen) = ground (arith, count_seen-clear run runs seen)

conclude-cleared :
    (env : Env) (run start : ℕ) (r : Tables × ℕ)
    → env.clear_exec ≡ true
    → count_seen run (conclude env run start r).0.seen ≡ 0
unfolding conclude
conclude-cleared env run start (t, total) e = grind (arith, count_seen-clear)

-- However a run that holds the lock ends, it leaves no seen-set rows of its own, if the deferred
-- statement succeeds.
pub run_one_scrape-clears_seen :
    (env : Env) (t : Tables) (start run : ℕ)
    → env.lock ≡ some true
    → env.start_time ≡ some start
    → env.run_id ≡ some run
    → env.clear_exec ≡ true
    → count_seen run (run_one_scrape env t).0.seen ≡ 0
run_one_scrape-clears_seen env t start run lock time id e =
    rw (run_one_scrape-conclude env t start run lock time id)
      (conclude-cleared env run start (handle_all run env.events (opened env start run t) 0) e)
