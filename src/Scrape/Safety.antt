-- ===== src/Scrape/Safety.antt =====
-- The cleanup of a run deletes no product that the run saw.
use c3x_pricing_api.Base.{ℕ, ◌<◌, ◌≡◌, sym, subst, String, some, List, ◌∷◌, ◌++◌, true, arith, All}
use c3x_pricing_api.Db.Store.Presence.{Holds, delete_stale_products-Holds}
use c3x_pricing_api.Db.Runs.{start_scrape_run}
use c3x_pricing_api.Db.Runs.SeenSet.{at_work-start}
use c3x_pricing_api.Scrape.{
  Tables, Call, Event, call, Env, handle_all, delete_stale_if_seen_set_complete, cleanup, conclude,
  run_one_scrape,
}
use c3x_pricing_api.Scrape.Tracking.{
  Tracked, HasHash, Succeeds, NoCrash, Spares, handle_all-Tracked_first,
}

cleanup-Holds :
    (env : Env) (run start total : ℕ) (k : String) (t : Tables)
    → Tracked run k t
    → Holds k (cleanup env run start total t).0
unfolding cleanup delete_stale_if_seen_set_complete
cleanup-Holds env run start total k t (h, s) =
    ground (arith, h, delete_stale_products-Holds env.vendor run start t.seen k t.rows s h)

conclude-Holds :
    (env : Env) (run start : ℕ) (k : String) (r : Tables × ℕ)
    → Tracked run k r.0
    → Holds k (conclude env run start r).0.rows
unfolding conclude
conclude-Holds env run start k (t, total) h =
    ground (arith, h, cleanup-Holds env run start total k t h)

abbrev pub opened : Env → ℕ → ℕ → Tables → Tables
opened env start run t = record t { runs = start_scrape_run run env.vendor start t.runs }

-- With the lock held, a run handles the events and concludes.
pub run_one_scrape-conclude :
    (env : Env) (t : Tables) (start run : ℕ)
    → env.lock ≡ some true
    → env.start_time ≡ some start
    → env.run_id ≡ some run
    → run_one_scrape env t
      ≡ conclude env run start (handle_all run env.events (opened env start run t) 0)
unfolding run_one_scrape
run_one_scrape-conclude env t start run lock time id = ground (arith, lock, time, id)

-- A run that holds the lock keeps every product of a handler call whose statements succeeded and
-- that no crash of PostgreSQL followed: its hash is stored at the end, whatever the run's outcome.
-- Other runs may clear the seen-set at any time, and the reaper may come until the run is 6 hours
-- old.
pub run_one_scrape-keeps_seen :
    (env : Env) (t : Tables) (start run : ℕ) (before after : List Event) (c : Call) (k : String)
    → env.lock ≡ some true
    → env.start_time ≡ some start
    → env.run_id ≡ some run
    → 0 < run
    → env.events ≡ before ++ call c ∷ after
    → All NoCrash after
    → All (Spares run start) (before ++ call c ∷ after)
    → Succeeds c
    → HasHash k c.products
    → Holds k (run_one_scrape env t).0.rows
run_one_scrape-keeps_seen env t start run before after c k lock time id pos e up spared good first =
    let t₁ = opened env start run t in
    let on = at_work-start run start env.vendor t.runs in
    let tracked : Tracked run k (handle_all run env.events t₁ 0).0 =
      subst (λ events. Tracked run k (handle_all run events t₁ 0).0) (sym e)
        (handle_all-Tracked_first run start k before after c t₁ 0 pos up spared on good first) in
    subst (λ r. Holds k r.0.rows) (sym (run_one_scrape-conclude env t start run lock time id))
      (conclude-Holds env run start k (handle_all run env.events t₁ 0) tracked)
