-- ===== src/Scraper/Group/Flagged.antt =====
-- What a scrape did not see is reported, so that the run deletes nothing.
use mathlib.Core.List.{Memᴰ}
use mathlib.Core.List.Memᴰ.{head, tail}
use c3x_pricing_api.Base.{ℕ, ◌<◌, ◌≡◌, ◌⊎◌, inl, inr, List, [], ◌∷◌, some, true, arith}
use c3x_pricing_api.Scraper.Group.{Scraped, got, lost, Task, Group, fresh, run_task, run_tasks}
use c3x_pricing_api.Scrape.{Tables, Env, handle_all, run_one_scrape}
use c3x_pricing_api.Scrape.Safety.{opened}
use c3x_pricing_api.Scrape.Guards.{run_one_scrape-guarded}

-- The scrape returned an error, or counts a failed service.
abbrev pub IsFlagged : Group → Type 0
IsFlagged g = (g.error ≡ true) ⊎ (0 < g.failed)

run_task-IsFlagged : (g : Group) (t : Task) → IsFlagged g → IsFlagged (run_task g t)
unfolding run_task
run_task-IsFlagged g t h = go t.scraped h
  where
    go : (s : Scraped) → IsFlagged g → IsFlagged (run_task g (record t { scraped = s }))
    go (got []) h = h
    go (got (p ∷ ps)) h = ground (arith, h)
    go lost h = ground (arith, h)

run_task-lost : (g : Group) (t : Task) → t.scraped ≡ lost → IsFlagged (run_task g t)
unfolding run_task
run_task-lost g t e = ground (arith, e)

pub run_tasks-IsFlagged :
    (tasks : List Task) (g : Group) → IsFlagged g → IsFlagged (run_tasks tasks g)
unfolding run_tasks
run_tasks-IsFlagged [] g h = h
run_tasks-IsFlagged (t ∷ tasks) g h = run_tasks-IsFlagged tasks _ (run_task-IsFlagged g t h)

pub run_tasks-lost :
    (tasks : List Task) (g : Group) (t : Task)
    → Memᴰ t tasks
    → t.scraped ≡ lost
    → IsFlagged (run_tasks tasks g)
unfolding run_tasks
run_tasks-lost [] g t m e = elim m [ ]
run_tasks-lost (x ∷ tasks) g t (head same) e =
    run_tasks-IsFlagged tasks _ (run_task-lost g x (rw same at e))
run_tasks-lost (x ∷ tasks) g t (tail m) e = run_tasks-lost tasks _ t m e

-- A flagged scrape deletes nothing.
pub run_one_scrape-IsFlagged :
    (env : Env) (t : Tables) (start run : ℕ) (g : Group)
    → env.lock ≡ some true
    → env.start_time ≡ some start
    → env.run_id ≡ some run
    → env.scrape_error ≡ g.error
    → env.failed_services ≡ g.failed
    → IsFlagged g
    → let (t₁, total) = handle_all run env.events (opened env start run t) 0 in
      (run_one_scrape env t).0.rows ≡ t₁.rows
run_one_scrape-IsFlagged env t start run g lock time id error failed flagged =
    elim (run_one_scrape-guarded env t start run lock time id) [
      | inl kept ↦ kept
      | inr (trusted, _) ↦ elim flagged [
        | inl e ↦ cc (e, error, trusted.no_error)
        | inr pos ↦ absurd (omega (arith, failed, trusted.no_failures))
      ]
    ]

-- A run of the Azure scraper in which one service's scrape failed deletes no row: the rows
-- at its end are those that its handler calls left.
pub run_one_scrape-lost_service :
    (env : Env) (t : Tables) (start run : ℕ) (tasks : List Task) (task : Task)
    → let g = run_tasks tasks fresh in
      env.lock ≡ some true
      → env.start_time ≡ some start
      → env.run_id ≡ some run
      → env.scrape_error ≡ g.error
      → env.failed_services ≡ g.failed
      → Memᴰ task tasks
      → task.scraped ≡ lost
      → let (t₁, total) = handle_all run env.events (opened env start run t) 0 in
        (run_one_scrape env t).0.rows ≡ t₁.rows
run_one_scrape-lost_service env t start run tasks task lock time id error failed m e =
    run_one_scrape-IsFlagged env t start run (run_tasks tasks fresh) lock time id error failed
      (run_tasks-lost tasks fresh task m e)
