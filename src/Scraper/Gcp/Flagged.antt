-- ===== src/Scraper/Gcp/Flagged.antt =====
-- What a scrape of GCP did not see is reported, so that the run deletes nothing.
use mathlib.Core.List.{Memᴰ}
use mathlib.Core.List.Memᴰ.{head, tail}
use c3x_pricing_api.Base.{
  ℕ, String, List, [], ◌∷◌, some, ◌≡◌, ◌≢◌, ◌⊎◌, inl, inr, refl, ap, Bool, true, false, map, str_eq,
  if◌then◌else◌, sym, subst, arith,
}
use c3x_pricing_api.Db.Types.{Product}
use c3x_pricing_api.Scraper.Group.{lost, Group, fresh, call_handler, run_tasks}
use c3x_pricing_api.Scraper.Group.Flagged.{IsFlagged, run_tasks-lost, run_one_scrape-IsFlagged}
use c3x_pricing_api.Scraper.Gcp.{Library}
use c3x_pricing_api.Scraper.Gcp.Synthesize.{synthesize}
use c3x_pricing_api.Scraper.Gcp.MachineTypes.{gcp_families}
use c3x_pricing_api.Scraper.Gcp.Targets.{GcpTask, compute_products, scrape_gcp}
use c3x_pricing_api.Scrape.{Tables, Env, handle_all, run_one_scrape}
use c3x_pricing_api.Scrape.Safety.{opened}

call_handler-IsFlagged :
    (g : Group) (ok : Bool) (ps : List Product) → IsFlagged g → IsFlagged (call_handler g ok ps)
call_handler-IsFlagged g ok [] h = h
call_handler-IsFlagged g ok (p ∷ ps) h = ground (arith, h)

choose-IsFlagged :
    (b : Bool) (g h : Group) → IsFlagged g → IsFlagged h → IsFlagged (if b then g else h)
choose-IsFlagged true g h p q = p
choose-IsFlagged false g h p q = q

Mem-task :
    (tasks : List GcpTask) (t : GcpTask)
    → Memᴰ t tasks
    → Memᴰ t.task (map (λ (t : GcpTask). t.task) tasks)
Mem-task [] t m = elim m [ ]
Mem-task (x ∷ tasks) t (head same) = head (ap (λ (t : GcpTask). t.task) same)
Mem-task (x ∷ tasks) t (tail m) = tail (Mem-task tasks t m)

call_handler-refused :
    (g : Group) (ps : List Product) → ps ≢ [] → IsFlagged (call_handler g false ps)
call_handler-refused g [] ne = absurd (ne refl)
call_handler-refused g (p ∷ ps) ne = ground arith

refused-IsFlagged :
    (b : Bool) (g : Group) (ps : List Product)
    → g.error ≡ b
    → ps ≢ []
    → IsFlagged (if b then g else call_handler g false ps)
refused-IsFlagged true g ps e ne = inl e
refused-IsFlagged false g ps e ne = call_handler-refused g ps ne

-- What a scrape of GCP can miss: a service, or the machine types, which the handler did not take.
abbrev pub Misses : Library → List GcpTask → Bool → Type 0
Misses lib tasks handler_ok =
    ((t : GcpTask) × Memᴰ t tasks × (t.task.scraped ≡ lost))
    ⊎ ((handler_ok ≡ false) × (synthesize lib (compute_products tasks) gcp_families ≢ []))

scrape_gcp-IsFlagged :
    (lib : Library) (api_key : String) (tasks : List GcpTask) (ok : Bool)
    → Misses lib tasks ok
    → IsFlagged (scrape_gcp lib api_key tasks ok)
unfolding scrape_gcp
scrape_gcp-IsFlagged lib api_key tasks ok missed =
    let g = run_tasks (map (λ (t : GcpTask). t.task) tasks) fresh in
    let types = synthesize lib (compute_products tasks) gcp_families in
    let whole = call_handler g ok types in
    choose-IsFlagged (str_eq api_key "") (record fresh { error = true })
      (if g.error then g else whole) (inl refl)
      (elim missed [
        | inl (t, m, e) ↦
            let flagged = run_tasks-lost _ fresh t.task (Mem-task tasks t m) e in
            choose-IsFlagged g.error g whole flagged (call_handler-IsFlagged g ok types flagged)
        | inr (e, ne) ↦
            subst (λ o. IsFlagged (if g.error then g else call_handler g o types)) (sym e)
              (refused-IsFlagged g.error g types refl ne)
      ])

-- A run of the GCP scraper in which a service's scrape failed, or in which the handler refused the
-- machine types, deletes no row: the rows at its end are those that its handler calls left.
pub run_one_scrape-missed_gcp :
    (env : Env) (t : Tables) (start run : ℕ) (lib : Library) (api_key : String)
    (tasks : List GcpTask) (handler_ok : Bool)
    → let g = scrape_gcp lib api_key tasks handler_ok in
      env.lock ≡ some true
      → env.start_time ≡ some start
      → env.run_id ≡ some run
      → env.scrape_error ≡ g.error
      → env.failed_services ≡ g.failed
      → Misses lib tasks handler_ok
      → let (t₁, total) = handle_all run env.events (opened env start run t) 0 in
        (run_one_scrape env t).0.rows ≡ t₁.rows
run_one_scrape-missed_gcp env t start run lib api_key tasks ok lock time id error failed missed =
    run_one_scrape-IsFlagged env t start run (scrape_gcp lib api_key tasks ok) lock time id error
      failed (scrape_gcp-IsFlagged lib api_key tasks ok missed)
