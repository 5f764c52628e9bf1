-- ===== src/Scraper/Group/Regions.antt =====
-- AWS: a service or region that was not fetched, parsed or written is reported.
use mathlib.Core.List.{Memᴰ}
use mathlib.Core.List.Memᴰ.{head, tail}
use c3x_pricing_api.Base.{
  ℕ, ◌+◌, ◌<◌, ◌≤◌, ◌≡◌, ◌⊎◌, inl, inr, refl, subst, List, [], ◌∷◌, ◌++◌, Option, Bool-cases, none,
  some, Bool, true, false, ◌==◌, arith,
}
use c3x_pricing_api.Db.Types.{Product}
use c3x_pricing_api.Scraper.Group.{
  Scraped, got, lost, Group, scrape_services, Region, Stream, stream_region, stream_regions,
  stream_ec2, scrape_aws, after_services,
}
use c3x_pricing_api.Scraper.Group.Flagged.{IsFlagged, run_one_scrape-IsFlagged}
use c3x_pricing_api.Scrape.{Tables, Env, handle_all, run_one_scrape}
use c3x_pricing_api.Scrape.Safety.{opened}

-- The region's products were not fetched or parsed, or not written.
abbrev pub IsMissed : Region → Type 0
IsMissed r =
    (r.scraped ≡ lost)
    ⊎ ((r.handler_ok ≡ false) × ((p : Product) × (ps : List Product) × (r.scraped ≡ got (p ∷ ps))))

stream_region_mono : (s : Stream) (r : Region) → s.total_failed ≤ (stream_region s r).total_failed
unfolding stream_region
stream_region_mono s r = go r.scraped
  where
    go : (x : Scraped) → s.total_failed ≤ (stream_region s (record r { scraped = x })).total_failed
    go (got []) = omega arith
    go (got (p ∷ ps)) = ground arith
    go lost = omega arith

stream_region-missed :
    (s : Stream) (r : Region) → IsMissed r → s.total_failed < (stream_region s r).total_failed
unfolding stream_region
stream_region-missed s r (inl e) = ground (arith, e)
stream_region-missed s r (inr (bad, (p, ps, e))) = ground (arith, e, bad)

stream_regions_mono :
    (rs : List Region) (s : Stream) → s.total_failed ≤ (stream_regions rs s).total_failed
unfolding stream_regions
stream_regions_mono [] s = omega arith
stream_regions_mono (r ∷ rs) s =
    omega (arith, stream_regions_mono rs (stream_region s r), stream_region_mono s r)

stream_regions-missed :
    (rs : List Region) (s : Stream) (r : Region)
    → Memᴰ r rs
    → IsMissed r
    → 0 < (stream_regions rs s).total_failed
unfolding stream_regions
stream_regions-missed [] s r m h = elim m [ ]
stream_regions-missed (x ∷ rs) s r (head same) h = omega (
  arith,
  stream_regions_mono rs (stream_region s x),
  stream_region-missed s x (subst IsMissed same h),
)
stream_regions-missed (x ∷ rs) s r (tail m) h = stream_regions-missed rs (stream_region s x) r m h

scrape_services_mono :
    (tasks : List Scraped) (all : List Product) (failed : ℕ)
    → failed ≤ (scrape_services tasks all failed).1
unfolding scrape_services
scrape_services_mono [] all failed = omega arith
scrape_services_mono (got ps ∷ tasks) all failed = scrape_services_mono tasks (all ++ ps) failed
scrape_services_mono (lost ∷ tasks) all failed =
    omega (arith, scrape_services_mono tasks all (failed + 1))

scrape_services-lost :
    (tasks : List Scraped) (all : List Product) (failed : ℕ)
    → Memᴰ lost tasks
    → 0 < (scrape_services tasks all failed).1
unfolding scrape_services
scrape_services-lost [] all failed m = elim m [ ]
scrape_services-lost (lost ∷ tasks) all failed m =
    omega (arith, scrape_services_mono tasks all (failed + 1))
scrape_services-lost (got ps ∷ tasks) all failed (head e) = cc
scrape_services-lost (got ps ∷ tasks) all failed (tail m) =
    scrape_services-lost tasks (all ++ ps) failed m

-- What a run of the scraper did not see: a service, the index, or a region.
abbrev pub MissesSome : List Scraped → Option (List Region) → Type 0
MissesSome tasks none = Unit
MissesSome tasks (some regions) = Memᴰ lost tasks ⊎ ((r : Region) × Memᴰ r regions × IsMissed r)

stream_ec2-IsFlagged :
    (index : Option (List Region)) (g : Group) → 0 < g.failed → IsFlagged (stream_ec2 index g)
unfolding stream_ec2
stream_ec2-IsFlagged none g h = inl refl
stream_ec2-IsFlagged (some regions) g h = inr (ground arith)

stream_ec2-missed :
    (regions : List Region) (g : Group) (r : Region)
    → Memᴰ r regions
    → IsMissed r
    → IsFlagged (stream_ec2 (some regions) g)
unfolding stream_ec2
stream_ec2-missed regions g r m h =
    let s : Stream = record { calls = g.calls; total_products = 0; total_failed = 0 } in
    let some_failed = stream_regions-missed regions s r m h in
    elim (Bool-cases ((stream_regions regions s).total_products == 0)) [
      | inl e ↦ inl (ground (arith, e, some_failed))
      | inr e ↦ inr (ground (arith, e, some_failed))
    ]

-- The same, whatever the services without EC2 came to.
after_services-IsFlagged :
    (ok : Bool) (index : Option (List Region)) (r : List Product × ℕ)
    → ((g : Group) → g.failed ≡ r.1 → IsFlagged (stream_ec2 index g))
    → IsFlagged (after_services ok index r)
unfolding after_services
after_services-IsFlagged ok index ([], failed) h = h _ refl
after_services-IsFlagged true index (p ∷ ps, failed) h = h _ refl
after_services-IsFlagged false index (p ∷ ps, failed) h = inl refl

pub scrape_aws-IsFlagged :
    (tasks : List Scraped) (ok : Bool) (index : Option (List Region))
    → MissesSome tasks index
    → IsFlagged (scrape_aws tasks ok index)
unfolding scrape_aws
scrape_aws-IsFlagged tasks ok index missed =
    after_services-IsFlagged ok index (scrape_services tasks [] 0) (flags index missed)
  where
    flags :
        (index : Option (List Region))
        → MissesSome tasks index
        → (g : Group) → g.failed ≡ (scrape_services tasks [] 0).1
        → IsFlagged (stream_ec2 index g)
    flags none missed g e = unfold stream_ec2 in inl refl
    flags (some regions) (inl m) g e =
        stream_ec2-IsFlagged (some regions) g (rw e (scrape_services-lost tasks [] 0 m))
    flags (some regions) (inr (r, m, h)) g e = stream_ec2-missed regions g r m h

-- A run of the AWS scraper that did not see a service or a region of EC2, or could not write the
-- products of a region, or did not get the index of regions, deletes no row: the rows at its end
-- are those that its handler calls left.
pub run_one_scrape-missed_region :
    (env : Env) (t : Tables) (start run : ℕ) (tasks : List Scraped) (ok : Bool)
    (index : Option (List Region))
    → env.lock ≡ some true
    → env.start_time ≡ some start
    → env.run_id ≡ some run
    → env.scrape_error ≡ (scrape_aws tasks ok index).error
    → env.failed_services ≡ (scrape_aws tasks ok index).failed
    → MissesSome tasks index
    → let (t₁, total) = handle_all run env.events (opened env start run t) 0 in
      (run_one_scrape env t).0.rows ≡ t₁.rows
run_one_scrape-missed_region env t start run tasks ok index lock time id error failed missed =
    run_one_scrape-IsFlagged env t start run (scrape_aws tasks ok index) lock time id error failed
      (scrape_aws-IsFlagged tasks ok index missed)
