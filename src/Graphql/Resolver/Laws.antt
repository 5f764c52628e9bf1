-- ===== src/Graphql/Resolver/Laws.antt =====
-- The resolvers of a request stay within its budget, whatever the database returns within LIMIT.
use c3x_pricing_api.Base.{
  ℕ, ◌+◌, ◌≤◌, ◌<◌, ◌≡◌, refl, subst, ◌≢◌, ◌↔◌, ◌⊎◌, Option, none, some, List, [], ◌∷◌, true,
  length, All, Bool-cases, inl, inr, arith,
}
use c3x_pricing_api.Base.Int.{pos, ◌≤ℤ◌}
use c3x_pricing_api.Db.Types.{ProductFilter, effective_limit}
use c3x_pricing_api.Graphql.Value.{get, as_string}
use c3x_pricing_api.Graphql.Filter.{is_blank, parse_product_filter, validate_product_filter}
use c3x_pricing_api.Graphql.Budget.{
  RequestBudget, new_request_budget, Reservation, granted, refused, reserve, refund,
}
use c3x_pricing_api.Graphql.Budget.Interleaving.{
  Request, start, refuse, settle, Reach, here, next, opened, Reach-within_budget,
  reserve-effective_limit,
}
use c3x_pricing_api.Graphql.Resolver.{
  Outcome, filter_too_broad, over_budget, answered, Args, Database, paged, fetch, spend,
  resolve_products, resolve_all,
}

-- PostgreSQL returns no more rows than the LIMIT of the query.
abbrev pub RespectsLimit : Database → Type 0
RespectsLimit query =
    (f : ProductFilter) → pos (length (query f).products) ≤ℤ effective_limit f.limit

abbrev pub rows_of : Outcome → ℕ
rows_of (answered result) = length result.products
rows_of _ = 0

abbrev pub queries_of : Outcome → ℕ
queries_of (answered result) = 1
queries_of _ = 0

abbrev pub total_rows : List Outcome → ℕ
total_rows [] = 0
total_rows (o ∷ os) = rows_of o + total_rows os

abbrev pub total_queries : List Outcome → ℕ
total_queries [] = 0
total_queries (o ∷ os) = queries_of o + total_queries os

-- The request after a resolver has returned, with none running.
abbrev after : Request → RequestBudget → Outcome → Request
after r b o = record {
  budget = b;
  running = [];
  returned = r.returned + rows_of o;
  queries = r.queries + queries_of o;
}

module _ (max_products max_queries : ℕ) (hp : 0 < max_products) (hq : 0 < max_queries) where
  fetch-Reach :
      (query : Database) (f : ProductFilter) (r : Request) (b : RequestBudget)
      (reservation : Reservation)
      → RespectsLimit query
      → r.running ≡ []
      → Reach (opened max_products max_queries) r
      → reserve r.budget (effective_limit f.limit) ≡ (b, reservation)
      → let (b', o) = fetch query f b reservation in
        Reach (opened max_products max_queries) (after r b' o)
  unfolding fetch
  fetch-Reach query f r b (refused e) ok idle path h =
      let same : record r { budget = b } ≡ after r b (over_budget e) = ground arith in
      subst (Reach (opened max_products max_queries)) same (next path (refuse f.limit e b h))
  fetch-Reach query f r b (granted n) ok idle path h =
      let rows : ℕ = length (query (record f { limit = n })).products in
      let exact = reserve-effective_limit max_products max_queries r f.limit n b hp hq path h in
      let within : pos rows ≤ℤ n =
        subst (λ m. pos rows ≤ℤ m) exact.1 (ok (record f { limit = n })) in
      let same : record r {
        budget = refund b n (pos rows);
        running = r.running;
        returned = r.returned + rows;
        queries = r.queries + 1;
      }
          ≡ after r (refund b n (pos rows)) (answered (query (record f { limit = n }))) =
        ground arith in
      subst (Reach (opened max_products max_queries)) same
        (next (next path (start f.limit n b h)) (settle [] r.running n rows refl within))

  resolve_products-Reach :
      (query : Database) (r : Request) (args : Args)
      → RespectsLimit query
      → r.running ≡ []
      → Reach (opened max_products max_queries) r
      → (b : RequestBudget) × ((resolve_products query (some r.budget) args).0 ≡ some b)
        × Reach
            (opened max_products max_queries)
            (after r b (resolve_products query (some r.budget) args).1)
  unfolding resolve_products
  resolve_products-Reach query r args ok idle path =
      elim (Bool-cases (validate_product_filter (parse_product_filter args.filter))) [
        | inl valid ↦
            let f = paged (parse_product_filter args.filter) args.limit args.offset in
            let (b, reservation) = reserve r.budget (effective_limit f.limit) in
            rw valid (
              (fetch query f b reservation).0,
              refl,
              fetch-Reach query f r b reservation ok idle path refl,
            )
        | inr broad ↦
            let same : r ≡ after r r.budget filter_too_broad = ground arith in
            rw broad (r.budget, refl, subst (Reach (opened max_products max_queries)) same path)
      ]

  resolve_all-Reach :
      (r : Request) (fields : List (Database × Args))
      → All (λ field. RespectsLimit field.0) fields
      → r.running ≡ []
      → Reach (opened max_products max_queries) r
      → (s : Request) × Reach (opened max_products max_queries) s
        × (s.returned ≡ r.returned + total_rows (resolve_all (some r.budget) fields).1)
        × (s.queries ≡ r.queries + total_queries (resolve_all (some r.budget) fields).1)
  unfolding resolve_all
  resolve_all-Reach r [] ok idle path = (r, path, omega arith, omega arith)
  resolve_all-Reach r ((query, args) ∷ fields) (ok, oks) idle path =
      let (b, same, path') = resolve_products-Reach query r args ok idle path in
      let o = (resolve_products query (some r.budget) args).1 in
      let (s, reached, rows, queries) = resolve_all-Reach (after r b o) fields oks refl path' in
      (s, reached, rw same (omega (arith, rows)), rw same (omega (arith, queries)))

-- If the database respects LIMIT, all `products` fields of one request together return at most
-- the cap on products, and send at most the cap on queries, for positive caps.
pub resolve_all-within_budget :
    (max_products max_queries : ℕ) (fields : List (Database × Args))
    → 0 < max_products
    → 0 < max_queries
    → All (λ field. RespectsLimit field.0) fields
    → let outcomes =
        (resolve_all (some (new_request_budget (pos max_products) (pos max_queries))) fields).1 in
      (total_rows outcomes ≤ max_products) × (total_queries outcomes ≤ max_queries)
resolve_all-within_budget p q fields hp hq ok =
    let (s, path, rows, queries) = resolve_all-Reach p q hp hq (opened p q) fields ok refl here in
    let bound = Reach-within_budget p q s hp hq path in
    (omega (arith, rows, bound.0), omega (arith, queries, bound.1))

fetch-ne-too_broad :
    (query : Database) (f : ProductFilter) (b : RequestBudget) (reservation : Reservation)
    → (fetch query f b reservation).1 ≢ filter_too_broad
unfolding fetch
fetch-ne-too_broad query f b (refused e) = ground arith
fetch-ne-too_broad query f b (granted n) = ground arith

spend-ne-too_broad :
    (query : Database) (f : ProductFilter) (budget : Option RequestBudget)
    → (spend query f budget).1 ≢ filter_too_broad
unfolding spend
spend-ne-too_broad query f none = ground arith
spend-ne-too_broad query f (some b) =
    let (b', reservation) = reserve b (effective_limit f.limit) in
    fetch-ne-too_broad query f b' reservation

-- The filter is refused as too broad, with the budget left as it was, exactly when its vendor or its
-- service is missing, no text, or empty.
pub resolve_products-too_broad_iff :
    (query : Database) (budget : Option RequestBudget) (args : Args)
    → (resolve_products query budget args ≡ (budget, filter_too_broad)) ↔ (
        (is_blank (as_string (get "vendorName" args.filter)) ≡ true)
        ⊎ (is_blank (as_string (get "service" args.filter)) ≡ true))
unfolding resolve_products parse_product_filter validate_product_filter
resolve_products-too_broad_iff query budget args =
    let f = parse_product_filter args.filter in
    ground (arith, spend-ne-too_broad query (paged f args.limit args.offset) budget)
