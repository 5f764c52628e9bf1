-- ===== src/Graphql/Resolver.antt =====
-- internal/graphql/schema.go: the resolver of the `products` field. The database is a parameter:
-- what QueryProducts returns for a filter, rows and error together.
pub mod Laws
use c3x_pricing_api.Base.{String, ℕ, Option, none, some, List, [], ◌∷◌, length, if◌then◌else◌}
use c3x_pricing_api.Base.Int.{ℤ, pos}
use c3x_pricing_api.Db.Types.{Product, ProductFilter, effective_limit}
use c3x_pricing_api.Graphql.Value.{Fields}
use c3x_pricing_api.Graphql.Filter.{parse_product_filter, validate_product_filter}
use c3x_pricing_api.Graphql.Budget.{
  RequestBudget, BudgetError, Reservation, granted, refused, reserve, refund,
}

pub record QueryResult : Type 0 where
  pub products : List Product
  pub error : Option String

-- Rejected filters and spent budgets send no query.
pub data Outcome : Type 0 where
  filter_too_broad : Outcome
  over_budget : BudgetError → Outcome
  answered : QueryResult → Outcome

pub record Args : Type 0 where
  pub filter : Fields
  pub limit : Option ℤ
  pub offset : Option ℤ

abbrev or_zero : Option ℤ → ℤ
or_zero none = pos 0
or_zero (some n) = n

abbrev pub paged : ProductFilter → Option ℤ → Option ℤ → ProductFilter
paged f limit offset = record f { limit = or_zero limit; offset = or_zero offset }

abbrev pub Database : Type 0
Database = ProductFilter → QueryResult

-- After the reservation: query under the granted limit, and settle.
unfoldable pub fetch :
    Database → ProductFilter → RequestBudget → Reservation → RequestBudget × Outcome
fetch query f b (refused e) = (b, over_budget e)
fetch query f b (granted reserved) =
    let result = query (record f { limit = reserved }) in
    (refund b reserved (pos (length result.products)), answered result)

-- With no budget attached the resolver is unbounded.
spend : Database → ProductFilter → Option RequestBudget → Option RequestBudget × Outcome
unfolding fetch
spend query f none = (none, answered (query f))
spend query f (some b) =
    let (b', reservation) = reserve b (effective_limit f.limit) in
    let (b'', outcome) = fetch query f b' reservation in (some b'', outcome)

unfoldable pub resolve_products :
    Database → Option RequestBudget → Args → Option RequestBudget × Outcome
unfolding spend
resolve_products query budget args =
    let f = parse_product_filter args.filter in
    if validate_product_filter f
    then spend query (paged f args.limit args.offset) budget
    else (budget, filter_too_broad)

-- The `products` fields of one request, one after the other; the database may answer each anew.
unfoldable pub resolve_all :
    Option RequestBudget → List (Database × Args) → Option RequestBudget × List Outcome
resolve_all budget [] = (budget, [])
resolve_all budget ((query, args) ∷ fields) =
    let (budget', outcome) = resolve_products query budget args in
    let (budget'', outcomes) = resolve_all budget' fields in (budget'', outcome ∷ outcomes)
