-- ===== src/Graphql/Budget.antt =====
-- internal/graphql/limits.go: the budget that one HTTP request may spend. The mutex makes each
-- operation one step; `Budget.Interleaving` runs them in any order.
pub mod Interleaving
use c3x_pricing_api.Base.{if◌then◌else◌}
use c3x_pricing_api.Base.Int.{ℤ, pos, negsuc, ◌+ℤ◌, ◌-ℤ◌, ltb_ℤ, leb_ℤ, eq_ℤ}

-- -1 means unlimited and 0 means spent.
pub record RequestBudget : Type 0 where
  pub products_left : ℤ
  pub queries_left : ℤ

unfoldable pub new_request_budget : ℤ → ℤ → RequestBudget
new_request_budget max_products max_queries = record {
  products_left = if leb_ℤ max_products (pos 0) then negsuc 0 else max_products;
  queries_left = if leb_ℤ max_queries (pos 0) then negsuc 0 else max_queries;
}

pub data BudgetError : Type 0 where
  too_many_queries too_many_products : BudgetError

pub data Reservation : Type 0 where
  granted : ℤ → Reservation
  refused : BudgetError → Reservation

take_query : RequestBudget → RequestBudget
unfolding ◌-ℤ◌
take_query b =
    if ltb_ℤ (pos 0) b.queries_left then record b { queries_left = b.queries_left -ℤ pos 1 } else b

clamp : RequestBudget → ℤ → ℤ
clamp b limit = if ltb_ℤ b.products_left limit then b.products_left else limit

take_products : RequestBudget → ℤ → RequestBudget × Reservation
unfolding ◌-ℤ◌ clamp
take_products b limit =
    if ltb_ℤ (pos 0) b.products_left
    then (record b { products_left = b.products_left -ℤ clamp b limit }, granted (clamp b limit))
    else (b, granted limit)

unfoldable pub reserve : RequestBudget → ℤ → RequestBudget × Reservation
unfolding take_query take_products
reserve b limit =
    if eq_ℤ b.queries_left (pos 0)
    then (b, refused too_many_queries)
    else if eq_ℤ b.products_left (pos 0)
    then (b, refused too_many_products)
    else take_products (take_query b) limit

unfoldable pub refund : RequestBudget → ℤ → ℤ → RequestBudget
unfolding ◌+ℤ◌ ◌-ℤ◌
refund b reserved used =
    if leb_ℤ reserved used
    then b
    else if leb_ℤ (pos 0) b.products_left
    then record b { products_left = b.products_left +ℤ (reserved -ℤ used) }
    else b
