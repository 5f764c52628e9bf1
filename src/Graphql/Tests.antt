-- ===== src/Graphql/Tests.antt =====
-- Resolvers and budgets on concrete requests.
use c3x_pricing_api.Base.{◌+◌, ◌≤◌, none, some, List, [], ◌∷◌, ◌≡◌, refl, arith}
use c3x_pricing_api.Base.Int.{pos}
use c3x_pricing_api.Db.Types.{Product, effective_limit}
use c3x_pricing_api.Graphql.Value.{field, end, str}
use c3x_pricing_api.Graphql.Budget.{RequestBudget, reserve, granted, new_request_budget}
use c3x_pricing_api.Graphql.Budget.Interleaving.{
  Request, start, Reach, here, next, sum_parts, opened, Reach-within_budget,
}
use c3x_pricing_api.Graphql.Resolver.{Database, Args, resolve_all}
use c3x_pricing_api.Graphql.Resolver.Laws.{
  RespectsLimit, total_rows, total_queries, resolve_all-within_budget,
}

abbrev box : Product
box = record {
  product_hash = "a";
  sku = "s";
  vendor_name = "aws";
  region = "us-east-1";
  service = "AmazonEC2";
  product_family = "";
  attributes = [];
  prices = [];
}

abbrev one_row : Database
one_row f = record { products = box ∷ []; error = none }

abbrev no_rows : Database
no_rows f = record { products = []; error = some "timeout" }

abbrev selective : Args
selective = record {
  filter = field "vendorName" (str "aws") (field "service" (str "AmazonEC2") end);
  limit = some (pos 10);
  offset = none;
}

abbrev requested : List (Database × Args)
requested = (one_row, selective) ∷ (no_rows, selective) ∷ []

one_row-RespectsLimit : RespectsLimit one_row
unfolding effective_limit
one_row-RespectsLimit f = ground arith

no_rows-RespectsLimit : RespectsLimit no_rows
unfolding effective_limit
no_rows-RespectsLimit f = ground arith

resolve_all-within_budget_example :
    let outcomes = (resolve_all (some (new_request_budget (pos 12) (pos 2))) requested).1 in
    (total_rows outcomes ≤ 12) × (total_queries outcomes ≤ 2)
resolve_all-within_budget_example =
    resolve_all-within_budget 12 2 requested (omega arith) (omega arith)
      (one_row-RespectsLimit, (no_rows-RespectsLimit, _))

-- Two resolvers at once: the second gets what the first left of 12.
abbrev after_one : RequestBudget
after_one = record { products_left = pos 2; queries_left = pos 2 }

abbrev after_two : RequestBudget
after_two = record { products_left = pos 0; queries_left = pos 1 }

abbrev both_running : Request
both_running = record {
  budget = after_two;
  running = pos 2 ∷ pos 10 ∷ [];
  returned = 0;
  queries = 2;
}

first_lem : reserve (opened 12 3).budget (effective_limit (pos 10)) ≡ (after_one, granted (pos 10))
unfolding reserve effective_limit new_request_budget
first_lem = refl

second_lem : reserve after_one (effective_limit (pos 10)) ≡ (after_two, granted (pos 2))
unfolding reserve effective_limit
second_lem = refl

one_running :
    Reach
      (opened 12 3)
      (record { budget = after_one; running = pos 10 ∷ []; returned = 0; queries = 1 })
one_running = next here (start (pos 10) (pos 10) after_one first_lem)

both_running-Reach : Reach (opened 12 3) both_running
both_running-Reach = next one_running (start (pos 10) (pos 2) after_two second_lem)

Reach-within_budget_example :
    (both_running.returned + sum_parts both_running.running ≤ 12) × (both_running.queries ≤ 3)
Reach-within_budget_example =
    Reach-within_budget 12 3 both_running (omega arith) (omega arith) both_running-Reach
