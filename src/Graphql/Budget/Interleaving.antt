-- ===== src/Graphql/Budget/Interleaving.antt =====
-- Every interleaving of the resolvers of one request stays within the budget.
use c3x_pricing_api.Base.{ℕ, ◌+◌, ◌≤◌, ◌<◌, ◌≡◌, ap, ◌∙◌, ◌↔◌, List, [], ◌∷◌, ◌++◌, arith}
use c3x_pricing_api.Base.Int.{ℤ, pos, ◌≤ℤ◌, pos_part}
use c3x_pricing_api.Db.Types.{effective_limit}
use c3x_pricing_api.Graphql.Budget.{
  RequestBudget, new_request_budget, granted, refused, BudgetError, too_many_queries,
  too_many_products, reserve, refund,
}

-- One HTTP request: its budget, the reservations of the resolvers that wait for the database, the
-- products returned and the queries made so far.
pub record Request : Type 0 where
  pub budget : RequestBudget
  pub running : List ℤ
  pub returned : ℕ
  pub queries : ℕ

-- A resolver reserves and queries, is refused, or settles with the rows that it got: at most as
-- many as the LIMIT that it sent.
pub data Step : Request → Request → Type 0 where
  start :
      {r : Request} (requested n : ℤ) (b : RequestBudget)
      → reserve r.budget (effective_limit requested) ≡ (b, granted n)
      → Step r (record r { budget = b; running = n ∷ r.running; queries = r.queries + 1 })
  refuse :
      {r : Request} (requested : ℤ) (e : BudgetError) (b : RequestBudget)
      → reserve r.budget (effective_limit requested) ≡ (b, refused e)
      → Step r (record r { budget = b })
  settle :
      {r : Request} (before after : List ℤ) (n : ℤ) (rows : ℕ)
      → r.running ≡ before ++ n ∷ after
      → pos rows ≤ℤ n
      → Step r (record r {
        budget = refund r.budget n (pos rows);
        running = before ++ after;
        returned = r.returned + rows;
      })

pub data Reach (r : Request) : Request → Type 0 where
  here : Reach r r
  next : {s t : Request} → Reach r s → Step s t → Reach r t

abbrev pub sum_parts : List ℤ → ℕ
sum_parts [] = 0
sum_parts (n ∷ ns) = pos_part n + sum_parts ns

sum_parts-append : (ns ms : List ℤ) → sum_parts (ns ++ ms) ≡ sum_parts ns + sum_parts ms
sum_parts-append [] ms = omega arith
sum_parts-append (n ∷ ns) ms = omega (arith, sum_parts-append ns ms)

-- Whatever a capped budget no longer holds is reserved or returned.
pub record Balanced (max_products max_queries : ℕ) (r : Request) : Type 0 where
  pub left : r.budget.products_left ≡ pos (pos_part r.budget.products_left)
  pub products : pos_part r.budget.products_left + sum_parts r.running + r.returned ≡ max_products
  pub queries_left : r.budget.queries_left ≡ pos (pos_part r.budget.queries_left)
  pub made : pos_part r.budget.queries_left + r.queries ≡ max_queries

abbrev pub opened : ℕ → ℕ → Request
opened max_products max_queries = record {
  budget = new_request_budget (pos max_products) (pos max_queries);
  running = [];
  returned = 0;
  queries = 0;
}

opened-Balanced :
    (max_products max_queries : ℕ)
    → 0 < max_products
    → 0 < max_queries
    → Balanced max_products max_queries (opened max_products max_queries)
unfolding new_request_budget
opened-Balanced p q hp hq = ground arith

refuse-same :
    (b c : RequestBudget) (limit : ℤ) (e : BudgetError) → reserve b limit ≡ (c, refused e) → c ≡ b
unfolding reserve
refuse-same b c limit e h = ground arith

module _ {max_products max_queries : ℕ} where
  start-Balanced :
      (r : Request) (requested n : ℤ) (b : RequestBudget)
      → Balanced max_products max_queries r
      → reserve r.budget (effective_limit requested) ≡ (b, granted n)
      → Balanced max_products max_queries
          (record r { budget = b; running = n ∷ r.running; queries = r.queries + 1 })
  unfolding reserve effective_limit
  start-Balanced r requested n b v e = ground arith

  settle-Balanced :
      (r : Request) (before after : List ℤ) (n : ℤ) (rows : ℕ)
      → Balanced max_products max_queries r
      → r.running ≡ before ++ n ∷ after
      → pos rows ≤ℤ n
      → Balanced max_products max_queries (record r {
        budget = refund r.budget n (pos rows);
        running = before ++ after;
        returned = r.returned + rows;
      })
  unfolding refund
  settle-Balanced r before after n rows v e h =
      let spent : sum_parts r.running ≡ sum_parts before + (pos_part n + sum_parts after) =
        ap sum_parts e ∙ sum_parts-append before (n ∷ after) in
      ground (arith, spent, sum_parts-append before after)

  Balanced-refused :
      (r : Request) (requested : ℤ)
      → Balanced max_products max_queries r
      → let answer = (reserve r.budget (effective_limit requested)).1 in
        ((answer ≡ refused too_many_queries) ↔ (r.queries ≡ max_queries))
        × ((answer ≡ refused too_many_products)
            ↔ ((r.queries < max_queries) × (r.returned + sum_parts r.running ≡ max_products)))
  unfolding reserve effective_limit
  Balanced-refused r requested v = ground arith

  Balanced-granted :
      (r : Request) (requested n : ℤ) (b : RequestBudget)
      → Balanced max_products max_queries r
      → reserve r.budget (effective_limit requested) ≡ (b, granted n)
      → (n ≤ℤ effective_limit requested) × (effective_limit n ≡ n)
  unfolding reserve effective_limit
  Balanced-granted r requested n b v e = ground arith

  Step-Balanced :
      {r s : Request}
      → Step r s
      → Balanced max_products max_queries r
      → Balanced max_products max_queries s
  Step-Balanced {r} (start requested n b e) v = start-Balanced r requested n b v e
  Step-Balanced {r} (refuse requested k b e) v =
      rw (refuse-same r.budget b (effective_limit requested) k e) v
  Step-Balanced {r} (settle before after n rows e h) v = settle-Balanced r before after n rows v e h

  Reach-Balanced :
      {r s : Request}
      → Balanced max_products max_queries r
      → Reach r s
      → Balanced max_products max_queries s
  Reach-Balanced v here = v
  Reach-Balanced v (next p st) = Step-Balanced st (Reach-Balanced v p)

-- However the resolvers of a request interleave, the products that it has returned and those that
-- its running queries may still return stay within a positive cap on products together, and the
-- queries that it has made within a positive cap on queries.
pub Reach-within_budget :
    (max_products max_queries : ℕ) (r : Request)
    → 0 < max_products
    → 0 < max_queries
    → Reach (opened max_products max_queries) r
    → (r.returned + sum_parts r.running ≤ max_products) × (r.queries ≤ max_queries)
Reach-within_budget p q r hp hq path =
    let v = Reach-Balanced (opened-Balanced p q hp hq) path in
    (omega (arith, v.products), omega (arith, v.made))

-- In a reachable state of a request with positive caps, a resolver is refused for its queries
-- exactly when the request has made as many as the cap, and for its products exactly when it has
-- queries left and the cap on products is returned or reserved.
pub reserve-refused_iff :
    (max_products max_queries : ℕ) (r : Request) (requested : ℤ)
    → 0 < max_products
    → 0 < max_queries
    → Reach (opened max_products max_queries) r
    → let answer = (reserve r.budget (effective_limit requested)).1 in
      ((answer ≡ refused too_many_queries) ↔ (r.queries ≡ max_queries))
      × ((answer ≡ refused too_many_products)
          ↔ ((r.queries < max_queries) × (r.returned + sum_parts r.running ≡ max_products)))
reserve-refused_iff p q r requested hp hq path =
    Balanced-refused r requested (Reach-Balanced (opened-Balanced p q hp hq) path)

-- A grant never exceeds the request's effective limit, and is itself an effective limit, so the
-- LIMIT that the query applies is the reservation.
pub reserve-effective_limit :
    (max_products max_queries : ℕ) (r : Request) (requested n : ℤ) (b : RequestBudget)
    → 0 < max_products
    → 0 < max_queries
    → Reach (opened max_products max_queries) r
    → reserve r.budget (effective_limit requested) ≡ (b, granted n)
    → (n ≤ℤ effective_limit requested) × (effective_limit n ≡ n)
reserve-effective_limit p q r requested n b hp hq path e =
    Balanced-granted r requested n b (Reach-Balanced (opened-Balanced p q hp hq) path) e

-- With both caps disabled no request is ever refused, and each grant is what was asked for.
pub reserve-unlimited :
    (max_products max_queries limit : ℤ)
    → max_products ≤ℤ pos 0
    → max_queries ≤ℤ pos 0
    → reserve (new_request_budget max_products max_queries) limit
      ≡ (new_request_budget max_products max_queries, granted limit)
unfolding reserve new_request_budget
reserve-unlimited p q limit hp hq = ground arith
