-- ===== src/Server/Handler/Answers.antt =====
-- Each item of a batch gets its own answer, and only what passes the checks is executed.
use Prim.Native.String.{len}
use c3x_pricing_api.Base.{
  ℕ, ◌+◌, ◌≤◌, ◌<◌, ◌≡◌, refl, subst, ◌⊎◌, String, none, some, List, [], ◌∷◌, Bool, true, false,
  ltb, arith, length, map, has_prefix, eq_iff, Bool-cases, Option-cases, inl, inr,
}
use c3x_pricing_api.Base.Int.{pos, ltb_ℤ, ◌≤ℤ◌}
use c3x_pricing_api.Graphql.Budget.{RequestBudget, new_request_budget}
use c3x_pricing_api.Server.Document.{
  Definition, collect, no_fragments, compute_query_depth_from_ast,
}
use c3x_pricing_api.Server.Document.Introspection.{SomeIntrospects, ast_contains_introspection_iff}
use c3x_pricing_api.Server.Document.Depth.{SomeHasDepth, compute_query_depth_from_ast-max}
use c3x_pricing_api.Server.Handler.{
  GraphqlRequest, Config, Engine, HttpRequest, ItemResult, timeout_exceeded, too_large,
  introspection_disabled, too_deep, executed, check_document, check_query, max_query_length,
  run_items, run_batch, decode, handle_body, handle_graphql, encode_graphql_response,
}

-- What a parsed query must satisfy: no field is deeper than the maximum, and none introspects where
-- introspection is disabled.
pub record IsAllowed (cfg : Config) (doc : List Definition) : Type 0 where
  pub shallow :
      (k : ℕ) → SomeHasDepth (collect doc no_fragments) k doc → pos k ≤ℤ cfg.max_query_depth
  pub no_introspection :
      cfg.disable_introspection ≡ true → SomeIntrospects (collect doc no_fragments) doc → ⊥

-- What each result says of its item.
abbrev pub IsAnswer : Config → Engine → GraphqlRequest → ItemResult → Type 0
IsAnswer cfg engine req timeout_exceeded = Unit
IsAnswer cfg engine req too_large = max_query_length < len req.query
IsAnswer cfg engine req introspection_disabled =
    (cfg.disable_introspection ≡ true)
    × ((doc : List Definition) × (engine.parse req.query ≡ some doc)
        × SomeIntrospects (collect doc no_fragments) doc)
IsAnswer cfg engine req (too_deep depth) =
    (doc : List Definition) × (engine.parse req.query ≡ some doc)
    × (ltb_ℤ cfg.max_query_depth (pos depth) ≡ true)
    × ((depth ≡ 0) ⊎ SomeHasDepth (collect doc no_fragments) depth doc)
IsAnswer cfg engine req (executed result) =
    (len req.query ≤ max_query_length)
    × ((doc : List Definition) → engine.parse req.query ≡ some doc → IsAllowed cfg doc)

-- One answer for each item, in order.
abbrev pub AreAnswers : Config → Engine → List GraphqlRequest → List ItemResult → Type 0
AreAnswers cfg engine [] [] = Unit
AreAnswers cfg engine (req ∷ reqs) (result ∷ results) =
    IsAnswer cfg engine req result × AreAnswers cfg engine reqs results
AreAnswers cfg engine _ _ = ⊥

check_document-IsAllowed :
    (cfg : Config) (doc : List Definition) → check_document cfg doc ≡ none → IsAllowed cfg doc
unfolding check_document
check_document-IsAllowed cfg doc h =
    let (bound, attained) = compute_query_depth_from_ast-max doc in
    record {
      shallow = λ k p. ground (arith, bound k p, h);
      no_introspection =
          λ disabled i. ground (arith, (ast_contains_introspection_iff doc).1 i, disabled, h);
    }

check_document-rejects :
    (cfg : Config) (engine : Engine) (req : GraphqlRequest) (doc : List Definition)
    (rejection : ItemResult)
    → engine.parse req.query ≡ some doc
    → check_document cfg doc ≡ some rejection
    → IsAnswer cfg engine req rejection
unfolding check_document
check_document-rejects cfg engine req doc timeout_exceeded e h = _
check_document-rejects cfg engine req doc too_large e h = absurd (ground arith)
check_document-rejects cfg engine req doc (executed result) e h = absurd (ground arith)
check_document-rejects cfg engine req doc introspection_disabled e h =
    (ground arith, (doc, e, (ast_contains_introspection_iff doc).0 (ground arith)))
check_document-rejects cfg engine req doc (too_deep depth) e h =
    let same : compute_query_depth_from_ast doc ≡ depth = ground arith in
    (
      doc,
      e,
      ground arith,
      subst (λ d. (d ≡ 0) ⊎ SomeHasDepth (collect doc no_fragments) d doc) same
          (compute_query_depth_from_ast-max doc).1,
    )

check_query-rejects :
    (cfg : Config) (engine : Engine) (req : GraphqlRequest) (rejection : ItemResult)
    → check_query cfg engine req.query ≡ some rejection
    → IsAnswer cfg engine req rejection
unfolding check_query
check_query-rejects cfg engine req rejection h =
    elim (Bool-cases (ltb max_query_length (len req.query))) [
      | inl long ↦
          let same : too_large ≡ rejection = ground (arith, long, h) in
          subst (IsAnswer cfg engine req) same (ground (arith, long))
      | inr short ↦ elim (Option-cases (engine.parse req.query)) [
        | inl unparsed ↦ absurd (ground (arith, h, short, unparsed))
        | inr (doc, e) ↦
            check_document-rejects cfg engine req doc rejection e (ground (arith, h, short, e))
      ]
    ]

check_query-admits :
    (cfg : Config) (engine : Engine) (req : GraphqlRequest)
    → check_query cfg engine req.query ≡ none
    → (len req.query ≤ max_query_length)
      × ((doc : List Definition) → engine.parse req.query ≡ some doc → IsAllowed cfg doc)
unfolding check_query
check_query-admits cfg engine req h =
    (ground arith, λ doc e. check_document-IsAllowed cfg doc (ground (arith, e, h)))

timeouts-AreAnswers :
    (cfg : Config) (engine : Engine) (reqs : List GraphqlRequest)
    → AreAnswers cfg engine reqs (map (λ r. timeout_exceeded) reqs)
timeouts-AreAnswers cfg engine [] = _
timeouts-AreAnswers cfg engine (req ∷ reqs) = (_, timeouts-AreAnswers cfg engine reqs)

run_items_late :
    (cfg : Config) (engine : Engine) (done : ℕ → Bool) (i : ℕ) (budget : RequestBudget)
    (reqs : List GraphqlRequest)
    → done i ≡ true
    → (run_items cfg engine done i budget reqs).0 ≡ map (λ r. timeout_exceeded) reqs
unfolding run_items
run_items_late cfg engine done i budget [] late = refl
run_items_late cfg engine done i budget (req ∷ reqs) late = ground arith

run_items_rejected :
    (cfg : Config) (engine : Engine) (done : ℕ → Bool) (i : ℕ) (budget : RequestBudget)
    (req : GraphqlRequest) (reqs : List GraphqlRequest) (rejection : ItemResult)
    → done i ≡ false
    → check_query cfg engine req.query ≡ some rejection
    → (run_items cfg engine done i budget (req ∷ reqs)).0
      ≡ rejection ∷ (run_items cfg engine done (i + 1) budget reqs).0
unfolding run_items
run_items_rejected cfg engine done i budget req reqs rejection early rejected = ground arith

run_items_executed :
    (cfg : Config) (engine : Engine) (done : ℕ → Bool) (i : ℕ) (budget : RequestBudget)
    (req : GraphqlRequest) (reqs : List GraphqlRequest)
    → done i ≡ false
    → check_query cfg engine req.query ≡ none
    → let (budget', result) = engine.execute budget req in
      (run_items cfg engine done i budget (req ∷ reqs)).0
      ≡ executed result ∷ (run_items cfg engine done (i + 1) budget' reqs).0
unfolding run_items
run_items_executed cfg engine done i budget req reqs early admitted = ground arith

run_items_none :
    (cfg : Config) (engine : Engine) (done : ℕ → Bool) (i : ℕ) (budget : RequestBudget)
    → (run_items cfg engine done i budget []).0 ≡ []
unfolding run_items
run_items_none cfg engine done i budget = refl

run_items-AreAnswers :
    (cfg : Config) (engine : Engine) (done : ℕ → Bool) (i : ℕ) (budget : RequestBudget)
    (reqs : List GraphqlRequest)
    → AreAnswers cfg engine reqs (run_items cfg engine done i budget reqs).0
run_items-AreAnswers cfg engine done i budget [] = rw (run_items_none cfg engine done i budget) _
run_items-AreAnswers cfg engine done i budget (req ∷ reqs) = elim (Bool-cases (done i)) [
  | inl late ↦
      rw (run_items_late cfg engine done i budget (req ∷ reqs) late)
        (timeouts-AreAnswers cfg engine (req ∷ reqs))
  | inr early ↦ elim (Option-cases (check_query cfg engine req.query)) [
    | inl admitted ↦ rw (run_items_executed cfg engine done i budget req reqs early admitted) (
      check_query-admits cfg engine req admitted,
      run_items-AreAnswers cfg engine done (i + 1) (engine.execute budget req).0 reqs,
    )
    | inr (rejection, rejected) ↦
        rw (run_items_rejected cfg engine done i budget req reqs rejection early rejected) (
          check_query-rejects cfg engine req rejection rejected,
          run_items-AreAnswers cfg engine done (i + 1) budget reqs,
        )
  ]
]

-- A POST of JSON that decodes to a batch within the maximal size, or to one request, is answered
-- item by item. An item is executed only if its query is at most 10000 bytes long and, if it
-- parses, no field is deeper than the maximum and, where introspection is disabled, none is an
-- introspection field; it is rejected only for such a reason, or timed out.
pub handle_graphql-answers :
    (cfg : Config) (engine : Engine) (r : HttpRequest) (body : String) (reqs : List GraphqlRequest)
    → r.method ≡ "POST"
    → has_prefix r.content_type "application/json" ≡ true
    → r.body ≡ some body
    → decode engine (has_prefix body "[") body ≡ some reqs
    → pos (length reqs) ≤ℤ cfg.max_batch_size
    → (results : List ItemResult) × ((handle_graphql cfg engine r).0
        ≡ encode_graphql_response (has_prefix body "[") results)
      × AreAnswers cfg engine reqs results
unfolding handle_graphql handle_body run_batch
handle_graphql-answers cfg engine r body reqs post json read decoded fits =
    let budget =
      new_request_budget cfg.max_products_per_request cfg.max_product_queries_per_request in
    (
      (run_items cfg engine r.done 0 budget reqs).0,
      ground (arith, post, json, read, decoded, fits, eq_iff r.method "POST"),
      run_items-AreAnswers cfg engine r.done 0 budget reqs,
    )
