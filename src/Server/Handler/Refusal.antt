-- ===== src/Server/Handler/Refusal.antt =====
-- Which requests are refused as a whole.
use c3x_pricing_api.Base.{
  ℕ, ◌≡◌, sym, subst, ◌⊎◌, String, some, List, [], ◌∷◌, Bool, true, false, str_eq, arith, length,
  has_prefix, eq_iff, ◌≢◌, Bool-cases, Option-cases, inl, inr,
}
use c3x_pricing_api.Base.Int.{pos, ltb_ℤ}
use c3x_pricing_api.Graphql.Budget.{new_request_budget}
use c3x_pricing_api.Server.Handler.{
  GraphqlRequest, Config, Engine, HttpRequest, ItemResult, refusal, run_items, run_batch, decode,
  handle_body, handle_graphql, encode_graphql_response,
}

encode-refusal :
    (is_batch : Bool) (results : List ItemResult) (status : ℕ) (code : String)
    → encode_graphql_response is_batch results ≡ refusal status code
    → ⊥
unfolding encode_graphql_response
encode-refusal true results status code h = absurd (ground arith)
encode-refusal false [] status code h = absurd (ground arith)
encode-refusal false (result ∷ results) status code h = absurd (ground arith)

run_batch-refusal :
    (cfg : Config) (engine : Engine) (r : HttpRequest) (is_batch : Bool)
    (reqs : List GraphqlRequest) (status : ℕ) (code : String)
    → (run_batch cfg engine r is_batch reqs).0 ≡ refusal status code
    → (status ≡ 400) × (ltb_ℤ cfg.max_batch_size (pos (length reqs)) ≡ true)
unfolding run_batch
run_batch-refusal cfg engine r is_batch reqs status code h =
    elim (Bool-cases (ltb_ℤ cfg.max_batch_size (pos (length reqs)))) [
      | inl large ↦ (ground (arith, large, h), large)
      | inr fits ↦
          let budget =
            new_request_budget cfg.max_products_per_request cfg.max_product_queries_per_request in
          absurd (
            encode-refusal is_batch (run_items cfg engine r.done 0 budget reqs).0 status code
              (ground (arith, fits, h)))
    ]

handle_body-refusal :
    (cfg : Config) (engine : Engine) (r : HttpRequest) (body : String) (status : ℕ) (code : String)
    → (handle_body cfg engine r body).0 ≡ refusal status code
    → (status ≡ 400)
      × ((reqs : List GraphqlRequest)
          → decode engine (has_prefix body "[") body ≡ some reqs
          → ltb_ℤ cfg.max_batch_size (pos (length reqs)) ≡ true)
unfolding handle_body
handle_body-refusal cfg engine r body status code h =
    elim (Option-cases (decode engine (has_prefix body "[") body)) [
      | inl invalid ↦
          (ground (arith, invalid, h), λ reqs decoded. absurd (ground (arith, invalid, decoded)))
      | inr (reqs, e) ↦
          let refused : (run_batch cfg engine r (has_prefix body "[") reqs).0
              ≡ refusal status code =
            ground (arith, e, h) in
          let (bad, large) =
            run_batch-refusal cfg engine r (has_prefix body "[") reqs status code refused in
          (bad, λ reqs' decoded. ground (arith, large, e, decoded))
    ]

-- A request is refused as a whole only if it is no POST (405), no JSON (415), or (400) its body
-- cannot be read, does not decode, or has more items than the maximum.
pub handle_graphql-refusal :
    (cfg : Config) (engine : Engine) (r : HttpRequest) (status : ℕ) (code : String)
    → (handle_graphql cfg engine r).0 ≡ refusal status code
    → ((status ≡ 405) × (r.method ≢ "POST"))
      ⊎ ((status ≡ 415) × (has_prefix r.content_type "application/json" ≡ false))
      ⊎ ((status ≡ 400)
          × ((body : String) (reqs : List GraphqlRequest)
              → r.body ≡ some body
              → decode engine (has_prefix body "[") body ≡ some reqs
              → ltb_ℤ cfg.max_batch_size (pos (length reqs)) ≡ true))
unfolding handle_graphql
handle_graphql-refusal cfg engine r status code h = elim (Bool-cases (str_eq r.method "POST")) [
  | inr other ↦ inl (
    ground (arith, h, other),
    λ same. absurd (ground (arith, other, eq_iff r.method "POST", same)),
  )
  | inl post ↦ elim (Bool-cases (has_prefix r.content_type "application/json")) [
    | inr other ↦ inr (inl (ground (arith, h, post, other), other))
    | inl json ↦ elim (Option-cases r.body) [
      | inl unread ↦ inr (
          inr (
            ground (arith, h, post, json, unread),
            λ body reqs read decoded. absurd (ground (arith, unread, read)),
          ))
      | inr (body, e) ↦
          let refused : (handle_body cfg engine r body).0 ≡ refusal status code =
            ground (arith, h, post, json, e) in
          let (bad, large) = handle_body-refusal cfg engine r body status code refused in
          inr (
            inr (
              bad,
              λ body' reqs read decoded.
                  let same : body ≡ body' = ground (arith, e, read) in
                  large reqs (
                    subst (λ b. decode engine (has_prefix b "[") b ≡ some reqs) (sym same) decoded),
            ))
    ]
  ]
]
