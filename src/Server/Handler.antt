-- ===== src/Server/Handler.antt =====
-- internal/server/server.go: `handleGraphQL`. Third-party code is an `Engine`: how JSON bodies and
-- queries parse, and what gql.Do returns, which also spends the budget.
pub mod Answers
pub mod Refusal
use Prim.Native.String.{len}
use c3x_pricing_api.Base.{
  ℕ, ◌+◌, ◌*◌, String, Option, none, some, List, [], ◌∷◌, Bool, true, false, ltb, str_eq, not, ◌&&◌,
  if◌then◌else◌, length, map, has_prefix,
}
use c3x_pricing_api.Base.Int.{ℤ, pos, ltb_ℤ}
use c3x_pricing_api.Graphql.Value.{Value, Fields, object, list, nil, get}
use c3x_pricing_api.Graphql.Budget.{RequestBudget, new_request_budget}
use c3x_pricing_api.Server.Document.{
  Definition, compute_query_depth_from_ast, ast_contains_introspection,
}

pub record GraphqlRequest : Type 0 where
  pub query : String
  pub variables : Fields

pub record Result : Type 0 where
  pub errors : List String
  pub result_data : Option Value

pub record Config : Type 0 where
  pub max_batch_size : ℤ
  pub max_query_depth : ℤ
  pub disable_introspection : Bool
  pub max_products_per_request : ℤ
  pub max_product_queries_per_request : ℤ

pub record Engine : Type 0 where
  pub unmarshal_batch : String → Option (List GraphqlRequest)
  pub unmarshal_single : String → Option GraphqlRequest
  pub parse : String → Option (List Definition)
  pub execute : RequestBudget → GraphqlRequest → RequestBudget × Result

-- `body` is what io.ReadAll returns through MaxBytesReader, and `done i` whether the context of the
-- request is done before item i.
pub record HttpRequest : Type 0 where
  pub method : String
  pub content_type : String
  pub body : Option String
  pub done : ℕ → Bool

-- results[i], by the place in the loop that sets it.
pub data ItemResult : Type 0 where
  timeout_exceeded too_large introspection_disabled : ItemResult
  too_deep : ℕ → ItemResult
  executed : Result → ItemResult

-- The outcome counter.
pub data QueryOutcome : Type 0 where
  error empty ok : QueryOutcome

pub data Response : Type 0 where
  refusal : (status : ℕ) → (code : String) → Response
  single : ItemResult → Response
  batch : List ItemResult → Response

abbrev is_empty_list : Option Value → Bool
is_empty_list (some (list nil)) = true
is_empty_list _ = false

unfoldable pub graphql_result_is_empty : Option Value → Bool
graphql_result_is_empty (some (object fields)) = is_empty_list (get "products" fields)
graphql_result_is_empty _ = false

abbrev pub query_outcome : Result → QueryOutcome
query_outcome result =
    if ltb 0 (length result.errors)
    then error
    else if graphql_result_is_empty result.result_data
    then empty
    else ok

-- The checks of a parsed query; a query that does not parse is left to gql.Do.
check_document : Config → List Definition → Option ItemResult
check_document cfg doc =
    if ltb_ℤ cfg.max_query_depth (pos (compute_query_depth_from_ast doc))
    then some (too_deep (compute_query_depth_from_ast doc))
    else if cfg.disable_introspection && ast_contains_introspection doc
    then some introspection_disabled
    else none

abbrev pub max_query_length : ℕ
max_query_length = 10000

-- `some` is a rejection.
unfoldable pub check_query : Config → Engine → String → Option ItemResult
unfolding check_document
check_query cfg engine query =
    if ltb max_query_length (len query)
    then some too_large
    else elim (engine.parse query) [ none ↦ none | some doc ↦ check_document cfg doc ]

unfoldable pub run_items :
    Config
    → Engine
    → (ℕ → Bool)
    → ℕ
    → RequestBudget
    → List GraphqlRequest
    → List ItemResult × List QueryOutcome
run_items cfg engine done i budget [] = ([], [])
run_items cfg engine done i budget (req ∷ reqs) = elim (done i) [
  | true ↦ (map (λ r. timeout_exceeded) (req ∷ reqs), [])
  | false ↦ elim (check_query cfg engine req.query) [
    | some rejection ↦
        let (results, outcomes) = run_items cfg engine done (i + 1) budget reqs in
        (rejection ∷ results, outcomes)
    | none ↦
        let (budget', result) = engine.execute budget req in
        let (results, outcomes) = run_items cfg engine done (i + 1) budget' reqs in
        (executed result ∷ results, query_outcome result ∷ outcomes)
  ]
]

-- encodeGraphQLResponse; the single request is a batch of one.
unfoldable pub encode_graphql_response : Bool → List ItemResult → Response
encode_graphql_response true results = batch results
encode_graphql_response false [] = batch []
encode_graphql_response false (result ∷ results) = single result

run_batch :
    Config → Engine → HttpRequest → Bool → List GraphqlRequest → Response × List QueryOutcome
run_batch cfg engine r is_batch reqs =
    if ltb_ℤ cfg.max_batch_size (pos (length reqs))
    then (refusal 400 "batch_too_large", [])
    else (let (results, outcomes) =
          run_items cfg engine r.done 0
            (new_request_budget cfg.max_products_per_request cfg.max_product_queries_per_request)
            reqs in
        (encode_graphql_response is_batch results, outcomes))

unfoldable pub decode : Engine → Bool → String → Option (List GraphqlRequest)
decode engine true body = engine.unmarshal_batch body
decode engine false body = elim (engine.unmarshal_single body) [
  | none ↦ none
  | some req ↦ some (req ∷ [])
]

handle_body : Config → Engine → HttpRequest → String → Response × List QueryOutcome
unfolding run_batch decode
handle_body cfg engine r body = elim (decode engine (has_prefix body "[") body) [
  | none ↦ (refusal 400 "invalid_json", [])
  | some reqs ↦ run_batch cfg engine r (has_prefix body "[") reqs
]

unfoldable pub handle_graphql : Config → Engine → HttpRequest → Response × List QueryOutcome
unfolding handle_body
handle_graphql cfg engine r =
    if str_eq r.method "POST"
    then (if has_prefix r.content_type "application/json"
        then (elim r.body [
          | none ↦ (refusal 400 "bad_request", [])
          | some body ↦ handle_body cfg engine r body
        ])
        else (refusal 415 "unsupported_media_type", []))
    else (refusal 405 "method_not_allowed", [])
