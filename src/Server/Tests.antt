-- ===== src/Server/Tests.antt =====
-- The server's checks on concrete requests.
use c3x_pricing_api.Server.Gzip.Accepts.{client_accepts_gzip}
use c3x_pricing_api.Base.{cut_char, split, trim_left, trim_right}
use c3x_pricing_api.Base.{
  ℕ, ◌-◌, ◌≤◌, ◌≡◌, refl, ◌↔◌, ◌⊎◌, String, none, some, List, [], ◌∷◌, ◌++◌, true, false, ◌<>◌,
  arith, length, has_prefix, strip_prefix, str_eq, eq_iff,
}
use c3x_pricing_api.Base.Int.{pos}
use c3x_pricing_api.Graphql.Value.{end}
use c3x_pricing_api.Db.Runs.{Run, success, failed}
use c3x_pricing_api.Server.Document.{
  Selections, field, fragment_spread, Definition, operation, fragment, collect, no_fragments,
  ast_contains_introspection, compute_query_depth_from_ast,
}
use c3x_pricing_api.Server.Document.Introspection.{SomeIntrospects, ast_contains_introspection_iff}
use c3x_pricing_api.Server.Document.Depth.{SomeHasDepth, compute_query_depth_from_ast-max}
use c3x_pricing_api.Server.Handler.{
  GraphqlRequest, Config, Engine, HttpRequest, ItemResult, decode, handle_graphql,
  encode_graphql_response,
}
use c3x_pricing_api.Server.Handler.Answers.{AreAnswers, handle_graphql-answers}
use c3x_pricing_api.Server.Inflight.{Inflight, inflight_limit, idle, Step, Reach, here, next, enter}
use c3x_pricing_api.Server.Inflight.Bounded.{Reach-bounded}
use c3x_pricing_api.Server.Status.{handle_status, latest}
use c3x_pricing_api.Server.Status.Latest.{status_of, handle_status-latest}
use c3x_pricing_api.Server.Access.{
  Headers, Proxies, peer, client_ip, auth_middleware, rate_limit_middleware,
}
use c3x_pricing_api.Server.Access.Keys.{HasBearer, auth_middleware_iff}
use c3x_pricing_api.Server.Access.Spoofing.{rate_limit_middleware-untrusted}
use c3x_pricing_api.Server.Limiter.{Limiters}
use c3x_pricing_api.Server.Gzip.{
  Connection, Event, body_part, set_length, run as deliver, opened as new_writer,
}
use c3x_pricing_api.Server.Gzip.Phases.{written}
use c3x_pricing_api.Server.Gzip.Delivery.{IsDelivered, run-opened-IsDelivered}

-- query { ...a }, with fragments a and b that spread each other; b has __schema { types }.
abbrev cyclic : List Definition
cyclic =
    operation (fragment_spread "a" Selections.end)
    ∷ fragment "a" (fragment_spread "b" Selections.end)
    ∷ fragment "b" (
        fragment_spread "a"
          (field "__schema" (field "types" Selections.end Selections.end) Selections.end))
    ∷ []

ast_contains_introspection_iff_example :
    (ast_contains_introspection cyclic ≡ true)
    ↔ SomeIntrospects (collect cyclic no_fragments) cyclic
ast_contains_introspection_iff_example = ast_contains_introspection_iff cyclic

compute_query_depth_from_ast-max_example :
    let depth = compute_query_depth_from_ast cyclic in
    ((k : ℕ) → SomeHasDepth (collect cyclic no_fragments) k cyclic → k ≤ depth)
    × ((depth ≡ 0) ⊎ SomeHasDepth (collect cyclic no_fragments) depth cyclic)
compute_query_depth_from_ast-max_example = compute_query_depth_from_ast-max cyclic

abbrev cfg : Config
cfg = record {
  max_batch_size = pos 2;
  max_query_depth = pos 5;
  disable_introspection = true;
  max_products_per_request = pos 0;
  max_product_queries_per_request = pos 0;
}

abbrev ask : GraphqlRequest
ask = record { query = "{...a}"; variables = end }

abbrev engine : Engine
engine = record {
  unmarshal_batch = λ body. some (ask ∷ ask ∷ []);
  unmarshal_single = λ body. some ask;
  parse = λ query. some cyclic;
  execute = λ budget req. (budget, record { errors = []; result_data = none });
}

abbrev post : HttpRequest
post = record {
  method = "POST";
  content_type = "application/json";
  body = some "[{}, {}]";
  done = λ i. false;
}

handle_graphql-answers_example :
    (results : List ItemResult) × ((handle_graphql cfg engine post).0
      ≡ encode_graphql_response (has_prefix "[{}, {}]" "[") results)
    × AreAnswers cfg engine (ask ∷ ask ∷ []) results
unfolding strip_prefix decode
handle_graphql-answers_example =
    handle_graphql-answers cfg engine post "[{}, {}]" (ask ∷ ask ∷ []) refl refl refl refl
      (omega arith)

abbrev one_running : Inflight
one_running = record { slots = 1; running = 7 ∷ []; waiting = []; busy = [] }

one_running-Reach : Reach 3 idle one_running
one_running-Reach = next here (enter 7 (omega arith))

Reach-bounded_example :
    (length one_running.running ≤ 3)
    × ((before after : List ℕ) (id : ℕ)
        → one_running.running ≡ before ++ id ∷ after
        → Step 3 one_running
            (record one_running { slots = one_running.slots - 1; running = before ++ after }))
Reach-bounded_example = Reach-bounded 3 one_running one_running-Reach

derived_lem : inflight_limit (pos 0) (pos 5) ≡ pos 3
unfolding inflight_limit
derived_lem = refl

abbrev runs : List Run
runs =
    record {
      id = 1;
      vendor = "aws";
      started_at = 10;
      finished_at = some 20;
      status = success;
      products = 5;
      deleted = 0;
    }
    ∷ record {
      id = 2;
      vendor = "aws";
      started_at = 30;
      finished_at = some 40;
      status = failed;
      products = 0;
      deleted = 0;
    }
    ∷ []

handle_status-latest_example :
    handle_status true true 50 "aws" runs ≡ status_of 50 (latest (λ r. true) "aws" runs)
handle_status-latest_example = handle_status-latest 50 "aws" runs

abbrev headers : String → Headers
headers key = record {
  authorization = "Bearer " <> key;
  x_api_key = "";
  cf_connecting_ip = "1.2.3.4";
  x_forwarded_for = "";
}

auth_middleware_iff_example : (auth_middleware (λ s. s) "secret" (headers "secret") ≡ true) ↔ (
    ((headers "secret").authorization ≡ "Bearer " <> "secret")
    ⊎ (((headers "secret").x_api_key ≡ "secret") × (HasBearer (headers "secret") → ⊥)))
auth_middleware_iff_example =
    auth_middleware_iff (λ s. s) "secret" (headers "secret")
      (λ e. absurd (ground (arith, eq_iff "secret" "", e))) (λ s e. e)

abbrev net : Proxies
net = record {
  split_host = λ s. none;
  trusted_proxies = [];
  trusted_ips = (λ ip. str_eq ip "10.0.0.1") ∷ [];
}

rate_limit_middleware-untrusted_example :
    let limiters : Limiters = record { lru = []; limiters = λ ip. false; created = 0 } in
    (client_ip net "9.9.9.9" (headers "a") ≡ peer net "9.9.9.9")
    × (rate_limit_middleware (pos 1) net (λ l. true) 5 "9.9.9.9" (headers "a") limiters
        ≡ rate_limit_middleware (pos 1) net (λ l. true) 5 "9.9.9.9" (headers "b") limiters)
unfolding peer
rate_limit_middleware-untrusted_example =
    rate_limit_middleware-untrusted (pos 1) net (λ l. true) 5 "9.9.9.9" (headers "a") (headers "b")
      (record { lru = []; limiters = λ ip. false; created = 0 }) refl

-- A handler that writes a small part first and is compressed from the second on.
abbrev parts : List Event
parts = body_part "ab" ∷ set_length "4" ∷ body_part "cd" ∷ []

abbrev open_connection : Connection
open_connection = record { is_small = λ m s. false; takes = λ ps p. true; closes = λ ps. true }

run-opened-IsDelivered_example :
    IsDelivered (written parts) (deliver open_connection parts (new_writer 3 200))
run-opened-IsDelivered_example = run-opened-IsDelivered open_connection 3 200 parts (λ ps p. refl)

accepted : client_accepts_gzip "br, GZip;q=0.5" ≡ true
unfolding client_accepts_gzip cut_char split trim_left trim_right
accepted = refl

-- The weight does not count.
forbidden : client_accepts_gzip "gzip;q=0" ≡ true
unfolding client_accepts_gzip cut_char split trim_left trim_right
forbidden = refl

refused : client_accepts_gzip "br, xgzip" ≡ false
unfolding client_accepts_gzip cut_char split trim_left trim_right
refused = refl
