-- ===== src/Config.antt =====
-- internal/config/config.go: the configuration, read from the environment. A float64 is its 64
-- bits, as a number.
pub mod Sslmode
mod Tests
use c3x_pricing_api.Base.{
  ℕ, String, code, List, [], ◌∷◌, Option, none, some, Bool, true, false, not, ◌&&◌, ◌||◌, str_eq,
  ◌<>◌, keep, if◌then◌else◌,
}
use c3x_pricing_api.Base.{has_prefix, cut_char, trim_space, is_space, is_empty}
use c3x_pricing_api.Base.Int.{ℤ, pos, ltb_ℤ}
use c3x_pricing_api.Base.Strconv.{parse_int, parse_bool}

-- What packages strings, strconv and net/url compute: `url_sslmode` is none for a text that is no
-- URL, and else the query's first sslmode, or "".
pub record Library : Type 0 where
  pub to_lower : String → String
  pub equal_fold : String → String → Bool
  pub parse_float : String → Option ℕ
  pub url_sslmode : String → Option String

pub record Settings : Type 0 where
  pub port : String
  pub database_url : String
  pub api_key : String
  pub gcp_api_key : String
  pub scrape_concurrency : ℤ
  pub scrape_concurrency_aws : ℤ
  pub scrape_concurrency_azure : ℤ
  pub scrape_concurrency_gcp : ℤ
  pub enable_price_snapshots : Bool
  pub log_level : String
  pub max_request_body_mb : ℤ
  pub max_batch_size : ℤ
  pub query_timeout_secs : ℤ
  pub rate_limit_per_sec : ℤ
  pub max_query_depth : ℤ
  pub disable_introspection : Bool
  pub cny_usd_rate : ℕ
  pub cors_origins : String
  pub db_max_conns : ℤ
  pub db_min_conns : ℤ
  pub deployment : String
  pub metrics_addr : String
  pub max_products_per_request : ℤ
  pub max_product_queries_per_request : ℤ
  pub max_inflight_requests : ℤ
  pub inflight_wait_millis : ℤ

-- os.Getenv
abbrev pub Environment : Type 0
Environment = String → String

or_fallback : {A : Type 0} → Option A → A → A
or_fallback none fallback = fallback
or_fallback (some v) fallback = v

unfoldable pub get_env : Environment → String → String → String
get_env env key fallback = if str_eq (env key) "" then fallback else env key

unfoldable pub get_env_int : Environment → String → ℤ → ℤ
unfolding or_fallback
get_env_int env key fallback =
    if str_eq (env key) "" then fallback else or_fallback (parse_int (env key)) fallback

unfoldable pub get_env_float : Library → Environment → String → ℕ → ℕ
unfolding or_fallback
get_env_float lib env key fallback =
    if str_eq (env key) "" then fallback else or_fallback (lib.parse_float (env key)) fallback

unfoldable pub get_env_bool : Environment → String → Bool → Bool
unfolding or_fallback
get_env_bool env key fallback =
    if str_eq (env key) "" then fallback else or_fallback (parse_bool (env key)) fallback

abbrev pub default_metrics_addr : String
default_metrics_addr = "127.0.0.1:9090"

unfoldable pub metrics_addr : Environment → String
metrics_addr env =
    let addr = trim_space (env "METRICS_ADDR") in
    let port = trim_space (env "METRICS_PORT") in
    if not (str_eq addr "")
    then addr
    else if not (str_eq port "")
    then (if str_eq port "0" then "off" else ":" <> port)
    else default_metrics_addr

-- `default_rate` has the bits of 6.2069.
unfoldable pub load : Library → ℕ → Environment → Settings
load lib default_rate env = record {
  port = get_env env "PORT" "4000";
  database_url = get_env env "DATABASE_URL" "";
  api_key = get_env env "API_KEY" "";
  gcp_api_key = get_env env "GCP_API_KEY" "";
  scrape_concurrency = get_env_int env "SCRAPE_CONCURRENCY" (pos 4);
  scrape_concurrency_aws = get_env_int env "SCRAPE_CONCURRENCY_AWS" (pos 0);
  scrape_concurrency_azure = get_env_int env "SCRAPE_CONCURRENCY_AZURE" (pos 8);
  scrape_concurrency_gcp = get_env_int env "SCRAPE_CONCURRENCY_GCP" (pos 0);
  enable_price_snapshots = get_env_bool env "ENABLE_PRICE_SNAPSHOTS" false;
  log_level = get_env env "LOG_LEVEL" "info";
  max_request_body_mb = get_env_int env "MAX_REQUEST_BODY_MB" (pos 4);
  max_batch_size = get_env_int env "MAX_BATCH_SIZE" (pos 50);
  query_timeout_secs = get_env_int env "QUERY_TIMEOUT_SECS" (pos 30);
  rate_limit_per_sec = get_env_int env "RATE_LIMIT_PER_SEC" (pos 100);
  max_query_depth = get_env_int env "MAX_QUERY_DEPTH" (pos 10);
  disable_introspection =
      get_env_bool env "DISABLE_INTROSPECTION"
        (lib.equal_fold (get_env env "ENV" "development") "production");
  cny_usd_rate = get_env_float lib env "CNY_USD_RATE" default_rate;
  cors_origins = get_env env "CORS_ALLOWED_ORIGINS" "";
  db_max_conns = get_env_int env "DB_MAX_CONNS" (pos 0);
  db_min_conns = get_env_int env "DB_MIN_CONNS" (pos 0);
  deployment = get_env env "ENV" "development";
  metrics_addr = metrics_addr env;
  max_products_per_request = get_env_int env "MAX_PRODUCTS_PER_REQUEST" (pos 5000);
  max_product_queries_per_request = get_env_int env "MAX_PRODUCT_QUERIES_PER_REQUEST" (pos 50);
  max_inflight_requests = get_env_int env "MAX_INFLIGHT_REQUESTS" (pos 0);
  inflight_wait_millis = get_env_int env "INFLIGHT_WAIT_MS" (pos 250);
}

-- strings.Fields: the pieces between white space, without the empty ones. `piece` is the piece
-- that is being read.
unfoldable pub pieces : String → String → List String
pieces String.[] piece = if is_empty piece then [] else piece ∷ []
pieces (String.◌∷◌ c s) piece = elim (is_space (code c)) [
  | false ↦ pieces s (piece <> String.◌∷◌ c "")
  | true ↦ if is_empty piece then pieces s "" else piece ∷ pieces s ""
]

unfoldable pub fields : String → List String
fields s = pieces s ""

-- The value of the first pair whose key is sslmode.
unfoldable pub first_mode : Library → List String → String
first_mode lib [] = ""
first_mode lib (kv ∷ kvs) = elim (cut_char b'=' kv) [
  | none ↦ first_mode lib kvs
  | some (key, value) ↦ elim (not (is_empty key) && lib.equal_fold key "sslmode") [
    | true ↦ lib.to_lower value
    | false ↦ first_mode lib kvs
  ]
]

-- none is an error.
unfoldable pub extract_ssl_mode : Library → String → Option String
extract_ssl_mode lib conn =
    let s = trim_space conn in
    if has_prefix s "postgres://" || has_prefix s "postgresql://"
    then elim (lib.url_sslmode s) [ none ↦ none | some mode ↦ some (lib.to_lower mode) ]
    else some (first_mode lib (fields s))

unfoldable pub is_insecure : String → Bool
is_insecure mode = str_eq mode "disable" || str_eq mode "allow" || str_eq mode "prefer"

pub data ConfigError : Type 0 where
  missing : String → ConfigError
  invalid_url : ConfigError
  forbidden : String → ConfigError

unfoldable pub validate : Library → Settings → Option ConfigError
validate lib c =
    if str_eq c.database_url ""
    then some (missing "DATABASE_URL")
    else if lib.equal_fold c.deployment "production"
    then elim (extract_ssl_mode lib c.database_url) [
      | none ↦ some invalid_url
      | some mode ↦ if is_insecure mode then some (forbidden mode) else none
    ]
    else none

positive_or : ℤ → ℤ → ℤ
positive_or n fallback = if ltb_ℤ (pos 0) n then n else fallback

unfoldable pub concurrency_for_vendor : Library → Settings → String → ℤ
unfolding positive_or
concurrency_for_vendor lib c vendor =
    let name = lib.to_lower vendor in
    if str_eq name "aws"
    then positive_or c.scrape_concurrency_aws c.scrape_concurrency
    else if str_eq name "azure"
    then positive_or c.scrape_concurrency_azure c.scrape_concurrency
    else if str_eq name "gcp"
    then positive_or c.scrape_concurrency_gcp c.scrape_concurrency
    else c.scrape_concurrency
