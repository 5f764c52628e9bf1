-- ===== src/Server/Middleware.antt =====
-- internal/server/server.go: the response headers that `corsMiddleware` and
-- `securityHeadersMiddleware` set, the labels of spans in `handlerLabel`, and the request ids of
-- `requestIDMiddleware`. What `rand.Read` and the clock give is an input.
pub mod Origins
pub mod RequestIds
pub mod Decimal
mod Tests
use c3x_pricing_api.Base.{
  ℕ, zero, suc, ◌/◌, ◌%◌, String, code, Option, none, some, List, [], ◌∷◌, ◌++◌, Bool, true, not,
  ◌&&◌, ◌||◌, ltb, leb, ◌==◌, str_eq, if◌then◌else◌, keep, any, ◌<>◌, is_empty, split, trim_space,
  size,
}
use c3x_pricing_api.Base.Int.{ℤ, pos, negsuc}

-- http.Header, a value under each key. A key that is not there reads as "".
abbrev pub Header : Type 0
Header = List (String × String)

unfoldable pub set_header : String → String → Header → Header
set_header k v h = keep (λ (l, _). not (str_eq l k)) h ++ (k, v) ∷ []

abbrev pub add_header : String → String → Header → Header
add_header k v h = h ++ (k, v) ∷ []

unfoldable pub values : String → Header → List String
values k [] = []
values k ((l, v) ∷ h) = let rest = values k h in if str_eq l k then v ∷ rest else rest

pub record CorsRequest : Type 0 where
  pub method : String
  pub origin : String

-- An answer without the next handler, or what it is called with.
pub data Reply : Type 0 where
  no_content served : Header → Reply

-- The origins that the setting names. A map, and so only membership counts.
unfoldable pub origins_of : List String → List String
origins_of [] = []
origins_of (o ∷ os) =
    let rest = origins_of os in
    let trimmed = trim_space o in if is_empty trimmed then rest else trimmed ∷ rest

unfoldable pub allow : String → Header → Header
unfolding set_header
allow origin h = set_header "Access-Control-Max-Age" "86400" (
    set_header "Access-Control-Allow-Headers" "Content-Type, Authorization, X-Api-Key, X-Request-ID"
      (set_header "Access-Control-Allow-Methods" "GET, POST, OPTIONS"
        (set_header "Access-Control-Allow-Origin" origin h)))

unfoldable pub is_allowed : List String → String → Bool
is_allowed origins origin =
    not (is_empty origin) && (any (str_eq "*") origins || any (str_eq origin) origins)

preflight : Header → Header
preflight h =
    add_header "Vary" "Access-Control-Request-Headers"
      (add_header "Vary" "Access-Control-Request-Method" h)

unfoldable pub cors_middleware : (Header → Reply) → String → CorsRequest → Header → Reply
unfolding origins_of allow is_allowed preflight
cors_middleware next allowed_origins r h =
    let varied = add_header "Vary" "Origin" h in
    let allowed =
      if is_allowed (origins_of (split b',' allowed_origins)) r.origin
      then allow r.origin varied
      else varied in
    if str_eq r.method "OPTIONS" then no_content (preflight allowed) else next allowed

unfoldable pub security_headers_middleware : (Header → Reply) → Header → Reply
unfolding set_header
security_headers_middleware next h = next (
    set_header "Cache-Control" "no-store" (
      set_header "Strict-Transport-Security" "max-age=31536000; includeSubDomains" (
        set_header "Content-Security-Policy" "default-src 'none'" (
          set_header "Referrer-Policy" "no-referrer" (
            set_header "X-Frame-Options" "DENY"
              (set_header "X-Content-Type-Options" "nosniff" h))))))

-- The two as `Start` puts them around the handler: CORS outside, and only if it is configured.
unfoldable pub wrap_handler : String → CorsRequest → Reply
unfolding cors_middleware security_headers_middleware
wrap_handler cors_origins r =
    let secured = security_headers_middleware served in
    if is_empty cors_origins then secured [] else cors_middleware secured cors_origins r []

-- The labels of spans.
unfoldable pub handler_label : String → String
handler_label path =
    if str_eq path "/graphql"
    then "graphql"
    else if str_eq path "/healthz"
    then "healthz"
    else if str_eq path "/readyz" || str_eq path "/health"
    then "readyz"
    else if str_eq path "/status"
    then "status"
    else if str_eq path "/metrics"
    then "metrics"
    else "other"

-- The regular expression of validRequestID.
abbrev pub is_id_char : ℕ → Bool
is_id_char k =
    (leb b'A' k && leb k b'Z')
    || (leb b'a' k && leb k b'z')
    || (leb b'0' k && leb k b'9')
    || k == b'_'
    || k == b'-'

unfoldable pub all_id_chars : String → Bool
all_id_chars String.[] = true
all_id_chars (String.◌∷◌ c s) = is_id_char (code c) && all_id_chars s

unfoldable pub valid_request_id : String → Bool
unfolding all_id_chars
valid_request_id s = all_id_chars s && (leb 1 (size s) && leb (size s) 64)

-- hex.EncodeToString
abbrev pub nth_char : ℕ → String → String
nth_char n String.[] = ""
nth_char zero (String.◌∷◌ c s) = String.◌∷◌ c ""
nth_char (suc n) (String.◌∷◌ c s) = nth_char n s

unfoldable pub digit : ℕ → String
digit n = nth_char n "0123456789abcdef"

unfoldable pub encode_to_string : List ℕ → String
unfolding digit
encode_to_string [] = ""
encode_to_string (b ∷ bytes) = digit (b / 16) <> (digit (b % 16) <> encode_to_string bytes)

-- The decimal digits of a number, at most that many.
unfoldable pub decimal : ℕ → ℕ → String
unfolding digit
decimal zero n = ""
decimal (suc more) n =
    let before = decimal more (n / 10) in if ltb n 10 then digit n else before <> digit (n % 10)

-- %d of an int64, which has at most 19 digits.
unfoldable pub format_int : ℤ → String
unfolding decimal
format_int (pos n) = decimal 19 n
format_int (negsuc n) = "-" <> decimal 19 (suc n)

-- rand.Read gives bytes or fails, and then the clock counts.
pub record Source : Type 0 where
  pub random : Option (List ℕ)
  pub unix_nano : ℤ

unfoldable pub new_id : Source → String
unfolding encode_to_string format_int
new_id source = elim source.random [
  | none ↦ format_int source.unix_nano
  | some bytes ↦ encode_to_string bytes
]

-- The id in the response and the one in the log.
pub record Tagged : Type 0 where
  pub header : Header
  pub logged : String

unfoldable pub request_id_middleware : Source → String → Header → Tagged
unfolding new_id valid_request_id set_header
request_id_middleware source given h =
    let req_id = if is_empty given || not (valid_request_id given) then new_id source else given in
    record { header = set_header "X-Request-ID" req_id h; logged = req_id }
