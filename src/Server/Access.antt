-- ===== src/Server/Access.antt =====
-- internal/server/server.go: `authMiddleware`, `clientIP` and `rateLimitMiddleware`. SHA-256, the
-- networks of package net and the token bucket are parameters.
pub mod Keys
pub mod Spoofing
use c3x_pricing_api.Base.{
  ℕ, String, Option, none, some, List, [], ◌∷◌, Bool, true, false, str_eq, ◌||◌, if◌then◌else◌, any,
  strip_prefix, cut_char, trim_space,
}
use c3x_pricing_api.Base.Int.{ℤ, pos, leb_ℤ}
use c3x_pricing_api.Server.Limiter.{Limiters, get_limiter}

-- A header that is not set reads as "".
pub record Headers : Type 0 where
  pub authorization : String
  pub x_api_key : String
  pub cf_connecting_ip : String
  pub x_forwarded_for : String

abbrev pub or_else : Option String → String → String
or_else none s = s
or_else (some t) s = t

-- A bearer token wins over the X-Api-Key header, unless it is empty.
unfoldable pub provided_key : Headers → String
provided_key h =
    let bearer = or_else (strip_prefix "Bearer " h.authorization) "" in
    if str_eq bearer "" then h.x_api_key else bearer

-- True if the next handler is called; false is a 403.
unfoldable pub auth_middleware : (String → String) → String → Headers → Bool
unfolding provided_key
auth_middleware sha256 api_key h =
    if str_eq api_key "" then true else str_eq (sha256 (provided_key h)) (sha256 api_key)

-- Each trusted network or address, as the test whether it is that of the peer.
pub record Proxies : Type 0 where
  pub split_host : String → Option String
  pub trusted_proxies : List (String → Bool)
  pub trusted_ips : List (String → Bool)

abbrev is_nil : List (String → Bool) → List (String → Bool) → Bool
is_nil [] [] = true
is_nil _ _ = false

unfoldable pub peer : Proxies → String → String
peer net remote_addr = or_else (net.split_host remote_addr) remote_addr

abbrev pub is_trusted : Proxies → String → Bool
is_trusted net ip =
    any (λ network. network ip) net.trusted_proxies || any (λ tip. tip ip) net.trusted_ips

-- strings.Split(s, ",")[0]
abbrev first_hop : String → String
first_hop s = elim (cut_char b',' s) [ none ↦ s | some (before, after) ↦ before ]

forwarded : Headers → String → String
forwarded h ip =
    let cf = trim_space h.cf_connecting_ip in
    if str_eq cf ""
    then (if str_eq h.x_forwarded_for "" then ip else trim_space (first_hop h.x_forwarded_for))
    else cf

unfoldable pub client_ip : Proxies → String → Headers → String
unfolding peer forwarded
client_ip net remote_addr h =
    let ip = peer net remote_addr in
    if is_nil net.trusted_proxies net.trusted_ips
    then ip
    else if is_trusted net ip
    then forwarded h ip
    else ip

-- The limiters afterwards, and true if the next handler is called; false is a 429. `allow` is
-- what the token bucket of a limiter answers.
unfoldable pub rate_limit_middleware :
    ℤ → Proxies → (ℕ → Bool) → ℕ → String → Headers → Limiters → Limiters × Bool
rate_limit_middleware per_sec net allow now remote_addr h s =
    if leb_ℤ per_sec (pos 0)
    then (s, true)
    else (let (s', limiter) = get_limiter now (client_ip net remote_addr h) s in
        (s', allow limiter))
