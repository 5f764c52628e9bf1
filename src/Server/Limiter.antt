-- ===== src/Server/Limiter.antt =====
-- internal/server/server.go: `getLimiter` and `evictIdleLimiters`. An element of the LRU list is
-- known by its IP, and a rate.Limiter by the number of its creation. Times are readings of a clock.
pub mod Eviction
pub mod Lists
pub mod Validity
mod Tests
use c3x_pricing_api.Base.{
  ℕ, ◌+◌, String, Option, none, some, List, [], ◌∷◌, ◌++◌, Bool, true, false, ltb, leb, str_eq,
  if◌then◌else◌, length,
}

pub record IpLimiter : Type 0 where
  pub ip : String
  pub limiter : ℕ
  pub last_use : ℕ

-- `lru` runs from the back of the list (least recently used) to its front; `limiters` tells for
-- which IPs the map has an element.
pub record Limiters : Type 0 where
  pub lru : List IpLimiter
  pub limiters : String → Bool
  pub created : ℕ

abbrev pub max_rate_limiters : ℕ
max_rate_limiters = 10000

unfoldable pub find : String → List IpLimiter → Option IpLimiter
find ip [] = none
find ip (e ∷ lru) = if str_eq e.ip ip then some e else find ip lru

unfoldable pub remove : String → List IpLimiter → List IpLimiter
remove ip [] = []
remove ip (e ∷ lru) = if str_eq e.ip ip then lru else e ∷ remove ip lru

abbrev pub put : String → (String → Bool) → String → Bool
put ip m k = if str_eq ip k then true else m k

abbrev pub delete : String → (String → Bool) → String → Bool
delete ip m k = if str_eq ip k then false else m k

-- A hit: the last use is now, and the element goes to the front.
touch : ℕ → String → Limiters → IpLimiter → Limiters × ℕ
touch now ip s e =
    (record s { lru = remove ip s.lru ++ record e { last_use = now } ∷ [] }, e.limiter)

-- Removes the oldest element, at the cap.
make_room : List IpLimiter → Limiters → Limiters
make_room [] s = s
make_room (old ∷ lru) s =
    if leb max_rate_limiters (length s.lru)
    then record s { lru = lru; limiters = delete old.ip s.limiters }
    else s

add : ℕ → String → Limiters → Limiters × ℕ
add now ip s = (
  record {
    lru = s.lru ++ record { ip = ip; limiter = s.created; last_use = now } ∷ [];
    limiters = put ip s.limiters;
    created = s.created + 1;
  },
  s.created,
)

-- The limiter of the IP, made if the map has none.
unfoldable pub get_limiter : ℕ → String → Limiters → Limiters × ℕ
unfolding touch make_room add
get_limiter now ip s =
    if s.limiters ip
    then (elim (find ip s.lru) [ some e ↦ touch now ip s e | none ↦ (s, 0) ])
    else add now ip (make_room s.lru s)

-- The loop from the back: the first element used after the cutoff ends it.
evict : ℕ → ℕ → List IpLimiter → (String → Bool) → List IpLimiter × (String → Bool)
evict now max_age [] m = ([], m)
evict now max_age (e ∷ lru) m = elim (ltb now (e.last_use + max_age)) [
  | true ↦ (e ∷ lru, m)
  | false ↦ evict now max_age lru (delete e.ip m)
]

unfoldable pub evict_idle_limiters : ℕ → ℕ → Limiters → Limiters
unfolding evict
evict_idle_limiters now max_age s =
    let (lru, m) = evict now max_age s.lru s.limiters in record s { lru = lru; limiters = m }
