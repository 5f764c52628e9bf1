-- ===== src/Server/Limiter/Lists.antt =====
-- The list of the limiters: lookups, removals and the order of use.
use c3x_pricing_api.Base.{
  ℕ, ◌+◌, ◌≤◌, ◌≡◌, refl, String, none, some, List, [], ◌∷◌, ◌++◌, str_eq, eq_iff, if◌then◌else◌,
  length, arith, is_some, All, All-append,
}
use c3x_pricing_api.Server.Limiter.{IpLimiter, Limiters, max_rate_limiters, find, remove}

abbrev pub AreDistinct : List IpLimiter → Type 0
AreDistinct [] = Unit
AreDistinct (e ∷ lru) = (find e.ip lru ≡ none) × AreDistinct lru

-- Uses fall towards the back, and none is later than now.
abbrev pub AreOrdered : ℕ → List IpLimiter → Type 0
AreOrdered now [] = Unit
AreOrdered now (e ∷ lru) =
    (e.last_use ≤ now) × All (λ f. e.last_use ≤ f.last_use) lru × AreOrdered now lru

pub record IsValid (now : ℕ) (s : Limiters) : Type 0 where
  pub synced : (ip : String) → s.limiters ip ≡ is_some (find ip s.lru)
  pub distinct : AreDistinct s.lru
  pub bounded : length s.lru ≤ max_rate_limiters
  pub ordered : AreOrdered now s.lru

pub find-append :
    (k : String) (xs ys : List IpLimiter)
    → find k (xs ++ ys) ≡ elim (find k xs) [ none ↦ find k ys | some e ↦ some e ]
unfolding find
find-append k [] ys = refl
find-append k (x ∷ xs) ys = ground (arith, find-append k xs ys)

pub find-remove :
    (ip k : String) (lru : List IpLimiter)
    → AreDistinct lru
    → find k (remove ip lru) ≡ (if str_eq ip k then none else find k lru)
unfolding find remove
find-remove ip k [] d = ground arith
find-remove ip k (e ∷ lru) (fresh, d) =
    ground (arith, find-remove ip k lru d, eq_iff e.ip ip, eq_iff ip k, eq_iff e.ip k)

pub find-ip : (k : String) (lru : List IpLimiter) (e : IpLimiter) → find k lru ≡ some e → e.ip ≡ k
unfolding find
find-ip k [] e h = cc
find-ip k (x ∷ lru) e h = ground (arith, find-ip k lru e, eq_iff x.ip k)

length-remove-le : (ip : String) (lru : List IpLimiter) → length (remove ip lru) ≤ length lru
unfolding remove
length-remove-le ip [] = omega arith
length-remove-le ip (e ∷ lru) = ground (arith, length-remove-le ip lru)

pub length-remove :
    (ip : String) (lru : List IpLimiter) (e : IpLimiter)
    → find ip lru ≡ some e
    → length (remove ip lru) + 1 ≡ length lru
unfolding remove find
length-remove ip [] e h = cc
length-remove ip (x ∷ lru) e h = ground (arith, length-remove ip lru e)

pub remove-AreDistinct :
    (ip : String) (lru : List IpLimiter) → AreDistinct lru → AreDistinct (remove ip lru)
unfolding remove
remove-AreDistinct ip [] d = tt
remove-AreDistinct ip (e ∷ lru) (fresh, d) =
    ground (arith, remove-AreDistinct ip lru d, find-remove ip e.ip lru d)

pub append-AreDistinct :
    (lru : List IpLimiter) (e : IpLimiter)
    → AreDistinct lru
    → find e.ip lru ≡ none
    → AreDistinct (lru ++ e ∷ [])
unfolding find
append-AreDistinct [] e d h = (refl, tt)
append-AreDistinct (x ∷ lru) e (fresh, d) h = ground (
  arith,
  append-AreDistinct lru e d,
  find-append x.ip lru (e ∷ []),
  eq_iff e.ip x.ip,
  eq_iff x.ip e.ip,
)

pub AreOrdered-mono : (m n : ℕ) (lru : List IpLimiter) → m ≤ n → AreOrdered m lru → AreOrdered n lru
AreOrdered-mono m n [] h o = tt
AreOrdered-mono m n (e ∷ lru) h (le, all, o) = (omega arith, all, AreOrdered-mono m n lru h o)

abbrev pub UsedSince : ℕ → IpLimiter → Type 0
UsedSince t f = t ≤ f.last_use

remove-UsedSince :
    (t : ℕ) (ip : String) (lru : List IpLimiter)
    → All (UsedSince t) lru
    → All (UsedSince t) (remove ip lru)
unfolding remove
remove-UsedSince t ip [] h = tt
remove-UsedSince t ip (e ∷ lru) (h, hs) = ground (arith, remove-UsedSince t ip lru hs)

pub remove-AreOrdered :
    (now : ℕ) (ip : String) (lru : List IpLimiter)
    → AreOrdered now lru
    → AreOrdered now (remove ip lru)
unfolding remove
remove-AreOrdered now ip [] o = tt
remove-AreOrdered now ip (e ∷ lru) (le, all, o) =
    ground (arith, remove-AreOrdered now ip lru o, remove-UsedSince e.last_use ip lru all)

-- What was used just now goes to the front.
pub append-AreOrdered :
    (then' now : ℕ) (lru : List IpLimiter) (e : IpLimiter)
    → then' ≤ now
    → AreOrdered then' lru
    → e.last_use ≡ now
    → AreOrdered now (lru ++ e ∷ [])
append-AreOrdered m now [] e h o used = (omega arith, tt, tt)
append-AreOrdered m now (x ∷ lru) e h (le, all, o) used = (
  omega arith,
  All-append (UsedSince x.last_use) lru (e ∷ []) all (omega arith, tt),
  append-AreOrdered m now lru e h o used,
)
