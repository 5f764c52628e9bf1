-- ===== src/Server/Limiter/Eviction.antt =====
-- The eviction of idle limiters.
use c3x_pricing_api.Base.{
  ℕ, ◌+◌, ◌<◌, ◌≡◌, refl, subst, String, List, [], ◌∷◌, Bool, true, false, ltb, arith, All, keep,
  Bool-cases, inl, inr,
}
use c3x_pricing_api.Server.Limiter.{IpLimiter, Limiters, delete, evict, evict_idle_limiters}
use c3x_pricing_api.Server.Limiter.Lists.{AreOrdered, UsedSince}
use c3x_pricing_api.Server.Limiter.Validity.{IsValid, drop_back-IsValid}

evict_fresh :
    (now max_age : ℕ) (e : IpLimiter) (lru : List IpLimiter) (m : String → Bool)
    → ltb now (e.last_use + max_age) ≡ true
    → evict now max_age (e ∷ lru) m ≡ (e ∷ lru, m)
unfolding evict
evict_fresh now max_age e lru m fresh = ground arith

evict_idle :
    (now max_age : ℕ) (e : IpLimiter) (lru : List IpLimiter) (m : String → Bool)
    → ltb now (e.last_use + max_age) ≡ false
    → evict now max_age (e ∷ lru) m ≡ evict now max_age lru (delete e.ip m)
unfolding evict
evict_idle now max_age e lru m idle = ground arith

evict_nil : (now max_age : ℕ) (m : String → Bool) → evict now max_age [] m ≡ ([], m)
unfolding evict
evict_nil now max_age m = refl

evict-IsValid :
    (now max_age : ℕ) (s : Limiters) (lru : List IpLimiter)
    → s.lru ≡ lru
    → IsValid now s
    → let (lru', m) = evict now max_age lru s.limiters in
      IsValid now (record s { lru = lru'; limiters = m })
evict-IsValid now max_age s [] same v =
    rw (evict_nil now max_age s.limiters) (subst (λ xs. IsValid now (record s { lru = xs })) same v)
evict-IsValid now max_age s (e ∷ lru) same v = elim (Bool-cases (ltb now (e.last_use + max_age))) [
  | inl fresh ↦
      rw (evict_fresh now max_age e lru s.limiters fresh)
        (subst (λ xs. IsValid now (record s { lru = xs })) same v)
  | inr idle ↦ rw (evict_idle now max_age e lru s.limiters idle) (
      evict-IsValid now max_age (record s { lru = lru; limiters = delete e.ip s.limiters }) lru refl
        (drop_back-IsValid now s e lru same v))
]

abbrev pub is_fresh : ℕ → ℕ → IpLimiter → Bool
is_fresh now max_age e = ltb now (e.last_use + max_age)

keep-All :
    (now max_age t : ℕ) (lru : List IpLimiter)
    → now < t + max_age
    → All (UsedSince t) lru
    → keep (is_fresh now max_age) lru ≡ lru
keep-All now max_age t [] h used = refl
keep-All now max_age t (e ∷ lru) h (u, us) = ground (arith, keep-All now max_age t lru h us)

evict-keep :
    (now max_age : ℕ) (lru : List IpLimiter) (m : String → Bool)
    → AreOrdered now lru
    → (evict now max_age lru m).0 ≡ keep (is_fresh now max_age) lru
unfolding evict
evict-keep now max_age [] m o = refl
evict-keep now max_age (e ∷ lru) m (le, all, o) =
    ground (
      arith,
      evict-keep now max_age lru (delete e.ip m) o,
      keep-All now max_age e.last_use lru,
      all,
    )

-- An eviction keeps exactly the limiters used within the maximal age, in their order, although it
-- stops at the first of them, and leaves the limiters valid.
pub evict_idle_limiters-keep :
    (now max_age : ℕ) (s : Limiters)
    → IsValid now s
    → let s' = evict_idle_limiters now max_age s in
      IsValid now s' × (s'.lru ≡ keep (is_fresh now max_age) s.lru)
unfolding evict_idle_limiters
evict_idle_limiters-keep now max_age s v =
    (evict-IsValid now max_age s s.lru refl v, evict-keep now max_age s.lru s.limiters v.ordered)
