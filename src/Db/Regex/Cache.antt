-- ===== src/Db/Regex/Cache.antt =====
-- The cache of compiled patterns is transparent and bounded.
use c3x_pricing_api.Base.{
  ◌+◌, ◌≤◌, ◌≡◌, refl, sym, ap, ◌∙◌, String, some, [], ◌∷◌, str_eq, eq_iff, ltb, if◌then◌else◌,
  length, arith, Option-cases, Bool-cases, inl, inr,
}
use c3x_pricing_api.Db.Regex.{
  RegexEngine, RegexCache, max_regex_cache_size, lookup, set, insert, compile_regex, store,
  CacheReach, start, next,
}

record IsCache (R : Type 0) (engine : RegexEngine R) (cache : RegexCache R) : Type 0 where
  pub right :
      (pattern : String) (re : R)
      → lookup pattern cache ≡ some re
      → engine.compile pattern ≡ some re
  pub bounded : length cache ≤ max_regex_cache_size

lookup-set :
    {R : Type 0} (pattern k : String) (re : R) (cache : RegexCache R)
    → lookup k (set pattern re cache) ≡ (if str_eq pattern k then some re else lookup k cache)
unfolding lookup set
lookup-set pattern k re [] = refl
lookup-set pattern k re ((j, old) ∷ cache) =
    ground (arith, lookup-set pattern k re cache, eq_iff j pattern, eq_iff j k, eq_iff pattern k)

length-set :
    {R : Type 0} (pattern : String) (re : R) (cache : RegexCache R)
    → length (set pattern re cache) ≤ length cache + 1
unfolding set
length-set pattern re [] = omega arith
length-set pattern re ((j, old) ∷ cache) = ground (arith, length-set pattern re cache)

insert-IsCache :
    (R : Type 0) (engine : RegexEngine R) (cache : RegexCache R) (pattern : String) (re : R)
    → engine.compile pattern ≡ some re
    → IsCache R engine cache
    → IsCache R engine (insert pattern re cache)
unfolding insert
insert-IsCache R engine cache pattern re e v =
    elim (Bool-cases (ltb (length cache) max_regex_cache_size)) [
      | inr full ↦ rw full v
      | inl room ↦ rw room (record {
        right = λ k r h. elim (Bool-cases (str_eq pattern k)) [
          | inl same ↦
              let new : some re ≡ some r = ground (arith, lookup-set pattern k re cache, same, h) in
              sym (ap engine.compile ((eq_iff pattern k).0 same)) ∙ e ∙ new
          | inr other ↦ v.right k r (ground (arith, lookup-set pattern k re cache, other, h))
        ];
        bounded = ground (arith, length-set pattern re cache, room);
      })
    ]

CacheReach-IsCache :
    (R : Type 0) (engine : RegexEngine R) (cache : RegexCache R)
    → CacheReach R engine cache
    → IsCache R engine cache
unfolding lookup
CacheReach-IsCache R engine _ start = record {
  right = λ k re h. absurd (ground arith);
  bounded = omega arith;
}
CacheReach-IsCache R engine _ (next {cache} r (store pattern re e)) =
    insert-IsCache R engine cache pattern re e (CacheReach-IsCache R engine cache r)

-- However calls race for the cache, it holds at most 1024 patterns, and what compileRegex returns
-- is what compiling afresh returns.
pub CacheReach-transparent :
    (R : Type 0) (engine : RegexEngine R) (cache : RegexCache R)
    → CacheReach R engine cache
    → (length cache ≤ max_regex_cache_size)
      × ((pattern : String) → compile_regex engine cache pattern ≡ engine.compile pattern)
unfolding compile_regex
CacheReach-transparent R engine cache r =
    let v = CacheReach-IsCache R engine cache r in
    (
      v.bounded,
      λ pattern. elim (Option-cases (lookup pattern cache)) [
        | inl miss ↦ rw (miss, compile_regex) refl
        | inr (re, hit) ↦ rw (hit, compile_regex) (sym (v.right pattern re hit))
      ],
    )
