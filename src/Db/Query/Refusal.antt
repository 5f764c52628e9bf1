-- ===== src/Db/Query/Refusal.antt =====
-- When a query is refused.
use Prim.Native.String.{len}
use c3x_pricing_api.Base.{
  ◌<◌, ◌≡◌, ◌↔◌, ◌⊎◌, refl, String, Option, none, some, List, [], ◌∷◌, true, arith, inl, inr,
  Bool-cases,
}
use c3x_pricing_api.Db.Types.{ProductFilter, AttributeFilter}
use c3x_pricing_api.Db.Query.{is_long, has_long_regex, build_product_query}

abbrev pub IsLong : Option String → Type 0
IsLong regex = (r : String) × (regex ≡ some r) × (200 < len r)

abbrev pub HasLongRegex : List AttributeFilter → Type 0
HasLongRegex [] = ⊥
HasLongRegex (af ∷ afs) = IsLong af.value_regex ⊎ HasLongRegex afs

is_long_sound : (regex : Option String) → is_long regex ≡ true → IsLong regex
unfolding is_long
is_long_sound none h = cc
is_long_sound (some r) h = (r, refl, ground arith)

is_long_complete : (regex : Option String) → IsLong regex → is_long regex ≡ true
unfolding is_long
is_long_complete regex (r, e, h) = rw e (ground arith)

has_long_regex_sound : (afs : List AttributeFilter) → has_long_regex afs ≡ true → HasLongRegex afs
unfolding has_long_regex
has_long_regex_sound [] h = cc
has_long_regex_sound (af ∷ afs) h = elim (Bool-cases (is_long af.value_regex)) [
  | inl long ↦ inl (is_long_sound af.value_regex long)
  | inr short ↦ inr (has_long_regex_sound afs (rw short at h))
]

has_long_regex_complete :
    (afs : List AttributeFilter) → HasLongRegex afs → has_long_regex afs ≡ true
unfolding has_long_regex
has_long_regex_complete [] h = absurd h
has_long_regex_complete (af ∷ afs) (inl h) = rw (is_long_complete af.value_regex h)
has_long_regex_complete (af ∷ afs) (inr h) = ground (arith, has_long_regex_complete afs h)

-- A query is refused exactly when the regex of some attribute filter is longer than 200 bytes,
-- also where that filter's value would win over its regex.
pub build_product_query-none_iff :
    (f : ProductFilter) → (build_product_query f ≡ none) ↔ HasLongRegex f.attribute_filters
unfolding build_product_query
build_product_query-none_iff f = elim (Bool-cases (has_long_regex f.attribute_filters)) [
  | inl long ↦ (λ e. has_long_regex_sound f.attribute_filters long, λ h. rw long)
  | inr short ↦ (
    λ e. absurd (ground arith),
    λ h. absurd (ground (arith, has_long_regex_complete f.attribute_filters h)),
  )
]
