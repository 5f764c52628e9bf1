-- ===== src/Db/Regex.antt =====
-- internal/db/queries.go: `MatchRegexPattern`, and the simulation of lookarounds under it. Package
-- regexp is an engine: which patterns compile, and what the compiled ones match. The compiled
-- patterns are shared in a cache, which `Cache` shows to be transparent.
pub mod Groups
pub mod Excluded
pub mod Cache
mod Tests
use Prim.Native.String
use Prim.Native.String.{len}
use c3x_pricing_api.Base.{
  ℕ, zero, suc, ◌+◌, String, Char, code, Option, none, some, List, [], ◌∷◌, Bool, true, false, not,
  ltb, ◌==◌, str_eq, ◌||◌, ◌&&◌, if◌then◌else◌, any, length, map, ◌-◌, ◌≡◌, ◌<>◌, strip_prefix, cut,
  cut_last, contains, has_char, has_prefix, is_some, trim_space, split, trim_suffix, has_suffix,
  size,
}
use c3x_pricing_api.Db.Types.{max_regex_length}
use c3x_pricing_api.Db.Pattern.{normalize_regex_for_prefix}

-- `text_before` is the text before the leftmost match; `lower` is strings.ToLower.
pub record RegexEngine (R : Type 0) : Type 0 where
  pub compile : String → Option R
  pub match_string : R → String → Bool
  pub text_before : R → String → Option String
  pub lower : String → String

abbrev prepend : Char → Option (String × String) → Option (String × String)
prepend c none = none
prepend c (some (inside, after)) = some (String.◌∷◌ c inside, after)

-- What stands inside and after a parenthesis that is open, with `depth` more open inside it.
unfoldable pub close_group : ℕ → String → Option (String × String)
close_group depth String.[] = none
close_group depth (String.◌∷◌ c s) = elim (code c == b'(') [
  | true ↦ prepend c (close_group (suc depth) s)
  | false ↦ elim (code c == b')') [
    | true ↦ elim depth [ zero ↦ some ("", s) | suc d ↦ prepend c (close_group d s) ]
    | false ↦ prepend c (close_group depth s)
  ]
]

-- The groups that the loop of matchWithNegativeLookahead visits; a group a round.
unfoldable pub lookaheads : ℕ → String → List String
lookaheads zero remaining = []
lookaheads (suc rounds) remaining = elim (cut "(?!" remaining) [
  | none ↦ []
  | some (before, rest) ↦ elim (close_group 0 rest) [
    | none ↦ []
    | some (exclusion, after) ↦ exclusion ∷ lookaheads rounds after
  ]
]

-- The groups of matchWithNegativeLookbehind, and the pattern without them.
unfoldable pub lookbehinds : ℕ → String → List String × String
lookbehinds zero remaining = ([], remaining)
lookbehinds (suc rounds) remaining = elim (cut "(?<!" remaining) [
  | none ↦ ([], remaining)
  | some (before, rest) ↦ elim (close_group 0 rest) [
    | none ↦ ([], remaining)
    | some (exclusion, after) ↦
        let (exclusions, positive) = lookbehinds rounds (before <> after) in
        (exclusion ∷ exclusions, positive)
  ]
]

abbrev pub fold_case : {R : Type 0} → RegexEngine R → Bool → String → String
fold_case engine case_insensitive s = if case_insensitive then engine.lower s else s

abbrev pub trim_prefix : String → String → String
trim_prefix p s = elim (strip_prefix p s) [ none ↦ s | some rest ↦ rest ]

-- (?!.*(Term1|Term2)$) excludes Term1 and Term2; they are trimmed where they are tested.
unfoldable pub alternatives : {R : Type 0} → RegexEngine R → Bool → String → List String
alternatives engine case_insensitive exclusion = split b'|' (
    fold_case engine case_insensitive
      (trim_suffix b')' (trim_prefix "(" (trim_suffix b'$' (trim_prefix ".*" exclusion)))))

abbrev pub is_excluded : String → String → Bool
is_excluded test_value alt = let t = trim_space alt in not (str_eq t "") && contains test_value t

-- Without every match of `\(\?![^)]*\)`: from a "(?!" to the next closing parenthesis.
unfoldable pub remove_lookaheads : (skipping : Bool) → String → String
remove_lookaheads skipping String.[] = ""
remove_lookaheads true (String.◌∷◌ c s) = elim (code c == b')') [
  | true ↦ remove_lookaheads false s
  | false ↦ remove_lookaheads true s
]
remove_lookaheads false (String.◌∷◌ c s) =
    elim (has_prefix (String.◌∷◌ c s) "(?!" && has_char b')' s) [
      | true ↦ remove_lookaheads true s
      | false ↦ String.◌∷◌ c (remove_lookaheads false s)
    ]

-- strings.ReplaceAll(s, t, "") for a text of at least one character; `skip` characters of an
-- occurrence are still to be left out.
unfoldable pub remove_all : String → ℕ → String → String
remove_all t skip String.[] = ""
remove_all t (suc k) (String.◌∷◌ c s) = remove_all t k s
remove_all t zero (String.◌∷◌ c s) = elim (has_prefix (String.◌∷◌ c s) t) [
  | true ↦ remove_all t (size t - 1) s
  | false ↦ String.◌∷◌ c (remove_all t 0 s)
]

abbrev pub flag : Bool → String
flag case_insensitive = if case_insensitive then "(?i)" else ""

match_positive : {R : Type 0} → RegexEngine R → String → String → Bool → Bool
match_positive engine cleaned value case_insensitive =
    if str_eq cleaned "" || str_eq cleaned "^.*$" || str_eq cleaned ".*"
    then true
    else (elim (engine.compile (flag case_insensitive <> cleaned)) [
      | none ↦ true
      | some re ↦ engine.match_string re value
    ])

-- The expression that removes the lookaheads is constant and compiles.
unfoldable pub match_with_negative_lookahead :
    {R : Type 0} → RegexEngine R → String → String → Bool → Bool
unfolding match_positive
match_with_negative_lookahead engine pattern value case_insensitive =
    let test_value = fold_case engine case_insensitive value in
    if any (λ g. any (is_excluded test_value) (alternatives engine case_insensitive g))
      (lookaheads (size pattern) pattern)
    then false
    else match_positive engine (remove_all "(?i)" 0 (remove_lookaheads false pattern)) value
        case_insensitive

match_before : List String → Option String → Bool
match_before exclusions none = false
match_before exclusions (some text) = not (any (has_suffix text) exclusions)

unfoldable pub match_with_negative_lookbehind :
    {R : Type 0} → RegexEngine R → String → String → Bool → Bool
unfolding match_before
match_with_negative_lookbehind engine pattern value case_insensitive =
    let (groups, positive) = lookbehinds (size pattern) pattern in
    if str_eq positive "" || str_eq positive "$"
    then true
    else (elim (engine.compile (flag case_insensitive <> positive)) [
      | none ↦ false
      | some re ↦
          match_before (map (fold_case engine case_insensitive) groups)
            (engine.text_before re (fold_case engine case_insensitive value))
    ])

match_plain : {R : Type 0} → RegexEngine R → String → String → Bool
match_plain engine pattern value = elim (engine.compile pattern) [
  | none ↦ false
  | some re ↦ engine.match_string re value
]

match_body : {R : Type 0} → RegexEngine R → String → Bool → String → Bool
unfolding match_plain
match_body engine body case_insensitive value =
    if contains body "(?!"
    then match_with_negative_lookahead engine body value case_insensitive
    else if contains body "(?<!"
    then match_with_negative_lookbehind engine body value case_insensitive
    else match_plain engine (flag case_insensitive <> body) value

match_flags : {R : Type 0} → RegexEngine R → Option (String × String) → String → Bool
unfolding match_body
match_flags engine none value = false
match_flags engine (some (body, flags)) value =
    match_body engine (normalize_regex_for_prefix body) (has_char b'i' flags) value

unfoldable pub match_regex_pattern : {R : Type 0} → RegexEngine R → String → String → Bool
unfolding match_plain match_flags
match_regex_pattern engine pattern value =
    if ltb max_regex_length (len pattern) then false else (elim (strip_prefix "/" pattern) [
      | none ↦ match_plain engine pattern value
      | some rest ↦ match_flags engine (cut_last b'/' rest) value
    ])

-- The cache of compiled patterns, and the two critical sections of compileRegex: the look-up, and
-- the insertion of a pattern compiled in between.
abbrev pub max_regex_cache_size : ℕ
max_regex_cache_size = 1024

abbrev pub RegexCache : Type 0 → Type 0
RegexCache R = List (String × R)

unfoldable pub lookup : {R : Type 0} → String → RegexCache R → Option R
lookup pattern [] = none
lookup pattern ((k, re) ∷ cache) = if str_eq k pattern then some re else lookup pattern cache

unfoldable pub set : {R : Type 0} → String → R → RegexCache R → RegexCache R
set pattern re [] = (pattern, re) ∷ []
set pattern re ((k, old) ∷ cache) =
    if str_eq k pattern then (k, re) ∷ cache else (k, old) ∷ set pattern re cache

unfoldable pub insert : {R : Type 0} → String → R → RegexCache R → RegexCache R
unfolding set
insert pattern re cache =
    if ltb (length cache) max_regex_cache_size then set pattern re cache else cache

-- What compileRegex returns with this cache.
unfoldable pub compile_regex : {R : Type 0} → RegexEngine R → RegexCache R → String → Option R
compile_regex engine cache pattern = elim (lookup pattern cache) [
  | some re ↦ some re
  | none ↦ engine.compile pattern
]

-- A call that misses compiles, and inserts some time later.
pub data CacheStep (R : Type 0) (engine : RegexEngine R)
    : RegexCache R → RegexCache R → Type 0 where
  store :
      {cache : RegexCache R} (pattern : String) (re : R)
      → engine.compile pattern ≡ some re
      → CacheStep R engine cache (insert pattern re cache)

pub data CacheReach (R : Type 0) (engine : RegexEngine R) : RegexCache R → Type 0 where
  start : CacheReach R engine []
  next :
      {cache cache' : RegexCache R}
      → CacheReach R engine cache
      → CacheStep R engine cache cache'
      → CacheReach R engine cache'
