-- ===== src/Db/Regex/Tests.antt =====
-- Regexes and prices on concrete patterns.
use c3x_pricing_api.Base.{◌≤◌, ◌≡◌, refl, String, none, some, [], ◌∷◌, ◌++◌, length, str_eq}
use c3x_pricing_api.Db.Types.{Price, PriceFilter}
use c3x_pricing_api.Db.Regex.{
  RegexEngine, RegexCache, max_regex_cache_size, compile_regex, CacheReach, start, next, store,
  insert,
}
use c3x_pricing_api.Db.Regex.Cache.{CacheReach-transparent}
use c3x_pricing_api.Db.Prices.{filter_prices}
use c3x_pricing_api.Db.Prices.Selection.{IsSelected, filter_prices-IsSelected}

-- An engine whose patterns are the texts that match.
abbrev engine : RegexEngine String
engine = record {
  compile = λ pattern. some pattern;
  match_string = λ re value. str_eq re value;
  text_before = λ re value. none;
  lower = λ s. s;
}

abbrev one_pattern : RegexCache String
one_pattern = ("a", "a") ∷ []

one_pattern-CacheReach : CacheReach String engine one_pattern
unfolding insert
one_pattern-CacheReach = next start (store "a" "a" refl)

CacheReach-transparent_example :
    (length one_pattern ≤ max_regex_cache_size)
    × ((pattern : String) → compile_regex engine one_pattern pattern ≡ engine.compile pattern)
CacheReach-transparent_example =
    CacheReach-transparent String engine one_pattern one_pattern-CacheReach

abbrev without : String
without = "^(?!.*(Tax|Fee)$).*$"

abbrev price : String → String → Price
price unit start_amount = record {
  price_hash = "h";
  purchase_option = "on_demand";
  unit = unit;
  usd = "0.1";
  start_usage_amount = start_amount;
  end_usage_amount = "";
  description = "";
  term_length = "";
  term_purchase_option = "";
  term_offering_class = "";
}

abbrev hourly : PriceFilter
hourly = record {
  purchase_option = some "on-demand";
  unit = some "Hrs";
  description = none;
  description_regex = none;
  start_usage_amount = some "0";
  end_usage_amount = none;
  term_length = none;
  term_purchase_option = none;
  term_offering_class = none;
}

filter_prices-IsSelected_example :
    let result = filter_prices engine (price "GB" "" ∷ price "Hrs" "" ∷ []) (some hourly) in
    let ps = filter_prices engine (price "GB" "" ∷ []) (some hourly) in
    let qs = filter_prices engine [] (some hourly) in
    (IsSelected String engine hourly (price "Hrs" "") → result ≡ ps ++ price "Hrs" "" ∷ qs)
    × ((IsSelected String engine hourly (price "Hrs" "") → ⊥) → result ≡ ps ++ qs)
filter_prices-IsSelected_example =
    filter_prices-IsSelected String engine hourly (price "GB" "" ∷ []) [] (price "Hrs" "")
