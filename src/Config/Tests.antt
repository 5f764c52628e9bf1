-- ===== src/Config/Tests.antt =====
-- A connection string in keyword form.
use c3x_pricing_api.Base.{
  ◌≡◌, refl, String, List, [], ◌∷◌, some, none, false, All, str_eq, arith, has_prefix, has_char,
  strip_prefix,
}
use c3x_pricing_api.Config.{Library, extract_ssl_mode}
use c3x_pricing_api.Config.Sslmode.{print, IsPair, mode_of, extract_ssl_mode-print}

abbrev lib : Library
lib = record {
  to_lower = λ s. s;
  equal_fold = str_eq;
  parse_float = λ s. none;
  url_sslmode = λ s. some "";
}

abbrev pairs : List (String × String)
pairs = ("host", "db") ∷ ("sslmode", "require") ∷ []

pairs-IsPair : All IsPair pairs
unfolding has_char
pairs-IsPair = (
  ((λ e. cc), refl, ground arith, ground arith),
  (((λ e. cc), refl, ground arith, ground arith), tt),
)

not_short : has_prefix (print pairs) "postgres://" ≡ false
unfolding strip_prefix
not_short = refl

not_long : has_prefix (print pairs) "postgresql://" ≡ false
unfolding strip_prefix
not_long = refl

extract_ssl_mode-print_example : extract_ssl_mode lib (print pairs) ≡ some (mode_of lib pairs)
extract_ssl_mode-print_example = extract_ssl_mode-print lib pairs pairs-IsPair not_short not_long
