-- ===== src/Db/Pattern.antt =====
-- internal/db/queries.go: the /PATTERN/flags notation of value_regex, for PostgreSQL and for Go.
use c3x_pricing_api.Base.{
  String, Option, none, some, Bool, false, ◌<>◌, strip_prefix, cut_last, has_char,
}

-- The body and the case flag of what stands behind the leading slash.
split_flags : Option (String × String) → String × Bool
split_flags none = ("", false)
split_flags (some (body, flags)) = (body, has_char b'i' flags)

-- A pattern with no leading slash is a bare regex; one with no closing slash is empty.
unfoldable pub parse_regex_for_postgres : String → String × Bool
unfolding split_flags
parse_regex_for_postgres pattern = elim (strip_prefix "/" pattern) [
  | none ↦ (pattern, false)
  | some rest ↦ split_flags (cut_last b'/' rest)
]

-- `\-` at the start matches a hyphen or the start of the text.
unfoldable pub normalize_regex_for_prefix : String → String
normalize_regex_for_prefix pattern = elim (strip_prefix "\\-" pattern) [
  | none ↦ pattern
  | some rest ↦ "(^|-)" <> rest
]
