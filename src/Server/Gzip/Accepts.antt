-- ===== src/Server/Gzip/Accepts.antt =====
-- internal/server/gzip.go: which clients get compressed responses. A name is compared with `gzip`
-- up to the case of ASCII letters, since no other letter folds to one of its letters.
use c3x_pricing_api.Base.{
  ℕ, ◌+◌, String, code, none, some, Bool, true, false, ◌&&◌, leb, ◌==◌, if◌then◌else◌, any,
  is_empty, cut_char, split, trim_space,
}

abbrev lower : ℕ → ℕ
lower k = if leb b'A' k && leb k b'Z' then k + 32 else k

-- strings.EqualFold with a text of small letters
unfoldable pub equal_fold_lower : String → String → Bool
equal_fold_lower String.[] String.[] = true
equal_fold_lower String.[] (String.◌∷◌ d t) = false
equal_fold_lower (String.◌∷◌ c s) String.[] = false
equal_fold_lower (String.◌∷◌ c s) (String.◌∷◌ d t) =
    lower (code c) == code d && equal_fold_lower s t

-- The text before the first `;`.
abbrev before_parameters : String → String
before_parameters s = elim (cut_char b';' s) [ none ↦ s | some (before, after) ↦ before ]

unfoldable pub client_accepts_gzip : String → Bool
unfolding equal_fold_lower
client_accepts_gzip accept_encoding =
    if is_empty accept_encoding
    then false
    else any (λ part. equal_fold_lower (trim_space (before_parameters part)) "gzip")
        (split b',' accept_encoding)
