-- ===== src/Db/Regex/Excluded.antt =====
-- What a negative lookahead excludes does not match.
use c3x_pricing_api.Base.{String, List, ◌∷◌}

-- An element of a list.
pub data IsAmong (s : String) : List String → Type 0 where
  first : {ss : List String} → IsAmong s (s ∷ ss)
  later : {ss : List String} (t : String) → IsAmong s ss → IsAmong s (t ∷ ss)
