-- ===== src/Base/Text.antt =====
-- Native texts walked by characters: what the program uses of Go's strings package. Positions are
-- the splits that Go's byte offsets make, so that a slice is a part of a split.
use Prim.Native.Nat.{ℕ, suc}
use Prim.Native.Char.{Char, code}
use Prim.Native.String
use Prim.Native.String.{String}
use mathlib.Core.Bool.{Bool, true, false, ◌||◌, ◌&&◌}
use mathlib.Core.List.{List, [], ◌∷◌}
use text.Mathlib.Text.{◌==◌ as str_eq}
use mathlib.Core.Option.{Option, none, some}
use c3x_pricing_api.Base.Tests.{◌==◌, leb, if◌then◌else◌}

-- Concatenation of texts. (`++` is that of lists.)
infixr 65 ◌<>◌
abbrev pub ◌<>◌ : String → String → String
s <> t = String.◌++◌ s t

-- s[len(p):], if s begins with p.
unfoldable pub strip_prefix : String → String → Option String
strip_prefix String.[] s = some s
strip_prefix (String.◌∷◌ c p) String.[] = none
strip_prefix (String.◌∷◌ c p) (String.◌∷◌ d s) = elim (code c == code d) [
  | true ↦ strip_prefix p s
  | false ↦ none
]

abbrev pub is_some {ℓ} : {A : Type ℓ} → Option A → Bool
is_some none = false
is_some (some _) = true

abbrev pub has_prefix : String → String → Bool
has_prefix s p = is_some (strip_prefix p s)

-- The texts before and after the first occurrence of a text: s[:i] and s[i+len(t):].
unfoldable pub cut : String → String → Option (String × String)
cut t String.[] = elim (strip_prefix t String.[]) [ none ↦ none | some rest ↦ some ("", rest) ]
cut t (String.◌∷◌ c s) = elim (strip_prefix t (String.◌∷◌ c s)) [
  | some rest ↦ some ("", rest)
  | none ↦ elim (cut t s) [ none ↦ none | some (before, after) ↦ some (String.◌∷◌ c before, after) ]
]

abbrev pub contains : String → String → Bool
contains s t = is_some (cut t s)

-- The texts before and after the last occurrence of a character.
unfoldable pub cut_last : ℕ → String → Option (String × String)
cut_last k String.[] = none
cut_last k (String.◌∷◌ c s) = elim (cut_last k s) [
  | some (before, after) ↦ some (String.◌∷◌ c before, after)
  | none ↦ elim (code c == k) [ true ↦ some ("", s) | false ↦ none ]
]

-- The texts before and after the first occurrence of a character.
unfoldable pub cut_char : ℕ → String → Option (String × String)
cut_char k String.[] = none
cut_char k (String.◌∷◌ c s) = elim (code c == k) [
  | true ↦ some ("", s)
  | false ↦ elim (cut_char k s) [
    | none ↦ none
    | some (before, after) ↦ some (String.◌∷◌ c before, after)
  ]
]

unfoldable pub has_char : ℕ → String → Bool
has_char k String.[] = false
has_char k (String.◌∷◌ c s) = code c == k || has_char k s

-- The white space of Unicode, as unicode.IsSpace has it.
abbrev pub is_space : ℕ → Bool
is_space k =
    (leb 9 k && leb k 13)
    || k == 32
    || k == 133
    || k == 160
    || k == 5760
    || (leb 8192 k && leb k 8202)
    || k == 8232
    || k == 8233
    || k == 8239
    || k == 8287
    || k == 12288

abbrev pub is_empty : String → Bool
is_empty String.[] = true
is_empty (String.◌∷◌ c s) = false

unfoldable pub trim_left : String → String
trim_left String.[] = ""
trim_left (String.◌∷◌ c s) = if is_space (code c) then trim_left s else String.◌∷◌ c s

-- A text without the white space at its end: a character stays if it, or one after it, is none.
unfoldable pub trim_right : String → String
trim_right String.[] = ""
trim_right (String.◌∷◌ c s) =
    let rest = trim_right s in if is_space (code c) && is_empty rest then "" else String.◌∷◌ c rest

abbrev pub trim_space : String → String
trim_space s = trim_left (trim_right s)

-- strings.Split, for a character.
abbrev pub split_cons : Char → List String → List String
split_cons c [] = String.◌∷◌ c "" ∷ []
split_cons c (s ∷ ss) = String.◌∷◌ c s ∷ ss

unfoldable pub split : ℕ → String → List String
split k String.[] = "" ∷ []
split k (String.◌∷◌ c s) = if code c == k then "" ∷ split k s else split_cons c (split k s)

-- strings.TrimSuffix, for a character.
unfoldable pub trim_suffix : ℕ → String → String
trim_suffix k String.[] = ""
trim_suffix k (String.◌∷◌ c s) =
    if code c == k && is_empty s then "" else String.◌∷◌ c (trim_suffix k s)

-- strings.ReplaceAll of a character by nothing.
unfoldable pub drop_char : ℕ → String → String
drop_char k String.[] = ""
drop_char k (String.◌∷◌ c s) = if code c == k then drop_char k s else String.◌∷◌ c (drop_char k s)

-- strings.HasSuffix
unfoldable pub has_suffix : String → String → Bool
has_suffix String.[] t = is_empty t
has_suffix (String.◌∷◌ c s) t = str_eq (String.◌∷◌ c s) t || has_suffix s t

-- The number of characters.
unfoldable pub size : String → ℕ
size String.[] = 0
size (String.◌∷◌ c s) = suc (size s)
