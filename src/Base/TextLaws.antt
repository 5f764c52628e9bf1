-- ===== src/Base/TextLaws.antt =====
-- What the scans of texts find.
use text.Mathlib.TextLemmas.{nil-append, cons-append}
use text.Mathlib.TextEquality.{Char-path}
use c3x_pricing_api.Base.{ℕ, String, Char, code, ◌≡◌, ◌≢◌, refl, none, some, false, arith}
use c3x_pricing_api.Base.{◌<>◌, strip_prefix, cut_last, has_char, is_empty}

pub not_empty : (s : String) → s ≢ "" → is_empty s ≡ false
not_empty String.[] ne = absurd (ne refl)
not_empty (String.◌∷◌ c s) ne = refl

pub strip_prefix-append : (p s : String) → strip_prefix p (p <> s) ≡ some s
unfolding strip_prefix
strip_prefix-append String.[] s = rw nil-append
strip_prefix-append (String.◌∷◌ c p) s = rw cons-append (ground (arith, strip_prefix-append p s))

pub strip_prefix-eq : (p s rest : String) → strip_prefix p s ≡ some rest → s ≡ p <> rest
unfolding strip_prefix
strip_prefix-eq String.[] s rest h = rw nil-append (ground arith)
strip_prefix-eq (String.◌∷◌ c p) String.[] rest h = cc
strip_prefix-eq (String.◌∷◌ c p) (String.◌∷◌ d s) rest h =
    rw cons-append (ground (arith, Char-path c d, strip_prefix-eq p s rest))

pub cut_last-eq-none : (k : ℕ) (s : String) → has_char k s ≡ false → cut_last k s ≡ none
unfolding cut_last has_char
cut_last-eq-none k String.[] h = refl
cut_last-eq-none k (String.◌∷◌ c s) h = ground (arith, cut_last-eq-none k s)

-- With no such character after it, the one in the middle is the last.
pub cut_last-append :
    (c : Char) (s t : String)
    → has_char (code c) t ≡ false
    → cut_last (code c) (s <> String.◌∷◌ c t) ≡ some (s, t)
unfolding cut_last
cut_last-append c String.[] t h = rw nil-append (ground (arith, cut_last-eq-none (code c) t h))
cut_last-append c (String.◌∷◌ d s) t h = rw cons-append (ground (arith, cut_last-append c s t h))
