-- ===== src/Config/Sslmode.antt =====
-- The check of sslmode in production.
use text.Mathlib.TextLemmas.{nil-append, cons-append, append_assoc, append-nil}
use c3x_pricing_api.Base.TextLaws.{not_empty}
use c3x_pricing_api.Base.{
  String, code, List, [], ◌∷◌, none, some, ◌≡◌, ◌≢◌, refl, sym, ap, ◌∙◌, Char, false, eq_iff, ◌<>◌,
  All, map, if◌then◌else◌, arith,
}
use c3x_pricing_api.Base.{
  has_prefix, has_char, cut_char, trim_space, trim_left, trim_right, is_space, is_empty,
}
use c3x_pricing_api.Config.{
  Library, Settings, pieces, fields, first_mode, extract_ssl_mode, is_insecure, validate,
}

-- A text without white space.
abbrev pub IsWord : String → Type 0
IsWord String.[] = Unit
IsWord (String.◌∷◌ c s) = (is_space (code c) ≡ false) × IsWord s

-- A connection string in keyword form: pairs with blanks between them.
abbrev pub word : String × String → String
word (k, v) = k <> ("=" <> v)

abbrev pub print : List (String × String) → String
print [] = ""
print (p ∷ []) = word p
print (p ∷ q ∷ pairs) = word p <> (" " <> print (q ∷ pairs))

abbrev pub IsPair : String × String → Type 0
IsPair (k, v) = (k ≢ "") × (has_char b'=' k ≡ false) × IsWord k × IsWord v

-- The value that the pairs give to sslmode, as libpq reads keys up to case.
abbrev pub mode_of : Library → List (String × String) → String
mode_of lib [] = ""
mode_of lib ((k, v) ∷ pairs) =
    if lib.equal_fold k "sslmode" then lib.to_lower v else mode_of lib pairs

pieces-step :
    (c : Char) (s piece : String)
    → is_space (code c) ≡ false
    → pieces (String.◌∷◌ c s) piece ≡ pieces s (piece <> String.◌∷◌ c "")
unfolding pieces
pieces-step c s piece h = ground (arith, h)

pieces-word :
    (w rest piece : String) → IsWord w → pieces (w <> rest) piece ≡ pieces rest (piece <> w)
pieces-word String.[] rest piece h = rw (nil-append, append-nil) refl
pieces-word (String.◌∷◌ c w) rest piece (h, hs) = rw cons-append (
    pieces-step c (w <> rest) piece h
    ∙ pieces-word w rest (piece <> String.◌∷◌ c "") hs
    ∙ ap (pieces rest) (
        append_assoc piece (String.◌∷◌ c "") w
        ∙ ap (λ t. piece <> t) (cons-append c "" w ∙ ap (String.◌∷◌ c) (nil-append w))))

IsWord-append : (s t : String) → IsWord s → IsWord t → IsWord (s <> t)
IsWord-append String.[] t h k = rw nil-append k
IsWord-append (String.◌∷◌ c s) t (h, hs) k = rw cons-append (h, IsWord-append s t hs k)

is_empty-append : (s t : String) → s ≢ "" → is_empty (s <> t) ≡ false
is_empty-append String.[] t h = absurd (h refl)
is_empty-append (String.◌∷◌ c s) t h = rw cons-append refl

IsPair-IsWord : (p : String × String) → IsPair p → IsWord (word p)
IsPair-IsWord (k, v) (_, _, hk, hv) = IsWord-append k _ hk (rw (cons-append, nil-append) (refl, hv))

IsPair-word : (p : String × String) → IsPair p → is_empty (word p) ≡ false
IsPair-word (k, v) (ne, _, _, _) = is_empty-append k _ ne

pieces-end : (s : String) → is_empty s ≡ false → pieces "" s ≡ s ∷ []
unfolding pieces
pieces-end s h = rw h refl

pieces-blank : (rest s : String) → is_empty s ≡ false → pieces (" " <> rest) s ≡ s ∷ pieces rest ""
unfolding pieces
pieces-blank rest s h = rw (cons-append, nil-append) (rw h refl)

pieces-whole : (w : String) → IsWord w → is_empty w ≡ false → pieces w "" ≡ w ∷ []
pieces-whole w h ne =
    ap (λ t. pieces t "") (sym (append-nil w))
    ∙ pieces-word w "" "" h
    ∙ ap (pieces "") (nil-append w)
    ∙ pieces-end w ne

pieces-first :
    (w rest : String)
    → IsWord w
    → is_empty w ≡ false
    → pieces (w <> (" " <> rest)) "" ≡ w ∷ pieces rest ""
pieces-first w rest h ne =
    pieces-word w (" " <> rest) "" h
    ∙ ap (pieces (" " <> rest)) (nil-append w)
    ∙ pieces-blank rest w ne

pieces-print :
    (pairs : List (String × String)) → All IsPair pairs → pieces (print pairs) "" ≡ map word pairs
pieces-print [] h = unfold pieces in refl
pieces-print (p ∷ []) (h, _) = pieces-whole (word p) (IsPair-IsWord p h) (IsPair-word p h)
pieces-print (p ∷ q ∷ pairs) (h, hs) =
    pieces-first (word p) (print (q ∷ pairs)) (IsPair-IsWord p h) (IsPair-word p h)
    ∙ ap (λ l. word p ∷ l) (pieces-print (q ∷ pairs) hs)

-- What ends in a word has nothing to trim on the right.
abbrev Ends : String → Type 0
Ends t = (trim_right t ≡ t) × (is_empty t ≡ false)

Ends-cons : (c : Char) (t : String) → Ends t → Ends (String.◌∷◌ c t)
unfolding trim_right
Ends-cons c t (same, ne) = (ground (arith, same, ne), refl)

Ends-append : (s t : String) → Ends t → Ends (s <> t)
Ends-append String.[] t h = rw nil-append h
Ends-append (String.◌∷◌ c s) t h = rw cons-append (Ends-cons c (s <> t) (Ends-append s t h))

trim_right-word : (w : String) → IsWord w → trim_right w ≡ w
unfolding trim_right
trim_right-word String.[] h = refl
trim_right-word (String.◌∷◌ c w) (h, hs) = ground (arith, h, trim_right-word w hs)

word-Ends : (p : String × String) → IsPair p → Ends (word p)
word-Ends p h = (trim_right-word (word p) (IsPair-IsWord p h), IsPair-word p h)

print-Ends :
    (p : String × String) (pairs : List (String × String))
    → All IsPair (p ∷ pairs)
    → Ends (print (p ∷ pairs))
print-Ends p [] (h, _) = word-Ends p h
print-Ends p (q ∷ pairs) (h, hs) =
    Ends-append (word p) _ (Ends-append " " _ (print-Ends q pairs hs))

-- Nor on the left.
trim_left-append : (s t : String) → s ≢ "" → IsWord s → trim_left (s <> t) ≡ s <> t
trim_left-append String.[] t ne h = absurd (ne refl)
trim_left-append (String.◌∷◌ c s) t ne (h, hs) =
    rw cons-append (unfold trim_left in ground (arith, h))

trim_left-print :
    (p : String × String) (pairs : List (String × String))
    → All IsPair (p ∷ pairs)
    → trim_left (print (p ∷ pairs)) ≡ print (p ∷ pairs)
trim_left-print (k, v) [] ((ne, _, hk, _), _) = trim_left-append k _ ne hk
trim_left-print (k, v) (q ∷ pairs) ((ne, _, hk, _), _) =
    rw (append_assoc) (trim_left-append k _ ne hk)

trim_space-print :
    (pairs : List (String × String)) → All IsPair pairs → trim_space (print pairs) ≡ print pairs
trim_space-print [] h = unfold trim_left trim_right in refl
trim_space-print (p ∷ pairs) h = ap trim_left ((print-Ends p pairs h).0) ∙ trim_left-print p pairs h

cut_char-word : (k v : String) → has_char b'=' k ≡ false → cut_char b'=' (word (k, v)) ≡ some (k, v)
unfolding cut_char has_char
cut_char-word String.[] v h = rw (nil-append, cons-append) (ap (λ t. some ("", t)) (nil-append v))
cut_char-word (String.◌∷◌ c k) v h = rw cons-append (ground (arith, cut_char-word k v))

first_mode-map :
    (lib : Library) (pairs : List (String × String))
    → All IsPair pairs
    → first_mode lib (map word pairs) ≡ mode_of lib pairs
unfolding first_mode
first_mode-map lib [] h = refl
first_mode-map lib ((k, v) ∷ pairs) ((ne, plain, _, _), hs) =
    ground (arith, cut_char-word k v plain, not_empty k ne, first_mode-map lib pairs hs)

-- A connection string in keyword form, of pairs with a key that is no empty text and holds no `=`,
-- and with no white space in keys and values, gives the value of its first key that is sslmode up
-- to case, in lower case, or "" if there is none. (libpq and pgx would take the last.)
pub extract_ssl_mode-print :
    (lib : Library) (pairs : List (String × String))
    → All IsPair pairs
    → has_prefix (print pairs) "postgres://" ≡ false
    → has_prefix (print pairs) "postgresql://" ≡ false
    → extract_ssl_mode lib (print pairs) ≡ some (mode_of lib pairs)
unfolding extract_ssl_mode fields
extract_ssl_mode-print lib pairs h short long = rw (trim_space-print pairs h) (
    rw (short, long)
      (ap some (ap (first_mode lib) (pieces-print pairs h) ∙ first_mode-map lib pairs h)))

is_insecure-nil : is_insecure "" ≡ false
unfolding is_insecure
is_insecure-nil = refl

-- In production, a connection string in keyword form that names no sslmode is accepted.
pub validate-unset :
    (lib : Library) (c : Settings) (pairs : List (String × String))
    → All IsPair pairs
    → c.database_url ≡ print pairs
    → print pairs ≢ ""
    → has_prefix (print pairs) "postgres://" ≡ false
    → has_prefix (print pairs) "postgresql://" ≡ false
    → mode_of lib pairs ≡ ""
    → validate lib c ≡ none
unfolding validate
validate-unset lib c pairs h url ne short long unset =
    let mode = extract_ssl_mode-print lib pairs h short long in
    let secure : is_insecure (mode_of lib pairs) ≡ false = rw unset is_insecure-nil in
    ground (arith, url, ne, eq_iff c.database_url "", mode, secure)
