-- ===== src/Db/Regex/Groups.antt =====
-- The lookahead groups of a pattern, by balanced parentheses, and that the loop visits them all.
use text.Mathlib.TextLemmas.{nil-append, cons-append, append_assoc, append-nil}
use c3x_pricing_api.Base.{
  ℕ, zero, suc, ◌+◌, ◌≤◌, ◌<◌, ◌≡◌, ◌≢◌, refl, sym, ap, ◌∙◌, String, Char, code, Option, none, some,
  Bool, true, ◌<>◌, cut, strip_prefix, size, any, arith, Option-cases, inl, inr,
}
use c3x_pricing_api.Db.Regex.{close_group, lookaheads, prepend}

-- A text with balanced parentheses.
pub data IsBalanced : String → Type 0 where
  nothing : IsBalanced ""
  plain :
      {s : String} (c : Char)
      → code c ≢ b'('
      → code c ≢ b')'
      → IsBalanced s
      → IsBalanced (String.◌∷◌ c s)
  group :
      {s t : String} (o c : Char)
      → code o ≡ b'('
      → code c ≡ b')'
      → IsBalanced s
      → IsBalanced t
      → IsBalanced (String.◌∷◌ o (s <> String.◌∷◌ c t))

-- A group (?!...) of a pattern.
pub data HasLookahead : String → String → Type 0 where
  first :
      {pattern exclusion : String} (before rest after : String) (c : Char)
      → code c ≡ b')'
      → cut "(?!" pattern ≡ some (before, rest)
      → rest ≡ exclusion <> String.◌∷◌ c after
      → IsBalanced exclusion
      → HasLookahead pattern exclusion
  later :
      {pattern exclusion : String} (before rest after other : String) (c : Char)
      → code c ≡ b')'
      → cut "(?!" pattern ≡ some (before, rest)
      → rest ≡ other <> String.◌∷◌ c after
      → IsBalanced other
      → HasLookahead after exclusion
      → HasLookahead pattern exclusion

abbrev inside : String → Option (String × String) → Option (String × String)
inside s none = none
inside s (some (i, after)) = some (s <> i, after)

prepend-inside :
    (c : Char) (s : String) (r : Option (String × String))
    → prepend c (inside s r) ≡ inside (String.◌∷◌ c s) r
prepend-inside c s none = refl
prepend-inside c s (some (i, after)) = rw cons-append refl

inside-inside :
    (s t : String) (r : Option (String × String)) → inside s (inside t r) ≡ inside (s <> t) r
inside-inside s t none = refl
inside-inside s t (some (i, after)) = rw append_assoc refl

inside-nil : (r : Option (String × String)) → inside "" r ≡ r
inside-nil none = refl
inside-nil (some (i, after)) = rw nil-append refl

close_group-open :
    (o : Char) (s : String) (depth : ℕ)
    → code o ≡ b'('
    → close_group depth (String.◌∷◌ o s) ≡ prepend o (close_group (suc depth) s)
unfolding close_group
close_group-open o s depth h = ground (arith, h)

close_group-plain :
    (c : Char) (s : String) (depth : ℕ)
    → code c ≢ b'('
    → code c ≢ b')'
    → close_group depth (String.◌∷◌ c s) ≡ prepend c (close_group depth s)
unfolding close_group
close_group-plain c s depth h k = ground (arith, h, k)

close_group-close :
    (c : Char) (s : String) (depth : ℕ)
    → code c ≡ b')'
    → close_group (suc depth) (String.◌∷◌ c s) ≡ prepend c (close_group depth s)
unfolding close_group
close_group-close c s depth h = ground (arith, h)

close_group-end :
    (c : Char) (s : String) → code c ≡ b')' → close_group 0 (String.◌∷◌ c s) ≡ some ("", s)
unfolding close_group
close_group-end c s h = ground (arith, h)

close_group-IsBalanced :
    (s u : String) (depth : ℕ)
    → IsBalanced s
    → close_group depth (s <> u) ≡ inside s (close_group depth u)
close_group-IsBalanced _ u depth nothing =
    ap (close_group depth) (nil-append u) ∙ sym (inside-nil (close_group depth u))
close_group-IsBalanced _ u depth (plain {s} c p q b) =
    ap (close_group depth) (cons-append c s u)
    ∙ close_group-plain c (s <> u) depth p q
    ∙ ap (prepend c) (close_group-IsBalanced s u depth b)
    ∙ prepend-inside c s (close_group depth u)
close_group-IsBalanced _ u depth (group {s} {t} o c p q b b') =
    let r = close_group depth u in
    let tail : close_group (suc depth) (String.◌∷◌ c (t <> u)) ≡ inside (String.◌∷◌ c t) r =
      close_group-close c (t <> u) depth q
      ∙ ap (prepend c) (close_group-IsBalanced t u depth b')
      ∙ prepend-inside c t r in
    let text : String.◌∷◌ o (s <> String.◌∷◌ c t) <> u ≡ String.◌∷◌ o (s <> String.◌∷◌ c (t <> u)) =
      rw (cons-append, append_assoc, cons-append) refl in
    ap (close_group depth) text
    ∙ close_group-open o (s <> String.◌∷◌ c (t <> u)) depth p
    ∙ ap (prepend o) (
        close_group-IsBalanced s (String.◌∷◌ c (t <> u)) (suc depth) b
        ∙ ap (inside s) tail
        ∙ inside-inside s (String.◌∷◌ c t) r)
    ∙ prepend-inside o (s <> String.◌∷◌ c t) r

close_group-first :
    (rest exclusion after : String) (c : Char)
    → code c ≡ b')'
    → rest ≡ exclusion <> String.◌∷◌ c after
    → IsBalanced exclusion
    → close_group 0 rest ≡ some (exclusion, after)
close_group-first rest exclusion after c h e b =
    ap (close_group 0) e
    ∙ close_group-IsBalanced exclusion (String.◌∷◌ c after) 0 b
    ∙ ap (inside exclusion) (close_group-end c after h)
    ∙ ap (λ x. some (x, after)) (append-nil exclusion)

size-strip_prefix : (p s rest : String) → strip_prefix p s ≡ some rest → size rest ≤ size s
unfolding strip_prefix size
size-strip_prefix String.[] s rest h = ground arith
size-strip_prefix (String.◌∷◌ c p) String.[] rest h = absurd (ground arith)
size-strip_prefix (String.◌∷◌ c p) (String.◌∷◌ d s) rest h =
    ground (arith, size-strip_prefix p s rest)

size-cut : (t s before rest : String) → cut t s ≡ some (before, rest) → size rest ≤ size s
unfolding cut size
size-cut t String.[] before rest h = elim (Option-cases (strip_prefix t "")) [
  | inl e ↦ absurd (ground (arith, e, h))
  | inr (r, e) ↦ ground (arith, e, h, size-strip_prefix t "" r e)
]
size-cut t (String.◌∷◌ c s) before rest h = elim (Option-cases (strip_prefix t (String.◌∷◌ c s))) [
  | inr (r, e) ↦ ground (arith, e, h, size-strip_prefix t (String.◌∷◌ c s) r e)
  | inl e ↦ elim (Option-cases (cut t s)) [
    | inl f ↦ absurd (ground (arith, e, f, h))
    | inr ((b, r), f) ↦ ground (arith, e, f, h, size-cut t s b r f)
  ]
]

size-append : (s t : String) → size (s <> t) ≡ size s + size t
unfolding size
size-append String.[] t = rw nil-append (omega arith)
size-append (String.◌∷◌ c s) t = rw cons-append (omega (arith, size-append s t))

-- The text after a group is shorter than the pattern.
size-after :
    (pattern before rest after exclusion : String) (c : Char)
    → cut "(?!" pattern ≡ some (before, rest)
    → rest ≡ exclusion <> String.◌∷◌ c after
    → size after < size pattern
unfolding size
size-after pattern before rest after exclusion c e f = omega (
  arith,
  size-cut "(?!" pattern before rest e,
  ap size f,
  size-append exclusion (String.◌∷◌ c after),
)

-- Each group of the pattern is visited: as many rounds as it has characters are enough.
pub lookaheads-HasLookahead :
    (rounds : ℕ) (pattern exclusion : String) (p : String → Bool)
    → HasLookahead pattern exclusion
    → size pattern ≤ rounds
    → p exclusion ≡ true
    → any p (lookaheads rounds pattern) ≡ true
unfolding lookaheads
lookaheads-HasLookahead zero pattern exclusion p (first before rest after c k e f b) le h =
    absurd (omega (arith, size-after pattern before rest after exclusion c e f))
lookaheads-HasLookahead zero pattern exclusion p (later before rest after other c k e f b l) le h =
    absurd (omega (arith, size-after pattern before rest after other c e f))
lookaheads-HasLookahead (suc rounds) pattern exclusion p (first before rest after c k e f b) le h =
    ground (arith, e, close_group-first rest exclusion after c k f b, h)
lookaheads-HasLookahead (suc rounds) pattern exclusion p (later before rest after other c k e f b l)
      le h =
    let shorter = size-after pattern before rest after other c e f in
    let found = lookaheads-HasLookahead rounds after exclusion p l (omega arith) h in
    ground (arith, e, close_group-first rest other after c k f b, found)
