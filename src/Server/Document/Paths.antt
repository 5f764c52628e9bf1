-- ===== src/Server/Document/Paths.antt =====
-- The fields of a query, independently of how the checks walk it: a path may pass any fragment, also
-- one that it is already in. A path without such a repetition exists whenever one exists.
use c3x_pricing_api.Base.{
  ℕ, ◌+◌, ◌≤◌, ◌≡◌, refl, sym, ◌∙◌, ap, String, some, List, [], ◌∷◌, Bool, true, false, ◌⊎◌, str_eq,
  eq_iff, if◌then◌else◌, length, arith, Bool-cases, inl, inr, subst,
}
use c3x_pricing_api.Server.Document.{
  Selections, field, inline_fragment, fragment_spread, Definition, operation, fragment, Fragments,
  collect, no_fragments, visit, nothing_visited,
}
use c3x_pricing_api.Server.Document.Names.{occurs, AreDistinct, length-AreDistinct}

-- A field `x` stands in the selections at this depth, inside the fragments `names`, outermost first.
pub data FieldPath (fragments : Fragments) (x : String)
    : ℕ → List String → Selections → Type 0 where
  here : {ss rest : Selections} → FieldPath fragments x 1 [] (field x ss rest)
  below :
      {k : ℕ} {names : List String} {ss rest : Selections} (y : String)
      → FieldPath fragments x k names ss
      → FieldPath fragments x (1 + k) names (field y ss rest)
  inline :
      {k : ℕ} {names : List String} {ss rest : Selections}
      → FieldPath fragments x k names ss
      → FieldPath fragments x k names (inline_fragment ss rest)
  spread :
      {k : ℕ} {names : List String} {ss rest : Selections} (name : String)
      → fragments name ≡ some ss
      → FieldPath fragments x k names ss
      → FieldPath fragments x k (name ∷ names) (fragment_spread name rest)
  past_field :
      {k : ℕ} {names : List String} {ss rest : Selections} (y : String)
      → FieldPath fragments x k names rest
      → FieldPath fragments x k names (field y ss rest)
  past_inline :
      {k : ℕ} {names : List String} {ss rest : Selections}
      → FieldPath fragments x k names rest
      → FieldPath fragments x k names (inline_fragment ss rest)
  past_spread :
      {k : ℕ} {names : List String} {rest : Selections} (name : String)
      → FieldPath fragments x k names rest
      → FieldPath fragments x k names (fragment_spread name rest)

-- What is left of a path behind the last place where it enters `name`, if it does.
abbrev Shortcut : Fragments → String → String → List String → Selections → Type 0
Shortcut fragments x name names ss =
    (occurs name names ≡ false)
    ⊎ ((k : ℕ) × (left : List String) × FieldPath fragments x k left ss
        × (occurs name left ≡ false)
        × (AreDistinct names → AreDistinct left))

shortcut :
    (fragments : Fragments) (x name : String) (k : ℕ) (names : List String) (body ss : Selections)
    → fragments name ≡ some body
    → FieldPath fragments x k names ss
    → Shortcut fragments x name names body
shortcut fragments x name _ _ body _ e here = inl refl
shortcut fragments x name _ _ body _ e (below y p) = shortcut fragments x name _ _ body _ e p
shortcut fragments x name _ _ body _ e (inline p) = shortcut fragments x name _ _ body _ e p
shortcut fragments x name _ _ body _ e (past_field y p) = shortcut fragments x name _ _ body _ e p
shortcut fragments x name _ _ body _ e (past_inline p) = shortcut fragments x name _ _ body _ e p
shortcut fragments x name _ _ body _ e (past_spread y p) = shortcut fragments x name _ _ body _ e p
shortcut fragments x name _ _ body _ e (spread {k} {names} {ss} y f p) =
    elim (shortcut fragments x name k names body ss e p) [
      | inr (k', left, q, new, d) ↦ inr (k', left, q, new, λ h. d h.1)
      | inl new ↦ elim (Bool-cases (str_eq y name)) [
        | inr other ↦ inl (ground (arith, new, other))
        | inl same ↦
            let bodies : some ss ≡ some body = sym f ∙ ap fragments ((eq_iff y name).0 same) ∙ e in
            inr (
              k,
              names,
              subst (FieldPath fragments x k names) (ground (arith, bodies)) p,
              new,
              λ h. h.1,
            )
      ]
    ]

pub FieldPath-distinct :
    (fragments : Fragments) (x : String) (k : ℕ) (names : List String) (ss : Selections)
    → FieldPath fragments x k names ss
    → (k' : ℕ) × (names' : List String) × FieldPath fragments x k' names' ss × AreDistinct names'
FieldPath-distinct fragments x _ _ _ here = (1, [], here, _)
FieldPath-distinct fragments x _ _ _ (below y p) =
    let (k, names, q, d) = FieldPath-distinct fragments x _ _ _ p in (1 + k, names, below y q, d)
FieldPath-distinct fragments x _ _ _ (inline p) =
    let (k, names, q, d) = FieldPath-distinct fragments x _ _ _ p in (k, names, inline q, d)
FieldPath-distinct fragments x _ _ _ (past_field y p) =
    let (k, names, q, d) = FieldPath-distinct fragments x _ _ _ p in (k, names, past_field y q, d)
FieldPath-distinct fragments x _ _ _ (past_inline p) =
    let (k, names, q, d) = FieldPath-distinct fragments x _ _ _ p in (k, names, past_inline q, d)
FieldPath-distinct fragments x _ _ _ (past_spread y p) =
    let (k, names, q, d) = FieldPath-distinct fragments x _ _ _ p in (k, names, past_spread y q, d)
FieldPath-distinct fragments x _ _ _ (spread {ss = ss} name e p) =
    let (k, names, q, d) = FieldPath-distinct fragments x _ _ _ p in
    elim (shortcut fragments x name k names ss ss e q) [
      | inl new ↦ (k, name ∷ names, spread name e q, (new, d))
      | inr (k', left, r, new, d') ↦ (k', name ∷ left, spread name e r, (new, d' d))
    ]

-- The names of the fragment definitions.
abbrev defined : List Definition → List String
defined [] = []
defined (operation ss ∷ defs) = defined defs
defined (fragment name ss ∷ defs) = name ∷ defined defs

length-defined : (defs : List Definition) → length (defined defs) ≤ length defs
length-defined [] = omega arith
length-defined (operation ss ∷ defs) = omega (arith, length-defined defs)
length-defined (fragment name ss ∷ defs) = omega (arith, length-defined defs)

collect-defined :
    (defs : List Definition) (m : Fragments) (k : String) (ss : Selections)
    → collect defs m k ≡ some ss
    → (occurs k (defined defs) ≡ true) ⊎ (m k ≡ some ss)
unfolding collect
collect-defined [] m k ss h = inr h
collect-defined (operation s ∷ defs) m k ss h = collect-defined defs m k ss h
collect-defined (fragment name s ∷ defs) m k ss h = elim (collect-defined defs _ k ss h) [
  | inl o ↦ inl (ground (arith, o))
  | inr e ↦ elim (Bool-cases (str_eq name k)) [
    | inl same ↦ inl (ground (arith, same))
    | inr other ↦ inr (ground (arith, e, other))
  ]
]

FieldPath-defined :
    (defs : List Definition) (x : String) (k : ℕ) (names : List String) (ss : Selections)
    → FieldPath (collect defs no_fragments) x k names ss
    → (i : String) → occurs i names ≡ true
    → occurs i (defined defs) ≡ true
FieldPath-defined defs x _ _ _ here i o = absurd (ground (arith, o))
FieldPath-defined defs x _ _ _ (below y p) i o = FieldPath-defined defs x _ _ _ p i o
FieldPath-defined defs x _ _ _ (inline p) i o = FieldPath-defined defs x _ _ _ p i o
FieldPath-defined defs x _ _ _ (past_field y p) i o = FieldPath-defined defs x _ _ _ p i o
FieldPath-defined defs x _ _ _ (past_inline p) i o = FieldPath-defined defs x _ _ _ p i o
FieldPath-defined defs x _ _ _ (past_spread y p) i o = FieldPath-defined defs x _ _ _ p i o
FieldPath-defined defs x _ _ _ (spread {k} {names} {ss} name e p) i o =
    elim (Bool-cases (str_eq name i)) [
      | inl same ↦ elim (collect-defined defs no_fragments name ss e) [
        | inl there ↦ subst (λ n. occurs n (defined defs) ≡ true) ((eq_iff name i).0 same) there
        | inr absent ↦ absurd (ground (arith, absent))
      ]
      | inr other ↦ FieldPath-defined defs x k names ss p i (ground (arith, o, other))
    ]

-- A path without repetition is in no more fragments than the document has definitions.
pub FieldPath-length :
    (defs : List Definition) (x : String) (k : ℕ) (names : List String) (ss : Selections)
    → FieldPath (collect defs no_fragments) x k names ss
    → AreDistinct names
    → length names ≤ length defs
FieldPath-length defs x k names ss p d = omega (
  arith,
  length-AreDistinct names (defined defs) d (FieldPath-defined defs x k names ss p),
  length-defined defs,
)

-- No fragment among `names` is visited.
abbrev pub avoids : (String → Bool) → List String → Bool
avoids visited [] = true
avoids visited (k ∷ ks) = if visited k then false else avoids visited ks

pub avoids-visit :
    (visited : String → Bool) (name : String) (ks : List String)
    → occurs name ks ≡ false
    → avoids visited ks ≡ true
    → avoids (visit name visited) ks ≡ true
avoids-visit visited name [] new h = refl
avoids-visit visited name (k ∷ ks) new h =
    ground (arith, avoids-visit visited name ks, eq_iff name k, eq_iff k name, new, h)

pub avoids_nothing : (ks : List String) → avoids nothing_visited ks ≡ true
avoids_nothing [] = refl
avoids_nothing (k ∷ ks) = avoids_nothing ks
