-- ===== src/Server/Document/Introspection.antt =====
-- `astContainsIntrospection` finds a field exactly if the query has one.
use c3x_pricing_api.Base.{
  ℕ, zero, suc, ◌+◌, ◌≤◌, ◌≡◌, ◌↔◌, ◌⊎◌, String, some, List, [], ◌∷◌, Bool, true, length, arith,
  eq_iff, Bool-cases, Option-cases, inl, inr,
}
use c3x_pricing_api.Server.Document.{
  Selections, end, field, inline_fragment, fragment_spread, Definition, operation, fragment,
  Fragments, collect, no_fragments, visit, nothing_visited, is_introspection, set_introspects,
  spread_introspects, selection_set_has_introspection, operations_introspect,
  ast_contains_introspection,
}
use c3x_pricing_api.Server.Document.Names.{AreDistinct}
use c3x_pricing_api.Server.Document.Paths.{
  FieldPath, here, below, inline, spread, past_field, past_inline, past_spread, FieldPath-distinct,
  FieldPath-length, avoids, avoids-visit, avoids_nothing,
}

-- The two fields of the introspection schema.
abbrev pub IsIntrospection : String → Type 0
IsIntrospection x = (x ≡ "__schema") ⊎ (x ≡ "__type")

-- An introspection field stands somewhere in the selections.
abbrev pub Introspects : Fragments → Selections → Type 0
Introspects fragments ss =
    (x : String) × (k : ℕ) × (names : List String) × FieldPath fragments x k names ss
    × IsIntrospection x

abbrev pub SomeIntrospects : Fragments → List Definition → Type 0
SomeIntrospects fragments [] = ⊥
SomeIntrospects fragments (operation ss ∷ defs) =
    Introspects fragments ss ⊎ SomeIntrospects fragments defs
SomeIntrospects fragments (fragment name ss ∷ defs) = SomeIntrospects fragments defs

is_introspection_iff : (x : String) → (is_introspection x ≡ true) ↔ IsIntrospection x
is_introspection_iff x = ground (arith, eq_iff x "__schema", eq_iff x "__type")

-- A spread that is found to introspect does.
abbrev IsSound : Fragments → (String → Bool) → Type 0
IsSound fragments test =
    (name : String)
    → test name ≡ true
    → (ss : Selections) × (fragments name ≡ some ss) × Introspects fragments ss

set_introspects_sound :
    (fragments : Fragments) (test : String → Bool) (ss : Selections)
    → IsSound fragments test
    → set_introspects test ss ≡ true
    → Introspects fragments ss
unfolding set_introspects
set_introspects_sound fragments test end s h = absurd (ground arith)
set_introspects_sound fragments test (field name ss rest) s h =
    elim (Bool-cases (is_introspection name)) [
      | inl found ↦ (name, 1, [], here, (is_introspection_iff name).0 found)
      | inr other ↦ elim (Bool-cases (set_introspects test ss)) [
        | inl inside ↦
            let (x, k, names, p, found) = set_introspects_sound fragments test ss s inside in
            (x, 1 + k, names, below name p, found)
        | inr nothing ↦
            let (x, k, names, p, found) =
              set_introspects_sound fragments test rest s (ground (arith, other, nothing, h)) in
            (x, k, names, past_field name p, found)
      ]
    ]
set_introspects_sound fragments test (inline_fragment ss rest) s h =
    elim (Bool-cases (set_introspects test ss)) [
      | inl inside ↦
          let (x, k, names, p, found) = set_introspects_sound fragments test ss s inside in
          (x, k, names, inline p, found)
      | inr nothing ↦
          let (x, k, names, p, found) =
            set_introspects_sound fragments test rest s (ground (arith, nothing, h)) in
          (x, k, names, past_inline p, found)
    ]
set_introspects_sound fragments test (fragment_spread name rest) s h =
    elim (Bool-cases (test name)) [
      | inl inside ↦
          let (ss, e, (x, k, names, p, found)) = s name inside in
          (x, k, name ∷ names, spread name e p, found)
      | inr nothing ↦
          let (x, k, names, p, found) =
            set_introspects_sound fragments test rest s (ground (arith, nothing, h)) in
          (x, k, names, past_spread name p, found)
    ]

spread_introspects-IsSound :
    (fuel : ℕ) (fragments : Fragments) (visited : String → Bool)
    → IsSound fragments (spread_introspects fuel fragments visited)
unfolding spread_introspects
spread_introspects-IsSound zero fragments visited name h = absurd (ground arith)
spread_introspects-IsSound (suc fuel) fragments visited name h =
    elim (Option-cases (fragments name)) [
      | inl none' ↦ absurd (ground (arith, none', h))
      | inr (ss, e) ↦ (
        ss,
        e,
        set_introspects_sound fragments (spread_introspects fuel fragments (visit name visited)) ss
            (spread_introspects-IsSound fuel fragments (visit name visited)) (ground (arith, e, h)),
      )
    ]

-- With as much fuel as the path has fragments, it is found.
set_introspects_complete :
    (fragments : Fragments) (x : String) (fuel : ℕ) (visited : String → Bool) (k : ℕ)
    (names : List String) (ss : Selections)
    → is_introspection x ≡ true
    → FieldPath fragments x k names ss
    → length names ≤ fuel
    → AreDistinct names
    → avoids visited names ≡ true
    → set_introspects (spread_introspects fuel fragments visited) ss ≡ true
unfolding set_introspects spread_introspects
set_introspects_complete fragments x fuel v _ _ _ found here le d a = ground (arith, found)
set_introspects_complete fragments x fuel v _ _ _ found (below y p) le d a =
    ground (arith, set_introspects_complete fragments x fuel v _ _ _ found p le d a)
set_introspects_complete fragments x fuel v _ _ _ found (inline p) le d a =
    ground (arith, set_introspects_complete fragments x fuel v _ _ _ found p le d a)
set_introspects_complete fragments x fuel v _ _ _ found (past_field y p) le d a =
    ground (arith, set_introspects_complete fragments x fuel v _ _ _ found p le d a)
set_introspects_complete fragments x fuel v _ _ _ found (past_inline p) le d a =
    ground (arith, set_introspects_complete fragments x fuel v _ _ _ found p le d a)
set_introspects_complete fragments x fuel v _ _ _ found (past_spread y p) le d a =
    ground (arith, set_introspects_complete fragments x fuel v _ _ _ found p le d a)
set_introspects_complete fragments x zero v _ _ _ found (spread name e p) le d a =
    absurd (omega arith)
set_introspects_complete fragments x (suc fuel) v _ _ _ found
      (spread {k = k} {names = names} {ss = ss} name e p) le (new, d) a =
    let inside =
      set_introspects_complete fragments x fuel (visit name v) k names ss found p (omega arith) d
        (avoids-visit v name names new (ground (arith, a))) in
    ground (arith, e, a, inside)

selection_set_iff :
    (defs : List Definition) (ss : Selections)
    → (selection_set_has_introspection (length defs) (collect defs no_fragments) ss ≡ true)
      ↔ Introspects (collect defs no_fragments) ss
unfolding selection_set_has_introspection
selection_set_iff defs ss = (
  set_introspects_sound _ _ ss
      (spread_introspects-IsSound (length defs) (collect defs no_fragments) nothing_visited),
  λ (x, k, names, p, found).
      let (k', names', q, d) = FieldPath-distinct (collect defs no_fragments) x k names ss p in
      set_introspects_complete _ x (length defs) nothing_visited k' names' ss
        ((is_introspection_iff x).1 found) q (FieldPath-length defs x k' names' ss q d) d
        (avoids_nothing names'),
)

operations_introspect_iff :
    (defs rest : List Definition)
    → (operations_introspect (length defs) (collect defs no_fragments) rest ≡ true)
      ↔ SomeIntrospects (collect defs no_fragments) rest
unfolding operations_introspect
operations_introspect_iff defs [] = (λ h. absurd (ground arith), λ h. absurd h)
operations_introspect_iff defs (fragment name ss ∷ rest) = operations_introspect_iff defs rest
operations_introspect_iff defs (operation ss ∷ rest) =
    let (to, from) = selection_set_iff defs ss in
    let (to', from') = operations_introspect_iff defs rest in
    (
      λ h.
          elim (Bool-cases
            (selection_set_has_introspection (length defs) (collect defs no_fragments) ss)) [
              | inl found ↦ inl (to found)
              | inr nothing ↦ inr (to' (ground (arith, h, nothing)))
            ],
      λ h. elim h [ inl i ↦ ground (arith, from i) | inr i ↦ ground (arith, from' i) ],
    )

-- A query is found to contain introspection exactly when some path of fields, inline fragments and
-- fragment spreads leads from one of its operations to a field `__schema` or `__type`. The path may
-- pass a fragment any number of times: the guard against cycles hides nothing. (`__Type`, which
-- ARCHITECTURE.md names too, is not among the two.)
pub ast_contains_introspection_iff :
    (defs : List Definition)
    → (ast_contains_introspection defs ≡ true) ↔ SomeIntrospects (collect defs no_fragments) defs
unfolding ast_contains_introspection
ast_contains_introspection_iff defs = operations_introspect_iff defs defs
