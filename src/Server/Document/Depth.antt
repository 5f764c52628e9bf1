-- ===== src/Server/Document/Depth.antt =====
-- `computeQueryDepthFromAST` computes the depth of the deepest field.
use c3x_pricing_api.Base.{
  ℕ, zero, suc, ◌+◌, ◌≤◌, ◌≡◌, refl, sym, ◌∙◌, subst, ◌⊎◌, String, List, [], ◌∷◌, Bool, true,
  length, arith, inl, inr,
}
use c3x_pricing_api.Server.Document.{
  Selections, end, field, inline_fragment, fragment_spread, Definition, operation, fragment,
  Fragments, collect, no_fragments, visit, nothing_visited, deeper, set_depth, spread_depth,
  selection_set_depth, operations_depth, compute_query_depth_from_ast,
}
use c3x_pricing_api.Server.Document.Names.{AreDistinct}
use c3x_pricing_api.Server.Document.Paths.{
  FieldPath, here, below, inline, spread, past_field, past_inline, past_spread, FieldPath-length,
  avoids, avoids-visit, avoids_nothing,
}
use c3x_pricing_api.Server.Document.Deepest.{
  deeper-cases, set_depth-attained, spread_depth-some, spread_depth-IsAttained,
}

-- A field of some operation stands at depth `k`, on a path that enters no fragment twice.
abbrev pub SomeHasDepth : Fragments → ℕ → List Definition → Type 0
SomeHasDepth fragments k [] = ⊥
SomeHasDepth fragments k (operation ss ∷ defs) =
    ((x : String) × (names : List String) × FieldPath fragments x k names ss × AreDistinct names)
    ⊎ SomeHasDepth fragments k defs
SomeHasDepth fragments k (fragment name ss ∷ defs) = SomeHasDepth fragments k defs

deeper-ge : (a b : ℕ) → (a ≤ deeper a b) × (b ≤ deeper a b)
deeper-ge a b = (ground arith, ground arith)

set_depth-ge : (depth : String → ℕ) (ss : Selections) (n : ℕ) → n ≤ set_depth depth n ss
unfolding set_depth
set_depth-ge depth end n = omega arith
set_depth-ge depth (field y ss rest) n = omega (
  arith,
  set_depth-ge depth rest (deeper n (1 + set_depth depth 0 ss)),
  (deeper-ge n (1 + set_depth depth 0 ss)).0,
)
set_depth-ge depth (inline_fragment ss rest) n = omega (
  arith,
  set_depth-ge depth rest (deeper n (set_depth depth 0 ss)),
  (deeper-ge n (set_depth depth 0 ss)).0,
)
set_depth-ge depth (fragment_spread name rest) n =
    omega (arith, set_depth-ge depth rest (deeper n (depth name)), (deeper-ge n (depth name)).0)

-- With as much fuel as a path has fragments, its depth is counted.
FieldPath-le-set_depth :
    (fragments : Fragments) (x : String) (fuel : ℕ) (visited : String → Bool) (k : ℕ)
    (names : List String) (ss : Selections) (n : ℕ)
    → FieldPath fragments x k names ss
    → length names ≤ fuel
    → AreDistinct names
    → avoids visited names ≡ true
    → k ≤ set_depth (spread_depth fuel fragments visited) n ss
unfolding set_depth
FieldPath-le-set_depth fragments x fuel v _ _ _ n (here {ss = ss} {rest = rest}) le d a =
    let depth = spread_depth fuel fragments v in
    omega (
      arith,
      set_depth-ge depth rest (deeper n (1 + set_depth depth 0 ss)),
      (deeper-ge n (1 + set_depth depth 0 ss)).1,
    )
FieldPath-le-set_depth fragments x fuel v _ _ _ n (below {ss = ss} {rest = rest} y p) le d a =
    let depth = spread_depth fuel fragments v in
    omega (
      arith,
      FieldPath-le-set_depth fragments x fuel v _ _ ss 0 p le d a,
      set_depth-ge depth rest (deeper n (1 + set_depth depth 0 ss)),
      (deeper-ge n (1 + set_depth depth 0 ss)).1,
    )
FieldPath-le-set_depth fragments x fuel v _ _ _ n (inline {ss = ss} {rest = rest} p) le d a =
    let depth = spread_depth fuel fragments v in
    omega (
      arith,
      FieldPath-le-set_depth fragments x fuel v _ _ ss 0 p le d a,
      set_depth-ge depth rest (deeper n (set_depth depth 0 ss)),
      (deeper-ge n (set_depth depth 0 ss)).1,
    )
FieldPath-le-set_depth fragments x fuel v _ _ _ n (past_field y p) le d a =
    FieldPath-le-set_depth fragments x fuel v _ _ _ _ p le d a
FieldPath-le-set_depth fragments x fuel v _ _ _ n (past_inline p) le d a =
    FieldPath-le-set_depth fragments x fuel v _ _ _ _ p le d a
FieldPath-le-set_depth fragments x fuel v _ _ _ n (past_spread y p) le d a =
    FieldPath-le-set_depth fragments x fuel v _ _ _ _ p le d a
FieldPath-le-set_depth fragments x zero v _ _ _ n (spread name e p) le d a = absurd (omega arith)
FieldPath-le-set_depth fragments x (suc fuel) v _ _ _ n
      (spread {k = k} {names = names} {ss = ss} {rest = rest} name e p) le (new, d) a =
    let depth = spread_depth (suc fuel) fragments v in
    let inside =
      FieldPath-le-set_depth fragments x fuel (visit name v) k names ss 0 p (omega arith) d
        (avoids-visit v name names new (ground (arith, a))) in
    omega (
      arith,
      inside,
      spread_depth-some fuel fragments v name ss (ground (arith, a)) e,
      set_depth-ge depth rest (deeper n (depth name)),
      (deeper-ge n (depth name)).1,
    )

operations_depth-ge :
    (fuel : ℕ) (fragments : Fragments) (defs : List Definition) (n : ℕ)
    → n ≤ operations_depth fuel fragments n defs
unfolding operations_depth
operations_depth-ge fuel fragments [] n = omega arith
operations_depth-ge fuel fragments (fragment name ss ∷ defs) n =
    operations_depth-ge fuel fragments defs n
operations_depth-ge fuel fragments (operation ss ∷ defs) n =
    let depth = selection_set_depth fuel fragments ss in
    omega (arith, operations_depth-ge fuel fragments defs (deeper n depth), (deeper-ge n depth).0)

operations_depth-bound :
    (defs rest : List Definition) (n k : ℕ)
    → SomeHasDepth (collect defs no_fragments) k rest
    → k ≤ operations_depth (length defs) (collect defs no_fragments) n rest
unfolding operations_depth selection_set_depth
operations_depth-bound defs [] n k h = absurd h
operations_depth-bound defs (fragment name ss ∷ rest) n k h = operations_depth-bound defs rest n k h
operations_depth-bound defs (operation ss ∷ rest) n k (inr h) =
    operations_depth-bound defs rest _ k h
operations_depth-bound defs (operation ss ∷ rest) n k (inl (x, names, p, d)) =
    let fragments = collect defs no_fragments in
    let depth = selection_set_depth (length defs) fragments ss in
    omega (
      arith,
      FieldPath-le-set_depth fragments x (length defs) nothing_visited k names ss 0 p
          (FieldPath-length defs x k names ss p d) d (avoids_nothing names),
      operations_depth-ge (length defs) fragments rest (deeper n depth),
      (deeper-ge n depth).1,
    )

operations_depth-attained :
    (fuel : ℕ) (fragments : Fragments) (defs : List Definition) (n : ℕ)
    → (operations_depth fuel fragments n defs ≡ n)
      ⊎ SomeHasDepth fragments (operations_depth fuel fragments n defs) defs
unfolding operations_depth selection_set_depth
operations_depth-attained fuel fragments [] n = inl refl
operations_depth-attained fuel fragments (fragment name ss ∷ defs) n =
    operations_depth-attained fuel fragments defs n
operations_depth-attained fuel fragments (operation ss ∷ defs) n =
    let depth = selection_set_depth fuel fragments ss in
    elim (operations_depth-attained fuel fragments defs (deeper n depth)) [
      | inr h ↦ inr (inr h)
      | inl same ↦ elim (deeper-cases n depth) [
        | inl old ↦ inl (same ∙ old)
        | inr new ↦
            elim (set_depth-attained fragments nothing_visited _ ss 0
              (spread_depth-IsAttained fuel fragments nothing_visited)) [
                | inl flat ↦ inl (ground (arith, same, flat))
                | inr (x, names, p, d, av) ↦ inr (
                    inl (
                      x,
                      names,
                      subst (λ k. FieldPath fragments x k names ss) (sym (same ∙ new)) p,
                      d,
                    ))
              ]
      ]
    ]

-- The depth of a query bounds the depth of every field on a path that enters no fragment twice, and
-- some field stands that deep, unless it is 0.
pub compute_query_depth_from_ast-max :
    (defs : List Definition)
    → let fragments = collect defs no_fragments in
      let depth = compute_query_depth_from_ast defs in
      ((k : ℕ) → SomeHasDepth fragments k defs → k ≤ depth)
      × ((depth ≡ 0) ⊎ SomeHasDepth fragments depth defs)
unfolding compute_query_depth_from_ast
compute_query_depth_from_ast-max defs = (
  operations_depth-bound defs defs 0,
  operations_depth-attained (length defs) (collect defs no_fragments) defs 0,
)
