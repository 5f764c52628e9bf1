-- ===== src/Server/Document/Deepest.antt =====
-- The depth that `selectionSetDepth` returns is the depth of a field, or 0.
use c3x_pricing_api.Base.{
  ℕ, zero, suc, ◌+◌, ◌≡◌, refl, sym, ◌∙◌, subst, ◌⊎◌, String, some, List, [], ◌∷◌, Bool, true,
  false, ltb, eq_iff, eq_refl, arith, Bool-cases, Option-cases, inl, inr,
}
use c3x_pricing_api.Server.Document.{
  Selections, end, field, inline_fragment, fragment_spread, Fragments, visit, deeper, set_depth,
  spread_depth,
}
use c3x_pricing_api.Server.Document.Names.{occurs, AreDistinct}
use c3x_pricing_api.Server.Document.Paths.{
  FieldPath, here, below, inline, spread, past_field, past_inline, past_spread, avoids,
}

-- A field stands at depth `k` inside fragments that are all different and not visited.
abbrev pub HasDepth : Fragments → (String → Bool) → ℕ → Selections → Type 0
HasDepth fragments visited k ss =
    (x : String) × (names : List String) × FieldPath fragments x k names ss
    × AreDistinct names
    × (avoids visited names ≡ true)

pub deeper-cases : (a b : ℕ) → (deeper a b ≡ a) ⊎ (deeper a b ≡ b)
deeper-cases a b = elim (Bool-cases (ltb a b)) [
  | inl h ↦ inr (ground (arith, h))
  | inr h ↦ inl (ground (arith, h))
]

unvisit :
    (visited : String → Bool) (name : String) (ks : List String)
    → avoids (visit name visited) ks ≡ true
    → (occurs name ks ≡ false) × (avoids visited ks ≡ true)
unvisit visited name [] h = (refl, refl)
unvisit visited name (k ∷ ks) h =
    let tail = unvisit visited name ks (ground (arith, h)) in
    (ground (arith, h, tail.0, eq_iff name k, eq_iff k name, eq_refl k), ground (arith, h, tail.1))

-- A spread that is not 0 deep has a field that deep.
abbrev IsAttained : Fragments → (String → Bool) → (String → ℕ) → Type 0
IsAttained fragments visited depth =
    (name : String)
    → (depth name ≡ 0)
      ⊎ ((x : String) × (names : List String) × ((rest : Selections)
            → FieldPath fragments x (depth name) (name ∷ names) (fragment_spread name rest))
          × AreDistinct (name ∷ names)
          × (avoids visited (name ∷ names) ≡ true))

pub set_depth-attained :
    (fragments : Fragments) (visited : String → Bool) (depth : String → ℕ) (ss : Selections) (n : ℕ)
    → IsAttained fragments visited depth
    → (set_depth depth n ss ≡ n) ⊎ HasDepth fragments visited (set_depth depth n ss) ss
unfolding set_depth
set_depth-attained fragments v depth end n a = inl refl
set_depth-attained fragments v depth (field y ss rest) n a =
    elim (set_depth-attained fragments v depth rest (deeper n (1 + set_depth depth 0 ss)) a) [
      | inr (x, names, p, d, av) ↦ inr (x, names, past_field y p, d, av)
      | inl same ↦ elim (deeper-cases n (1 + set_depth depth 0 ss)) [
        | inl old ↦ inl (same ∙ old)
        | inr new ↦ inr (
            subst (λ k. HasDepth fragments v k (field y ss rest)) (sym (same ∙ new))
              (elim (set_depth-attained fragments v depth ss 0 a) [
                | inl flat ↦
                    subst (λ k. HasDepth fragments v (1 + k) (field y ss rest)) (sym flat)
                      (y, [], here, _, refl)
                | inr (x, names, p, d, av) ↦ (x, names, below y p, d, av)
              ]))
      ]
    ]
set_depth-attained fragments v depth (inline_fragment ss rest) n a =
    elim (set_depth-attained fragments v depth rest (deeper n (set_depth depth 0 ss)) a) [
      | inr (x, names, p, d, av) ↦ inr (x, names, past_inline p, d, av)
      | inl same ↦ elim (deeper-cases n (set_depth depth 0 ss)) [
        | inl old ↦ inl (same ∙ old)
        | inr new ↦ elim (set_depth-attained fragments v depth ss 0 a) [
          | inl flat ↦ inl (ground (arith, same, flat))
          | inr (x, names, p, d, av) ↦ inr (
              subst (λ k. HasDepth fragments v k (inline_fragment ss rest)) (sym (same ∙ new))
                (x, names, inline p, d, av))
        ]
      ]
    ]
set_depth-attained fragments v depth (fragment_spread name rest) n a =
    elim (set_depth-attained fragments v depth rest (deeper n (depth name)) a) [
      | inr (x, names, p, d, av) ↦ inr (x, names, past_spread name p, d, av)
      | inl same ↦ elim (deeper-cases n (depth name)) [
        | inl old ↦ inl (same ∙ old)
        | inr new ↦ elim (a name) [
          | inl flat ↦ inl (ground (arith, same, flat))
          | inr (x, names, p, d, av) ↦ inr (
              subst (λ k. HasDepth fragments v k (fragment_spread name rest)) (sym (same ∙ new))
                (x, name ∷ names, p rest, d, av))
        ]
      ]
    ]

pub spread_depth-some :
    (fuel : ℕ) (fragments : Fragments) (visited : String → Bool) (name : String) (ss : Selections)
    → visited name ≡ false
    → fragments name ≡ some ss
    → spread_depth (suc fuel) fragments visited name
      ≡ set_depth (spread_depth fuel fragments (visit name visited)) 0 ss
unfolding spread_depth
spread_depth-some fuel fragments visited name ss v e = ground arith

pub spread_depth-IsAttained :
    (fuel : ℕ) (fragments : Fragments) (visited : String → Bool)
    → IsAttained fragments visited (spread_depth fuel fragments visited)
unfolding spread_depth
spread_depth-IsAttained zero fragments v name = inl refl
spread_depth-IsAttained (suc fuel) fragments v name = elim (Bool-cases (v name)) [
  | inl old ↦ inl (ground arith)
  | inr new ↦ elim (Option-cases (fragments name)) [
    | inl absent ↦ inl (ground arith)
    | inr (ss, e) ↦
        let same = spread_depth-some fuel fragments v name ss new e in
        elim (set_depth-attained fragments (visit name v) _ ss 0
          (spread_depth-IsAttained fuel fragments (visit name v))) [
            | inl flat ↦ inl (same ∙ flat)
            | inr (x, names, p, d, av) ↦
                let (fresh, av') = unvisit v name names av in
                inr (
                  x,
                  names,
                  λ rest.
                      subst
                        (λ k. FieldPath fragments x k (name ∷ names) (fragment_spread name rest))
                        (sym same) (spread name e p),
                  (fresh, d),
                  ground (arith, new, av'),
                )
          ]
  ]
]
