-- ===== src/Scraper/Azure/Builder/Tiers.antt =====
-- The deduplication by tier keeps the cheapest price of each.
use mathlib.Core.List.{Memᴰ}
use mathlib.Core.List.Memᴰ.{head, tail}
use c3x_pricing_api.Base.{
  List, [], ◌∷◌, ◌≡◌, ◌⊎◌, refl, sym, subst, ap, ◌∙◌, Bool, true, false, str_eq, eq_iff, Bool-cases,
  inl, inr, arith, if◌then◌else◌,
}
use c3x_pricing_api.Db.Types.{Price}
use c3x_pricing_api.Scraper.Azure.{Library}
use c3x_pricing_api.Scraper.Order.{IsOrder}
use c3x_pricing_api.Scraper.Keyed.{HaveKeys}
use c3x_pricing_api.Scraper.Azure.Builder.{tier_key, place, place_all}

-- The second price stands for the first: the same tier, and no dearer.
abbrev pub StandsFor : Library → Price → Price → Type 0
StandsFor lib p q = (tier_key q ≡ tier_key p) × (lib.is_cheaper p.usd q.usd ≡ false)

module _ (lib : Library) where
  place-eq :
      (p q : Price) (qs : List Price) (b : Bool)
      → str_eq (tier_key q) (tier_key p) ≡ b
      → place lib p (q ∷ qs)
        ≡ (if b then (if lib.is_cheaper p.usd q.usd then p else q) ∷ qs else q ∷ place lib p qs)
  unfolding place
  place-eq p q qs b e = ground (arith, e)

  place-Mem : (x p : Price) (qs : List Price) → Memᴰ x (place lib p qs) → (x ≡ p) ⊎ Memᴰ x qs
  unfolding place
  place-Mem x p [] (head same) = inl same
  place-Mem x p [] (tail m) = elim m [ ]
  place-Mem x p (q ∷ qs) m = elim (Bool-cases (str_eq (tier_key q) (tier_key p))) [
    | inl e ↦ elim (subst (Memᴰ x) (place-eq p q qs true e) m) [
      | head same ↦ elim (Bool-cases (lib.is_cheaper p.usd q.usd)) [
        | inl c ↦ inl (ground (arith, same, c))
        | inr c ↦ inr (head (ground (arith, same, c)))
      ]
      | tail m' ↦ inr (tail m')
    ]
    | inr e ↦ elim (subst (Memᴰ x) (place-eq p q qs false e) m) [
      | head same ↦ inr (head same)
      | tail m' ↦ elim (place-Mem x p qs m') [ inl same ↦ inl same | inr m'' ↦ inr (tail m'') ]
    ]
  ]

  place-HaveKeys :
      (p : Price) (qs : List Price) → HaveKeys tier_key qs → HaveKeys tier_key (place lib p qs)
  unfolding place
  place-HaveKeys p [] h = ((λ y m. elim m [ ]), tt)
  place-HaveKeys p (q ∷ qs) (apart, h) = elim (Bool-cases (str_eq (tier_key q) (tier_key p))) [
    | inl e ↦ subst (HaveKeys tier_key) (sym (place-eq p q qs true e)) (
      (λ y m same.
          let old = apart y m in
          elim (Bool-cases (lib.is_cheaper p.usd q.usd)) [
            | inl c ↦ old (rw c at same ∙ sym ((eq_iff _ _).0 e))
            | inr c ↦ old (rw c at same)
          ]),
      h,
    )
    | inr e ↦ subst (HaveKeys tier_key) (sym (place-eq p q qs false e)) (
      (λ y m same. elim (place-Mem y p qs m) [
        | inl here ↦
            let back : str_eq (tier_key q) (tier_key p) ≡ true =
              (eq_iff _ _).1 (sym same ∙ ap tier_key here) in
            cc
        | inr m' ↦ apart y m' same
      ]),
      place-HaveKeys p qs h,
    )
  ]

  module _ (order : IsOrder lib.is_cheaper) where
    StandsFor-refl : (p : Price) → StandsFor lib p p
    StandsFor-refl p = (refl, order.irreflexive p.usd)

    -- The new price has one that stands for it.
    place-StandsFor_new :
        (p : Price) (qs : List Price) → (x : Price) × Memᴰ x (place lib p qs) × StandsFor lib p x
    unfolding place
    place-StandsFor_new p [] = (p, head refl, StandsFor-refl p)
    place-StandsFor_new p (q ∷ qs) = elim (Bool-cases (str_eq (tier_key q) (tier_key p))) [
      | inl e ↦ elim (Bool-cases (lib.is_cheaper p.usd q.usd)) [
        | inl c ↦ (p, subst (Memᴰ p) (sym (place-eq p q qs true e)) (head (rw c)), StandsFor-refl p)
        | inr c ↦
            (q, subst (Memᴰ q) (sym (place-eq p q qs true e)) (head (rw c)), ((eq_iff _ _).0 e, c))
      ]
      | inr e ↦
          let (x, m, s) = place-StandsFor_new p qs in
          (x, subst (Memᴰ x) (sym (place-eq p q qs false e)) (tail m), s)
    ]

    -- So does each price that was there.
    place-StandsFor :
        (p y : Price) (qs : List Price)
        → Memᴰ y qs
        → (x : Price) × Memᴰ x (place lib p qs) × StandsFor lib y x
    place-StandsFor p y [] m = elim m [ ]
    place-StandsFor p y (q ∷ qs) m = elim (Bool-cases (str_eq (tier_key q) (tier_key p))) [
      | inl e ↦ elim m [
        | head same ↦ elim (Bool-cases (lib.is_cheaper p.usd q.usd)) [
          | inl c ↦ (
            p,
            subst (Memᴰ p) (sym (place-eq p q qs true e)) (head (rw c)),
            rw same (sym ((eq_iff _ _).0 e), order.asymmetric p.usd q.usd c),
          )
          | inr c ↦ (
            q,
            subst (Memᴰ q) (sym (place-eq p q qs true e)) (head (rw c)),
            rw same (StandsFor-refl q),
          )
        ]
        | tail m' ↦ (y, subst (Memᴰ y) (sym (place-eq p q qs true e)) (tail m'), StandsFor-refl y)
      ]
      | inr e ↦ elim m [
        | head same ↦ (
          q,
          subst (Memᴰ q) (sym (place-eq p q qs false e)) (head refl),
          rw same (StandsFor-refl q),
        )
        | tail m' ↦
            let (x, m'', s) = place-StandsFor p y qs m' in
            (x, subst (Memᴰ x) (sym (place-eq p q qs false e)) (tail m''), s)
      ]
    ]

    StandsFor-trans : (p q r : Price) → StandsFor lib p q → StandsFor lib q r → StandsFor lib p r
    StandsFor-trans p q r (e, c) (e', c') = (e' ∙ e, order.transitive p.usd q.usd r.usd c c')

    place_all-StandsFor_old :
        (ps : List Price) (y : Price) (qs : List Price)
        → Memᴰ y qs
        → (x : Price) × Memᴰ x (place_all lib ps qs) × StandsFor lib y x
    unfolding place_all
    place_all-StandsFor_old [] y qs m = (y, m, StandsFor-refl y)
    place_all-StandsFor_old (p ∷ ps) y qs m =
        let (x, m', s) = place-StandsFor p y qs m in
        let (z, m'', s') = place_all-StandsFor_old ps x (place lib p qs) m' in
        (z, m'', StandsFor-trans y x z s s')

    -- Every price has one in the result that stands for it.
    pub place_all-StandsFor :
        (ps : List Price) (y : Price) (qs : List Price)
        → Memᴰ y ps
        → (x : Price) × Memᴰ x (place_all lib ps qs) × StandsFor lib y x
    unfolding place_all
    place_all-StandsFor [] y qs m = elim m [ ]
    place_all-StandsFor (p ∷ ps) y qs (head same) =
        let (x, m', s) = place-StandsFor_new p qs in
        let (z, m'', s') = place_all-StandsFor_old ps x (place lib p qs) m' in
        (z, m'', rw same (StandsFor-trans p x z s s'))
    place_all-StandsFor (p ∷ ps) y qs (tail m) = place_all-StandsFor ps y (place lib p qs) m

  -- Nothing in the result is new.
  pub place_all-Mem :
      (x : Price) (ps qs : List Price) → Memᴰ x (place_all lib ps qs) → Memᴰ x ps ⊎ Memᴰ x qs
  unfolding place_all
  place_all-Mem x [] qs m = inr m
  place_all-Mem x (p ∷ ps) qs m = elim (place_all-Mem x ps (place lib p qs) m) [
    | inl m' ↦ inl (tail m')
    | inr m' ↦ elim (place-Mem x p qs m') [ inl same ↦ inl (head same) | inr m'' ↦ inr m'' ]
  ]

  pub place_all-HaveKeys :
      (ps qs : List Price) → HaveKeys tier_key qs → HaveKeys tier_key (place_all lib ps qs)
  unfolding place_all
  place_all-HaveKeys [] qs h = h
  place_all-HaveKeys (p ∷ ps) qs h = place_all-HaveKeys ps (place lib p qs) (place-HaveKeys p qs h)
