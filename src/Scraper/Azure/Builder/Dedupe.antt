-- ===== src/Scraper/Azure/Builder/Dedupe.antt =====
-- The two deduplications of a product's prices.
use mathlib.Core.List.{Memᴰ}
use mathlib.Core.List.Memᴰ.{head, tail}
use c3x_pricing_api.Base.{
  String, List, [], ◌∷◌, ◌≡◌, refl, sym, subst, ap, Bool, true, false, any, str_eq, eq_iff,
  Bool-cases, inl, inr, arith, if◌then◌else◌,
}
use c3x_pricing_api.Db.Types.{Price}
use c3x_pricing_api.Scraper.Keyed.{HaveKeys}
use c3x_pricing_api.Scraper.Azure.Builder.{dedupe_key, dedupe_from}

dedupe_from-cons :
    (seen : List String) (p : Price) (ps : List Price) (b : Bool)
    → any (str_eq (dedupe_key p)) seen ≡ b
    → dedupe_from seen (p ∷ ps)
      ≡ (if b then dedupe_from seen ps else p ∷ dedupe_from (dedupe_key p ∷ seen) ps)
unfolding dedupe_from
dedupe_from-cons seen p ps b e = ground (arith, e)

-- What stays is one of the prices, with a key not seen before.
pub dedupe_from-Mem :
    (q : Price) (seen : List String) (ps : List Price)
    → Memᴰ q (dedupe_from seen ps)
    → Memᴰ q ps × (any (str_eq (dedupe_key q)) seen ≡ false)
unfolding dedupe_from
dedupe_from-Mem q seen [] m = elim m [ ]
dedupe_from-Mem q seen (p ∷ ps) m = elim (Bool-cases (any (str_eq (dedupe_key p)) seen)) [
  | inl e ↦
      let (m', fresh) =
        dedupe_from-Mem q seen ps (subst (Memᴰ q) (dedupe_from-cons seen p ps true e) m) in
      (tail m', fresh)
  | inr e ↦ elim (subst (Memᴰ q) (dedupe_from-cons seen p ps false e) m) [
    | head same ↦ (head same, rw same e)
    | tail m' ↦
        let (m'', fresh) = dedupe_from-Mem q (dedupe_key p ∷ seen) ps m' in
        (tail m'', ground (arith, fresh))
  ]
]

-- Each price has one with its key that stays, if the key was not seen before.
pub Mem-dedupe_from :
    (p : Price) (seen : List String) (ps : List Price)
    → Memᴰ p ps
    → any (str_eq (dedupe_key p)) seen ≡ false
    → (q : Price) × Memᴰ q (dedupe_from seen ps) × (dedupe_key q ≡ dedupe_key p)
Mem-dedupe_from p seen [] m fresh = elim m [ ]
Mem-dedupe_from p seen (x ∷ ps) (head same) fresh = (
  x,
  subst (Memᴰ x) (sym (dedupe_from-cons seen x ps false (rw (sym same) fresh))) (head refl),
  ap dedupe_key (sym same),
)
Mem-dedupe_from p seen (x ∷ ps) (tail m) fresh =
    elim (Bool-cases (any (str_eq (dedupe_key x)) seen)) [
      | inl e ↦
          let (q, m', same) = Mem-dedupe_from p seen ps m fresh in
          (q, subst (Memᴰ q) (sym (dedupe_from-cons seen x ps true e)) m', same)
      | inr e ↦ elim (Bool-cases (str_eq (dedupe_key p) (dedupe_key x))) [
        | inl eq ↦ (
          x,
          subst (Memᴰ x) (sym (dedupe_from-cons seen x ps false e)) (head refl),
          sym ((eq_iff _ _).0 eq),
        )
        | inr ne ↦
            let (q, m', same) =
              Mem-dedupe_from p (dedupe_key x ∷ seen) ps m (ground (arith, ne, fresh)) in
            (q, subst (Memᴰ q) (sym (dedupe_from-cons seen x ps false e)) (tail m'), same)
      ]
    ]

pub dedupe_from-HaveKeys :
    (seen : List String) (ps : List Price) → HaveKeys dedupe_key (dedupe_from seen ps)
unfolding dedupe_from
dedupe_from-HaveKeys seen [] = tt
dedupe_from-HaveKeys seen (p ∷ ps) = elim (Bool-cases (any (str_eq (dedupe_key p)) seen)) [
  | inl e ↦
      subst (HaveKeys dedupe_key) (sym (dedupe_from-cons seen p ps true e))
        (dedupe_from-HaveKeys seen ps)
  | inr e ↦ subst (HaveKeys dedupe_key) (sym (dedupe_from-cons seen p ps false e)) (
    (λ y m same.
        let (_, fresh) = dedupe_from-Mem y (dedupe_key p ∷ seen) ps m in
        ground (arith, fresh, same, eq_iff (dedupe_key y) (dedupe_key p))),
    dedupe_from-HaveKeys (dedupe_key p ∷ seen) ps,
  )
]
