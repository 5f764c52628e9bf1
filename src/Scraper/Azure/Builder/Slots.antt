-- ===== src/Scraper/Azure/Builder/Slots.antt =====
-- A price slot that has authoritative rows keeps these and no others; the rest keeps all its rows.
use mathlib.Core.List.{Memᴰ}
use mathlib.Core.List.Memᴰ.{head, tail}
use c3x_pricing_api.Base.{
  String, List, [], ◌∷◌, ◌≡◌, ◌≢◌, ◌⊎◌, inl, inr, refl, sym, ap, subst, Bool, true, false, not,
  ◌||◌, any, str_eq, Bool-cases, if◌then◌else◌,
}
use c3x_pricing_api.Db.Types.{Price}
use c3x_pricing_api.Scraper.Keyed.{Mem-any, any-Mem}
use c3x_pricing_api.Scraper.Azure.Builder.{azure_price_slot, covered, kept}

-- The row of a price stands among the prices and flags of a product.
pub data Row (p : Price) (f : Bool) : List Price → List Bool → Type 0 where
  here :
      {q : Price} {g : Bool} {ps : List Price} {fs : List Bool}
      → p ≡ q
      → f ≡ g
      → Row p f (q ∷ ps) (g ∷ fs)
  there :
      {q : Price} {g : Bool} {ps : List Price} {fs : List Bool}
      → Row p f ps fs
      → Row p f (q ∷ ps) (g ∷ fs)

-- The row is authoritative, or its slot has no authoritative row.
abbrev pub Prevails : Price → Bool → List Price → List Bool → Type 0
Prevails p f ps fs =
    (f ≡ true) ⊎ ((q : Price) → Row q true ps fs → azure_price_slot q ≢ azure_price_slot p)

covered-Mem :
    (s : String) (ps : List Price) (fs : List Bool)
    → Memᴰ s (covered ps fs)
    → (q : Price) × Row q true ps fs × (s ≡ azure_price_slot q)
unfolding covered
covered-Mem s [] fs m = elim m [ ]
covered-Mem s (p ∷ ps) [] m = elim m [ ]
covered-Mem s (p ∷ ps) (false ∷ fs) m = let (q, row, e) = covered-Mem s ps fs m in (q, there row, e)
covered-Mem s (p ∷ ps) (true ∷ fs) (head e) = (p, here refl refl, e)
covered-Mem s (p ∷ ps) (true ∷ fs) (tail m) =
    let (q, row, e) = covered-Mem s ps fs m in (q, there row, e)

Mem-covered :
    (q : Price) (ps : List Price) (fs : List Bool)
    → Row q true ps fs
    → Memᴰ (azure_price_slot q) (covered ps fs)
unfolding covered
Mem-covered q [] fs row = elim row [ ]
Mem-covered q (p ∷ ps) [] row = elim row [ ]
Mem-covered q (p ∷ ps) (true ∷ fs) (here e g) = head (ap azure_price_slot e)
Mem-covered q (p ∷ ps) (false ∷ fs) (here e g) = cc
Mem-covered q (p ∷ ps) (true ∷ fs) (there row) = tail (Mem-covered q ps fs row)
Mem-covered q (p ∷ ps) (false ∷ fs) (there row) = Mem-covered q ps fs row

abbrev Passes : List String → Price → Bool → Type 0
Passes slots p f = (f || not (any (str_eq (azure_price_slot p)) slots)) ≡ true

-- One row of the selection.
kept-cons :
    (slots : List String) (q : Price) (ps : List Price) (g : Bool) (fs : List Bool) (b : Bool)
    → (g || not (any (str_eq (azure_price_slot q)) slots)) ≡ b
    → kept slots (q ∷ ps) (g ∷ fs) ≡ (if b then q ∷ kept slots ps fs else kept slots ps fs)
unfolding kept
kept-cons slots q ps g fs b e = rw e

kept-Mem :
    (p : Price) (slots : List String) (ps : List Price) (fs : List Bool)
    → Memᴰ p (kept slots ps fs)
    → (f : Bool) × Row p f ps fs × Passes slots p f
unfolding kept
kept-Mem p slots [] fs m = elim m [ ]
kept-Mem p slots (q ∷ ps) [] m = elim m [ ]
kept-Mem p slots (q ∷ ps) (g ∷ fs) m =
    elim (Bool-cases (g || not (any (str_eq (azure_price_slot q)) slots))) [
      | inr e ↦
          let (f, row, ok) =
            kept-Mem p slots ps fs (subst (Memᴰ p) (kept-cons slots q ps g fs false e) m) in
          (f, there row, ok)
      | inl e ↦ elim (subst (Memᴰ p) (kept-cons slots q ps g fs true e) m) [
        | head same ↦ (g, here same refl, cc)
        | tail m' ↦ let (f, row, ok) = kept-Mem p slots ps fs m' in (f, there row, ok)
      ]
    ]

Mem-kept :
    (p : Price) (f : Bool) (slots : List String) (ps : List Price) (fs : List Bool)
    → Row p f ps fs
    → Passes slots p f
    → Memᴰ p (kept slots ps fs)
Mem-kept p f slots [] fs row ok = elim row [ ]
Mem-kept p f slots (q ∷ ps) [] row ok = elim row [ ]
Mem-kept p f slots (q ∷ ps) (g ∷ fs) (here e e') ok =
    subst (Memᴰ p) (sym (kept-cons slots q ps g fs true (cc))) (head e)
Mem-kept p f slots (q ∷ ps) (g ∷ fs) (there row) ok =
    let m = Mem-kept p f slots ps fs row ok in
    elim (Bool-cases (g || not (any (str_eq (azure_price_slot q)) slots))) [
      | inl e ↦ subst (Memᴰ p) (sym (kept-cons slots q ps g fs true e)) (tail m)
      | inr e ↦ subst (Memᴰ p) (sym (kept-cons slots q ps g fs false e)) m
    ]

Passes-Prevails :
    (p : Price) (f : Bool) (ps : List Price) (fs : List Bool)
    → Passes (covered ps fs) p f
    → Prevails p f ps fs
Passes-Prevails p true ps fs ok = inl refl
Passes-Prevails p false ps fs ok = inr λ q row same.
    let found =
      any-Mem (azure_price_slot p) (covered ps fs)
        (subst (λ s. Memᴰ s (covered ps fs)) same (Mem-covered q ps fs row)) in
    cc

Prevails-Passes :
    (p : Price) (f : Bool) (ps : List Price) (fs : List Bool)
    → Prevails p f ps fs
    → Passes (covered ps fs) p f
Prevails-Passes p true ps fs h = refl
Prevails-Passes p false ps fs (inl e) = cc
Prevails-Passes p false ps fs (inr h) =
    elim (Bool-cases (any (str_eq (azure_price_slot p)) (covered ps fs))) [
      | inr e ↦ rw e
      | inl e ↦
          let (q, row, same) =
            covered-Mem (azure_price_slot p) ps fs (Mem-any _ (covered ps fs) e) in
          absurd (h q row (sym same))
    ]

-- The selection has the rows that prevail, and no others.
pub kept-Prevails :
    (p : Price) (ps : List Price) (fs : List Bool)
    → Memᴰ p (kept (covered ps fs) ps fs)
    → (f : Bool) × Row p f ps fs × Prevails p f ps fs
kept-Prevails p ps fs m =
    let (f, row, ok) = kept-Mem p (covered ps fs) ps fs m in (f, row, Passes-Prevails p f ps fs ok)

pub Prevails-kept :
    (p : Price) (f : Bool) (ps : List Price) (fs : List Bool)
    → Row p f ps fs
    → Prevails p f ps fs
    → Memᴰ p (kept (covered ps fs) ps fs)
Prevails-kept p f ps fs row h = Mem-kept p f (covered ps fs) ps fs row (Prevails-Passes p f ps fs h)

-- Where there is a row, one prevails.
pub some-Prevails :
    (p : Price) (f : Bool) (ps : List Price) (fs : List Bool)
    → Row p f ps fs
    → (q : Price) × (g : Bool) × Row q g ps fs × Prevails q g ps fs
some-Prevails p true ps fs row = (p, true, row, inl refl)
some-Prevails p false ps fs row =
    elim (Bool-cases (any (str_eq (azure_price_slot p)) (covered ps fs))) [
      | inr e ↦ (p, false, row, Passes-Prevails p false ps fs (rw e refl))
      | inl e ↦
          let (q, row', _) = covered-Mem (azure_price_slot p) ps fs (Mem-any _ (covered ps fs) e) in
          (q, true, row', inl refl)
    ]
