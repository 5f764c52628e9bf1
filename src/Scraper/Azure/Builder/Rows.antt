-- ===== src/Scraper/Azure/Builder/Rows.antt =====
-- Each row that is added becomes a price of the entry of its key.
use mathlib.Core.List.{Memᴰ}
use mathlib.Core.List.Memᴰ.{head, tail}
use c3x_pricing_api.Base.{
  String, List, [], ◌∷◌, ◌++◌, ◌≡◌, refl, sym, subst, Bool, true, false, str_eq, eq_iff, Bool-cases,
  inl, inr, arith, if◌then◌else◌,
}
use c3x_pricing_api.Db.Types.{Price}
use c3x_pricing_api.Scraper.Azure.{Library, Item, azure_product_regions}
use c3x_pricing_api.Scraper.Azure.Builder.{
  Entry, is_authoritative, product_key, new_product, item_price, add_price, add_to, add_regions,
  add, add_all,
}
use c3x_pricing_api.Scraper.Azure.Builder.Slots.{Row, here, there}

-- The entry of a key has the row of an item, made for its product.
abbrev pub HasItem : Library → Item → String → Entry → Type 0
HasItem lib item region e =
    (e.key ≡ product_key item region)
    × Row (item_price lib item e.product.product_hash) (is_authoritative item) e.product.prices
        e.primary

Row-append :
    (p q : Price) (f g : Bool) (ps : List Price) (fs : List Bool)
    → Row p f ps fs
    → Row p f (ps ++ q ∷ []) (fs ++ g ∷ [])
Row-append p q f g [] fs row = elim row [ ]
Row-append p q f g (x ∷ ps) [] row = elim row [ ]
Row-append p q f g (x ∷ ps) (y ∷ fs) (here e e') = here e e'
Row-append p q f g (x ∷ ps) (y ∷ fs) (there row) = there (Row-append p q f g ps fs row)

-- Prices and flags go together.
abbrev pub Aligned : List Price → List Bool → Type 0
Aligned [] [] = Unit
Aligned [] (f ∷ fs) = ⊥
Aligned (p ∷ ps) [] = ⊥
Aligned (p ∷ ps) (f ∷ fs) = Aligned ps fs

Aligned-append :
    (q : Price) (g : Bool) (ps : List Price) (fs : List Bool)
    → Aligned ps fs
    → Aligned (ps ++ q ∷ []) (fs ++ g ∷ [])
Aligned-append q g [] [] h = tt
Aligned-append q g [] (f ∷ fs) h = absurd h
Aligned-append q g (p ∷ ps) [] h = absurd h
Aligned-append q g (p ∷ ps) (f ∷ fs) h = Aligned-append q g ps fs h

Row-last :
    (q : Price) (g : Bool) (ps : List Price) (fs : List Bool)
    → Aligned ps fs
    → Row q g (ps ++ q ∷ []) (fs ++ g ∷ [])
Row-last q g [] [] h = here refl refl
Row-last q g [] (f ∷ fs) h = absurd h
Row-last q g (p ∷ ps) [] h = absurd h
Row-last q g (p ∷ ps) (f ∷ fs) h = there (Row-last q g ps fs h)

abbrev pub AreAligned : List Entry → Type 0
AreAligned entries = (e : Entry) → Memᴰ e entries → Aligned e.product.prices e.primary

abbrev pub Holds : Library → Item → String → List Entry → Type 0
Holds lib item region entries = (e : Entry) × Memᴰ e entries × HasItem lib item region e

add_price-Aligned :
    (lib : Library) (item : Item) (e : Entry)
    → Aligned e.product.prices e.primary
    → let e' = add_price lib item e in Aligned e'.product.prices e'.primary
unfolding add_price
add_price-Aligned lib item e h = Aligned-append _ _ e.product.prices e.primary h

add_price-HasItem_self :
    (lib : Library) (item : Item) (region : String) (e : Entry)
    → e.key ≡ product_key item region
    → Aligned e.product.prices e.primary
    → HasItem lib item region (add_price lib item e)
unfolding add_price
add_price-HasItem_self lib item region e k h = (k, Row-last _ _ e.product.prices e.primary h)

add_price-HasItem :
    (lib : Library) (item j : Item) (region : String) (e : Entry)
    → HasItem lib j region e
    → HasItem lib j region (add_price lib item e)
unfolding add_price
add_price-HasItem lib item j region e (k, row) =
    (k, Row-append _ _ _ _ e.product.prices e.primary row)

add_to-cons :
    (lib : Library) (item : Item) (region : String) (e : Entry) (es : List Entry) (b : Bool)
    → str_eq e.key (product_key item region) ≡ b
    → add_to lib item region (e ∷ es)
      ≡ (if b then add_price lib item e ∷ es else e ∷ add_to lib item region es)
unfolding add_to
add_to-cons lib item region e es b h = ground (arith, h)

add_to-AreAligned :
    (lib : Library) (item : Item) (region : String) (es : List Entry)
    → AreAligned es
    → AreAligned (add_to lib item region es)
unfolding add_to add_price new_product
add_to-AreAligned lib item region [] h e (head same) = rw same tt
add_to-AreAligned lib item region [] h e (tail m) = elim m [ ]
add_to-AreAligned lib item region (x ∷ es) h e m =
    elim (Bool-cases (str_eq x.key (product_key item region))) [
      | inl k ↦ elim (subst (Memᴰ e) (add_to-cons lib item region x es true k) m) [
        | head same ↦ rw same (add_price-Aligned lib item x (h x (head refl)))
        | tail m' ↦ h e (tail m')
      ]
      | inr k ↦ elim (subst (Memᴰ e) (add_to-cons lib item region x es false k) m) [
        | head same ↦ h e (head same)
        | tail m' ↦ add_to-AreAligned lib item region es (λ y n. h y (tail n)) e m'
      ]
    ]

add_to-Holds_self :
    (lib : Library) (item : Item) (region : String) (es : List Entry)
    → AreAligned es
    → Holds lib item region (add_to lib item region es)
add_to-Holds_self lib item region [] h =
    unfold add_to new_product in (_, head refl, add_price-HasItem_self lib item region _ refl tt)
add_to-Holds_self lib item region (x ∷ es) h =
    elim (Bool-cases (str_eq x.key (product_key item region))) [
      | inl k ↦ (
        add_price lib item x,
        subst (Memᴰ _) (sym (add_to-cons lib item region x es true k)) (head refl),
        add_price-HasItem_self lib item region x ((eq_iff _ _).0 k) (h x (head refl)),
      )
      | inr k ↦
          let (e, m, has) = add_to-Holds_self lib item region es (λ y n. h y (tail n)) in
          (e, subst (Memᴰ e) (sym (add_to-cons lib item region x es false k)) (tail m), has)
    ]

add_to-Holds :
    (lib : Library) (item : Item) (region : String) (j : Item) (r : String) (es : List Entry)
    → Holds lib j r es
    → Holds lib j r (add_to lib item region es)
add_to-Holds lib item region j r [] (e, m, has) = elim m [ ]
add_to-Holds lib item region j r (x ∷ es) (e, m, has) =
    elim (Bool-cases (str_eq x.key (product_key item region))) [
      | inl k ↦ elim m [
        | head same ↦ (
          add_price lib item x,
          subst (Memᴰ _) (sym (add_to-cons lib item region x es true k)) (head refl),
          add_price-HasItem lib item j r x (subst (HasItem lib j r) same has),
        )
        | tail m' ↦
            (e, subst (Memᴰ e) (sym (add_to-cons lib item region x es true k)) (tail m'), has)
      ]
      | inr k ↦ elim m [
        | head same ↦
            (e, subst (Memᴰ e) (sym (add_to-cons lib item region x es false k)) (head same), has)
        | tail m' ↦
            let (e', m'', has') = add_to-Holds lib item region j r es (e, m', has) in
            (e', subst (Memᴰ e') (sym (add_to-cons lib item region x es false k)) (tail m''), has')
      ]
    ]

add_regions-AreAligned :
    (lib : Library) (item : Item) (rs : List String) (es : List Entry)
    → AreAligned es
    → AreAligned (add_regions lib item rs es)
unfolding add_regions
add_regions-AreAligned lib item [] es h = h
add_regions-AreAligned lib item (r ∷ rs) es h =
    add_regions-AreAligned lib item rs _ (add_to-AreAligned lib item r es h)

add_regions-Holds :
    (lib : Library) (item : Item) (rs : List String) (j : Item) (r : String) (es : List Entry)
    → Holds lib j r es
    → Holds lib j r (add_regions lib item rs es)
unfolding add_regions
add_regions-Holds lib item [] j r es h = h
add_regions-Holds lib item (s ∷ rs) j r es h =
    add_regions-Holds lib item rs j r _ (add_to-Holds lib item s j r es h)

add_regions-Holds_self :
    (lib : Library) (item : Item) (rs : List String) (r : String) (es : List Entry)
    → Memᴰ r rs
    → AreAligned es
    → Holds lib item r (add_regions lib item rs es)
unfolding add_regions
add_regions-Holds_self lib item [] r es m h = elim m [ ]
add_regions-Holds_self lib item (s ∷ rs) r es (head same) h =
    subst (λ t. Holds lib item t (add_regions lib item rs (add_to lib item s es))) (sym same)
      (add_regions-Holds lib item rs item s _ (add_to-Holds_self lib item s es h))
add_regions-Holds_self lib item (s ∷ rs) r es (tail m) h =
    add_regions-Holds_self lib item rs r _ m (add_to-AreAligned lib item s es h)

add_all-Holds_old :
    (lib : Library) (items : List Item) (j : Item) (r : String) (es : List Entry)
    → Holds lib j r es
    → Holds lib j r (add_all lib items es)
unfolding add_all add
add_all-Holds_old lib [] j r es h = h
add_all-Holds_old lib (item ∷ items) j r es h =
    add_all-Holds_old lib items j r _
      (add_regions-Holds lib item (azure_product_regions lib item) j r es h)

-- Every row has an entry under each of its regions, with a price made for the entry's product.
pub add_all-Holds :
    (lib : Library) (items : List Item) (j : Item) (r : String) (es : List Entry)
    → AreAligned es
    → Memᴰ j items
    → Memᴰ r (azure_product_regions lib j)
    → Holds lib j r (add_all lib items es)
unfolding add_all add
add_all-Holds lib [] j r es h m n = elim m [ ]
add_all-Holds lib (item ∷ items) j r es h (head same) n = add_all-Holds_old lib items j r _ (
    subst (λ i. Holds lib j r (add_regions lib i (azure_product_regions lib i) es)) same
      (add_regions-Holds_self lib j (azure_product_regions lib j) r es n h))
add_all-Holds lib (item ∷ items) j r es h (tail m) n =
    add_all-Holds lib items j r _
      (add_regions-AreAligned lib item (azure_product_regions lib item) es h) m n
