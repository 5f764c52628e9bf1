-- ===== src/Scraper/Aws/Built.antt =====
-- What the products of an offer file are like, and that they have every price the file gives.
use mathlib.Core.List.{Memᴰ}
use mathlib.Core.List.Memᴰ
use mathlib.Core.List.Memᴰ.{head, tail}
use c3x_pricing_api.Base.{
  ℕ, String, none, some, Option-cases, ◌↔◌, List, [], ◌∷◌, ◌≡◌, ◌≢◌, ◌⊎◌, inl, inr, refl, sym,
  subst, ap, ◌∙◌, Bool, true, false, eq_iff, Bool-cases, if◌then◌else◌, arith,
}
use c3x_pricing_api.Db.Types.{Price}
use c3x_pricing_api.Scraper.Hash.{price_hash}
use c3x_pricing_api.Scraper.Attributes.{get}
use c3x_pricing_api.Scraper.Aws.{
  Library, AwsPriceDimension, AwsTermOffer, Term, on_demand, reserved, dimension_usd, cny_to_usd,
  end_range, dimension_price, is_skipped, dimension_prices, offer_prices,
}

-- What a dimension costs: its price in USD, or else the one in CNY at the rate, if it is a number.
abbrev pub HasAmount : Library → ℕ → AwsPriceDimension → String → Type 0
HasAmount lib rate dim usd =
    ((get "USD" dim.price_per_unit ≡ usd) × (usd ≢ ""))
    ⊎ ((get "USD" dim.price_per_unit ≡ "")
        × (get "CNY" dim.price_per_unit ≢ "")
        × ((v : ℕ) × (lib.parse_float (get "CNY" dim.price_per_unit) ≡ some v)
            × (((lib.is_zero v ≡ true) × (usd ≡ "0.0000000000"))
                ⊎ ((lib.is_zero v ≡ false) × (usd ≡ lib.fixed (lib.divide v rate))))))

-- On demand there is no term; the term of a reservation is that of the offer's attributes.
abbrev pub HasTerm : Bool → AwsTermOffer → Price → Type 0
HasTerm true offer q =
    (q.purchase_option ≡ "reserved")
    × (q.term_length ≡ get "LeaseContractLength" offer.term_attributes)
    × (q.term_purchase_option ≡ get "PurchaseOption" offer.term_attributes)
    × (q.term_offering_class ≡ get "OfferingClass" offer.term_attributes)
HasTerm false offer q =
    (q.purchase_option ≡ "on_demand")
    × (q.term_length ≡ "")
    × (q.term_purchase_option ≡ "")
    × (q.term_offering_class ≡ "")

-- The price says what the dimension of the offer says; an open end is "".
pub record IsPriceOf (lib : Library) (rate : ℕ) (r : Bool) (offer : AwsTermOffer)
    (dim : AwsPriceDimension) (q : Price) : Type 0 where
  pub amount : HasAmount lib rate dim q.usd
  pub filled : q.usd ≢ ""
  pub unit : q.unit ≡ dim.unit
  pub start : q.start_usage_amount ≡ dim.begin_range
  pub open_end : dim.end_range ≡ "Inf" → q.end_usage_amount ≡ ""
  pub bounded_end : dim.end_range ≢ "Inf" → q.end_usage_amount ≡ dim.end_range
  pub description : q.description ≡ dim.description
  pub term : HasTerm r offer q

-- The price's own hash is that of its fields.
abbrev pub IsHashed : Library → String → Price → Type 0
IsHashed lib hash q =
    q.price_hash
    ≡ price_hash lib.hex hash q.purchase_option q.unit q.start_usage_amount q.description
        q.term_length q.term_purchase_option q.term_offering_class

empty_or : (s : String) → (s ≡ "") ⊎ (s ≢ "")
empty_or String.[] = inl refl
empty_or (String.◌∷◌ c s) = inr (λ e. cc)

module _ (lib : Library) (rate : ℕ) where
  cny_to_usd-none : (cny : String) → lib.parse_float cny ≡ none → cny_to_usd lib rate cny ≡ ""
  unfolding cny_to_usd
  cny_to_usd-none cny e = ground (arith, e)

  cny_to_usd-some :
      (cny : String) (v : ℕ) (b : Bool)
      → lib.parse_float cny ≡ some v
      → lib.is_zero v ≡ b
      → cny_to_usd lib rate cny ≡ (if b then "0.0000000000" else lib.fixed (lib.divide v rate))
  unfolding cny_to_usd
  cny_to_usd-some cny v b e f = ground (arith, e, f)

  cny_to_usd-amount :
      (cny usd : String)
      → cny_to_usd lib rate cny ≡ usd
      → usd ≢ ""
      → (v : ℕ) × (lib.parse_float cny ≡ some v)
        × (((lib.is_zero v ≡ true) × (usd ≡ "0.0000000000"))
            ⊎ ((lib.is_zero v ≡ false) × (usd ≡ lib.fixed (lib.divide v rate))))
  cny_to_usd-amount cny usd e ne = elim (Option-cases (lib.parse_float cny)) [
    | inl none_of ↦ absurd (ne (sym e ∙ cny_to_usd-none cny none_of))
    | inr (v, some_of) ↦ (
      v,
      some_of,
      (elim (Bool-cases (lib.is_zero v)) [
        | inl zero_of ↦ inl (zero_of, sym e ∙ cny_to_usd-some cny v true some_of zero_of)
        | inr other ↦ inr (other, sym e ∙ cny_to_usd-some cny v false some_of other)
      ]),
    )
  ]

  dimension_usd-usd :
      (dim : AwsPriceDimension)
      → get "USD" dim.price_per_unit ≢ ""
      → dimension_usd lib rate dim ≡ get "USD" dim.price_per_unit
  unfolding dimension_usd
  dimension_usd-usd dim ne = ground (arith, ne, (eq_iff (get "USD" dim.price_per_unit) "").0)

  dimension_usd-cny :
      (dim : AwsPriceDimension)
      → get "USD" dim.price_per_unit ≡ ""
      → get "CNY" dim.price_per_unit ≢ ""
      → dimension_usd lib rate dim ≡ cny_to_usd lib rate (get "CNY" dim.price_per_unit)
  unfolding dimension_usd
  dimension_usd-cny dim e ne = ground (
    arith,
    ne,
    (eq_iff (get "USD" dim.price_per_unit) "").1 e,
    (eq_iff (get "CNY" dim.price_per_unit) "").0,
  )

  dimension_usd-none :
      (dim : AwsPriceDimension)
      → get "USD" dim.price_per_unit ≡ ""
      → get "CNY" dim.price_per_unit ≡ ""
      → dimension_usd lib rate dim ≡ ""
  unfolding dimension_usd
  dimension_usd-none dim e f = ground (
    arith,
    (eq_iff (get "USD" dim.price_per_unit) "").1 e,
    (eq_iff (get "CNY" dim.price_per_unit) "").1 f,
  )

  dimension_usd-HasAmount :
      (dim : AwsPriceDimension) (usd : String)
      → dimension_usd lib rate dim ≡ usd
      → usd ≢ ""
      → HasAmount lib rate dim usd
  dimension_usd-HasAmount dim usd e ne = elim (empty_or (get "USD" dim.price_per_unit)) [
    | inr filled ↦ inl (sym (dimension_usd-usd dim filled) ∙ e, ne)
    | inl no_usd ↦ elim (empty_or (get "CNY" dim.price_per_unit)) [
      | inl no_cny ↦ absurd (ne (sym e ∙ dimension_usd-none dim no_usd no_cny))
      | inr filled ↦
          let same = sym (dimension_usd-cny dim no_usd filled) ∙ e in
          inr (no_usd, filled, cny_to_usd-amount (get "CNY" dim.price_per_unit) usd same ne)
    ]
  ]

  pub HasAmount-dimension_usd :
      (dim : AwsPriceDimension) (usd : String)
      → HasAmount lib rate dim usd
      → dimension_usd lib rate dim ≡ usd
  HasAmount-dimension_usd dim usd (inl (e, ne)) = dimension_usd-usd dim (λ f. ne (sym e ∙ f)) ∙ e
  HasAmount-dimension_usd dim usd (inr (no_usd, ne, (v, parsed, inl (zero_of, e)))) =
      dimension_usd-cny dim no_usd ne
      ∙ cny_to_usd-some (get "CNY" dim.price_per_unit) v true parsed zero_of
      ∙ sym e
  HasAmount-dimension_usd dim usd (inr (no_usd, ne, (v, parsed, inr (other, e)))) =
      dimension_usd-cny dim no_usd ne
      ∙ cny_to_usd-some (get "CNY" dim.price_per_unit) v false parsed other
      ∙ sym e

  end_range-open : (dim : AwsPriceDimension) → dim.end_range ≡ "Inf" → end_range dim ≡ ""
  unfolding end_range
  end_range-open dim e = ground (arith, (eq_iff dim.end_range "Inf").1 e)

  end_range-bounded :
      (dim : AwsPriceDimension) → dim.end_range ≢ "Inf" → end_range dim ≡ dim.end_range
  unfolding end_range
  end_range-bounded dim ne = ground (arith, ne, (eq_iff dim.end_range "Inf").0)

  term-HasTerm :
      (r : Bool) (hash : String) (offer : AwsTermOffer) (dim : AwsPriceDimension)
      → HasTerm r offer
          (dimension_price lib rate hash (if r then reserved offer else on_demand offer) dim)
  unfolding dimension_price
  term-HasTerm true hash offer dim = (refl, refl, refl, refl)
  term-HasTerm false hash offer dim = (refl, refl, refl, refl)

  -- The price that the code makes of a dimension.
  abbrev pub price_of : Bool → String → AwsTermOffer → AwsPriceDimension → Price
  price_of r hash offer dim =
      dimension_price lib rate hash (if r then reserved offer else on_demand offer) dim

  pub price_of-usd :
      (r : Bool) (hash : String) (offer : AwsTermOffer) (dim : AwsPriceDimension)
      → (price_of r hash offer dim).usd ≡ dimension_usd lib rate dim
  unfolding dimension_price
  price_of-usd r hash offer dim = refl

  pub dimension_price-IsPriceOf :
      (r : Bool) (hash : String) (offer : AwsTermOffer) (dim : AwsPriceDimension)
      → dimension_usd lib rate dim ≢ ""
      → IsPriceOf lib rate r offer dim (price_of r hash offer dim)
  unfolding dimension_price
  dimension_price-IsPriceOf r hash offer dim ne = record {
    amount = dimension_usd-HasAmount dim (dimension_usd lib rate dim) refl ne;
    filled = ne;
    unit = refl;
    start = refl;
    open_end = end_range-open dim;
    bounded_end = end_range-bounded dim;
    description = refl;
    term = term-HasTerm r hash offer dim;
  }

  dimension_price-IsHashed :
      (r : Bool) (hash : String) (offer : AwsTermOffer) (dim : AwsPriceDimension)
      → IsHashed lib hash (price_of r hash offer dim)
  unfolding dimension_price
  dimension_price-IsHashed true hash offer dim = refl
  dimension_price-IsHashed false hash offer dim = refl

  pub kept_iff :
      (r : Bool) (dim : AwsPriceDimension)
      → (is_skipped lib rate r dim ≡ false)
        ↔ ((dimension_usd lib rate dim ≢ "") × (r ≡ true → dim.unit ≢ "Quantity"))
  unfolding is_skipped
  kept_iff r dim =
      let empty = eq_iff (dimension_usd lib rate dim) "" in
      let quantity = eq_iff dim.unit "Quantity" in
      (
        (λ h. (ground (arith, h, empty), (λ e q. ground (arith, h, e, q, quantity)))),
        (λ (ne, unit). ground (arith, ne, unit, empty, quantity)),
      )

  dimension_prices-cons :
      (r : Bool) (hash : String) (term : Term) (dim : AwsPriceDimension)
      (dims : List AwsPriceDimension) (b : Bool)
      → is_skipped lib rate r dim ≡ b
      → dimension_prices lib rate r hash term (dim ∷ dims) ≡ (
          if b
          then dimension_prices lib rate r hash term dims
          else dimension_price lib rate hash term dim ∷ dimension_prices lib rate r hash term dims)
  unfolding dimension_prices
  dimension_prices-cons r hash term dim dims b e = ground (arith, e)

  -- Where a price of the dimensions comes from.
  dimension_prices-Mem :
      (r : Bool) (hash : String) (offer : AwsTermOffer) (dims : List AwsPriceDimension) (q : Price)
      → Memᴰ q
          (dimension_prices lib rate r hash (if r then reserved offer else on_demand offer) dims)
      → (dim : AwsPriceDimension) × Memᴰ dim dims
        × (is_skipped lib rate r dim ≡ false)
        × (q ≡ price_of r hash offer dim)
  dimension_prices-Mem r hash offer [] q m = unfold dimension_prices in elim m [ ]
  dimension_prices-Mem r hash offer (x ∷ dims) q m =
      let term = if r then reserved offer else on_demand offer in
      elim (Bool-cases (is_skipped lib rate r x)) [
        | inl e ↦
            let (dim, n, kept, same) =
              dimension_prices-Mem r hash offer dims q
                (subst (Memᴰ q) (dimension_prices-cons r hash term x dims true e) m) in
            (dim, tail n, kept, same)
        | inr e ↦ elim (subst (Memᴰ q) (dimension_prices-cons r hash term x dims false e) m) [
          | head same ↦ (x, head refl, e, same)
          | tail m' ↦
              let (dim, n, kept, same) = dimension_prices-Mem r hash offer dims q m' in
              (dim, tail n, kept, same)
        ]
      ]

  -- What a price of the offers says.
  abbrev pub ComesFrom : Bool → String → List AwsTermOffer → Price → Type 0
  ComesFrom r hash offers q =
      (offer : AwsTermOffer) × (dim : AwsPriceDimension) × Memᴰ offer offers
      × Memᴰ dim offer.price_dimensions
      × (r ≡ true → dim.unit ≢ "Quantity")
      × IsPriceOf lib rate r offer dim q
      × IsHashed lib hash q

  pub offer_prices-ComesFrom :
      (r : Bool) (hash : String) (offers : List AwsTermOffer) (q : Price)
      → Memᴰ q (offer_prices lib rate r hash offers)
      → ComesFrom r hash offers q
  unfolding offer_prices
  offer_prices-ComesFrom r hash [] q m = elim m [ ]
  offer_prices-ComesFrom r hash (offer ∷ offers) q m = elim (Memᴰ.append_cases _ m) [
    | inl here ↦
        let (dim, n, kept, same) =
          dimension_prices-Mem r hash offer offer.price_dimensions q here in
        let (ne, unit) = (kept_iff r dim).0 kept in
        (
          offer,
          dim,
          head refl,
          n,
          unit,
          subst (IsPriceOf lib rate r offer dim) (sym same)
              (dimension_price-IsPriceOf r hash offer dim ne),
          subst (IsHashed lib hash) (sym same) (dimension_price-IsHashed r hash offer dim),
        )
    | inr there ↦
        let (o, dim, n, d, unit, is_price, hashed) = offer_prices-ComesFrom r hash offers q there in
        (o, dim, tail n, d, unit, is_price, hashed)
  ]

  Mem-dimension_prices :
      (r : Bool) (hash : String) (term : Term) (dim : AwsPriceDimension)
      (dims : List AwsPriceDimension)
      → Memᴰ dim dims
      → is_skipped lib rate r dim ≡ false
      → Memᴰ (dimension_price lib rate hash term dim) (dimension_prices lib rate r hash term dims)
  Mem-dimension_prices r hash term dim [] m h = elim m [ ]
  Mem-dimension_prices r hash term dim (x ∷ dims) (head e) h =
      subst (Memᴰ _) (sym (dimension_prices-cons r hash term x dims false (rw (sym e) h)))
        (head (ap (dimension_price lib rate hash term) e))
  Mem-dimension_prices r hash term dim (x ∷ dims) (tail m) h =
      let found = Mem-dimension_prices r hash term dim dims m h in
      elim (Bool-cases (is_skipped lib rate r x)) [
        | inl e ↦ subst (Memᴰ _) (sym (dimension_prices-cons r hash term x dims true e)) found
        | inr e ↦
            subst (Memᴰ _) (sym (dimension_prices-cons r hash term x dims false e)) (tail found)
      ]

  pub Mem-offer_prices :
      (r : Bool) (hash : String) (offer : AwsTermOffer) (dim : AwsPriceDimension)
      (offers : List AwsTermOffer)
      → Memᴰ offer offers
      → Memᴰ dim offer.price_dimensions
      → is_skipped lib rate r dim ≡ false
      → Memᴰ
          (dimension_price lib rate hash (if r then reserved offer else on_demand offer) dim)
          (offer_prices lib rate r hash offers)
  unfolding offer_prices
  Mem-offer_prices r hash offer dim [] m n h = elim m [ ]
  Mem-offer_prices r hash offer dim (x ∷ offers) (head e) n h = Memᴰ.append_left _ (
      subst
        (λ (o : AwsTermOffer).
          Memᴰ (dimension_price lib rate hash (if r then reserved offer else on_demand offer) dim) (
            dimension_prices lib rate r hash (if r then reserved o else on_demand o)
              o.price_dimensions))
        e (Mem-dimension_prices r hash _ dim offer.price_dimensions n h))
  Mem-offer_prices r hash offer dim (x ∷ offers) (tail m) n h =
      Memᴰ.append_right _ (Mem-offer_prices r hash offer dim offers m n h)
