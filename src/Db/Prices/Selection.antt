-- ===== src/Db/Prices/Selection.antt =====
-- The prices that a filter selects.
use c3x_pricing_api.Base.{
  ◌≡◌, ◌≢◌, refl, ap, ◌∙◌, ◌⊎◌, inl, inr, String, Option, none, some, List, [], ◌∷◌, ◌++◌, Bool,
  true, false, str_eq, eq_iff, ◌||◌, arith, Bool-cases, ◌↔◌,
}
use c3x_pricing_api.Db.Types.{Price, PriceFilter}
use c3x_pricing_api.Db.Regex.{RegexEngine, match_regex_pattern}
use c3x_pricing_api.Db.Prices.{
  normalize_purchase_option, differs, differs_purchase, mismatches, start_amount, skips, filtered,
  filter_prices,
}

-- What a filter asks of a price, field by field.
pub record IsSelected (R : Type 0) (engine : RegexEngine R) (f : PriceFilter) (p : Price)
    : Type 0 where
  pub purchase_option :
      (w : String)
      → f.purchase_option ≡ some w
      → normalize_purchase_option engine.lower p.purchase_option
        ≡ normalize_purchase_option engine.lower w
  pub unit : (w : String) → f.unit ≡ some w → p.unit ≡ w
  pub description : (w : String) → f.description ≡ some w → p.description ≡ w
  pub description_regex :
      (w : String)
      → f.description_regex ≡ some w
      → match_regex_pattern engine w p.description ≡ true
  pub start_usage_amount :
      (w : String)
      → f.start_usage_amount ≡ some w
      → ((p.start_usage_amount ≢ "") × (p.start_usage_amount ≡ w))
        ⊎ ((p.start_usage_amount ≡ "") × (w ≡ "0"))
  pub end_usage_amount : (w : String) → f.end_usage_amount ≡ some w → p.end_usage_amount ≡ w
  pub term_length : (w : String) → f.term_length ≡ some w → p.term_length ≡ w
  pub term_purchase_option :
      (w : String) → f.term_purchase_option ≡ some w → p.term_purchase_option ≡ w
  pub term_offering_class :
      (w : String) → f.term_offering_class ≡ some w → p.term_offering_class ≡ w

differs_iff :
    (o : Option String) (v : String) → (differs o v ≡ false) ↔ ((w : String) → o ≡ some w → v ≡ w)
differs_iff none v = (λ h w e. absurd (ground (arith, e)), λ h. refl)
differs_iff (some u) v =
    (λ h w e. ground (arith, eq_iff v u, h, e), λ h. ground (arith, eq_iff v u, h u refl))

purchase_iff :
    (lower : String → String) (o : Option String) (v : String)
    → (differs_purchase lower o v ≡ false) ↔ (
        (w : String)
        → o ≡ some w
        → normalize_purchase_option lower v ≡ normalize_purchase_option lower w)
purchase_iff lower none v = (λ h w e. absurd (ground (arith, e)), λ h. refl)
purchase_iff lower (some u) v =
    let n = normalize_purchase_option lower in
    (
      λ h w e. ground (arith, eq_iff (n v) (n u), h, e),
      λ h. ground (arith, eq_iff (n v) (n u), h u refl),
    )

mismatches_iff :
    (R : Type 0) (engine : RegexEngine R) (o : Option String) (v : String)
    → (mismatches engine o v ≡ false)
      ↔ ((w : String) → o ≡ some w → match_regex_pattern engine w v ≡ true)
mismatches_iff R engine none v = (λ h w e. absurd (ground (arith, e)), λ h. refl)
mismatches_iff R engine (some u) v = (λ h w e. ground (arith, h, e), λ h. ground (arith, h u refl))

start_iff :
    (o : Option String) (v : String)
    → (differs o (start_amount v) ≡ false)
      ↔ ((w : String) → o ≡ some w → ((v ≢ "") × (v ≡ w)) ⊎ ((v ≡ "") × (w ≡ "0")))
start_iff o v =
    let (to, from) = differs_iff o (start_amount v) in
    (
      λ h w e. elim (Bool-cases (str_eq v "")) [
        | inl blank ↦ inr ((eq_iff v "").0 blank, ground (arith, to h w e, blank))
        | inr full ↦ inl (
          λ blank. absurd (ground (arith, full, eq_iff v "", blank)),
          ground (arith, to h w e, full),
        )
      ],
      λ h. from λ w e. elim (h w e) [
        | inl (full, same) ↦ ground (arith, eq_iff v "", full, same)
        | inr (blank, zero') ↦ ground (arith, eq_iff v "", blank, zero')
      ],
    )

neither : (a b : Bool) → a || b ≡ false → (a ≡ false) × (b ≡ false)
neither true b h = absurd (ground arith)
neither false b h = (refl, h)

skips_sound :
    (R : Type 0) (engine : RegexEngine R) (f : PriceFilter) (p : Price)
    → skips engine f p ≡ false
    → IsSelected R engine f p
unfolding skips
skips_sound R engine f p h =
    let (h₁, offering) = neither _ _ h in
    let (h₂, term_purchase) = neither _ _ h₁ in
    let (h₃, term) = neither _ _ h₂ in
    let (h₄, last) = neither _ _ h₃ in
    let (h₅, first) = neither _ _ h₄ in
    let (h₆, regex) = neither _ _ h₅ in
    let (h₇, description) = neither _ _ h₆ in
    let (purchase, unit) = neither _ _ h₇ in
    record {
      purchase_option = (purchase_iff engine.lower f.purchase_option p.purchase_option).0 purchase;
      unit = (differs_iff f.unit p.unit).0 unit;
      description = (differs_iff f.description p.description).0 description;
      description_regex = (mismatches_iff R engine f.description_regex p.description).0 regex;
      start_usage_amount = (start_iff f.start_usage_amount p.start_usage_amount).0 first;
      end_usage_amount = (differs_iff f.end_usage_amount p.end_usage_amount).0 last;
      term_length = (differs_iff f.term_length p.term_length).0 term;
      term_purchase_option =
          (differs_iff f.term_purchase_option p.term_purchase_option).0 term_purchase;
      term_offering_class = (differs_iff f.term_offering_class p.term_offering_class).0 offering;
    }

skips_complete :
    (R : Type 0) (engine : RegexEngine R) (f : PriceFilter) (p : Price)
    → IsSelected R engine f p
    → skips engine f p ≡ false
unfolding skips
skips_complete R engine f p s = ground (
  arith,
  (purchase_iff engine.lower f.purchase_option p.purchase_option).1 s.purchase_option,
  (differs_iff f.unit p.unit).1 s.unit,
  (differs_iff f.description p.description).1 s.description,
  (mismatches_iff R engine f.description_regex p.description).1 s.description_regex,
  (start_iff f.start_usage_amount p.start_usage_amount).1 s.start_usage_amount,
  (differs_iff f.end_usage_amount p.end_usage_amount).1 s.end_usage_amount,
  (differs_iff f.term_length p.term_length).1 s.term_length,
  (differs_iff f.term_purchase_option p.term_purchase_option).1 s.term_purchase_option,
  (differs_iff f.term_offering_class p.term_offering_class).1 s.term_offering_class,
)

filtered-append :
    (R : Type 0) (engine : RegexEngine R) (f : PriceFilter) (ps qs : List Price)
    → filtered engine f (ps ++ qs) ≡ filtered engine f ps ++ filtered engine f qs
unfolding filtered
filtered-append R engine f [] qs = refl
filtered-append R engine f (p ∷ ps) qs = ground (arith, filtered-append R engine f ps qs)

filtered_kept :
    (R : Type 0) (engine : RegexEngine R) (f : PriceFilter) (p : Price) (ps : List Price)
    → skips engine f p ≡ false
    → filtered engine f (p ∷ ps) ≡ p ∷ filtered engine f ps
unfolding filtered
filtered_kept R engine f p ps h = ground (arith, h)

filtered_skipped :
    (R : Type 0) (engine : RegexEngine R) (f : PriceFilter) (p : Price) (ps : List Price)
    → skips engine f p ≡ true
    → filtered engine f (p ∷ ps) ≡ filtered engine f ps
unfolding filtered
filtered_skipped R engine f p ps h = ground (arith, h)

-- A price of the list stands in the result, in its place, exactly if it has what each field that
-- the filter sets asks for.
pub filter_prices-IsSelected :
    (R : Type 0) (engine : RegexEngine R) (f : PriceFilter) (before after : List Price) (p : Price)
    → let result = filter_prices engine (before ++ p ∷ after) (some f) in
      let ps = filter_prices engine before (some f) in
      let qs = filter_prices engine after (some f) in
      (IsSelected R engine f p → result ≡ ps ++ p ∷ qs)
      × ((IsSelected R engine f p → ⊥) → result ≡ ps ++ qs)
unfolding filter_prices
filter_prices-IsSelected R engine f before after p = (
  λ s.
      filtered-append R engine f before (p ∷ after)
      ∙ ap (λ xs. filtered engine f before ++ xs)
          (filtered_kept R engine f p after (skips_complete R engine f p s)),
  λ s. elim (Bool-cases (skips engine f p)) [
    | inl skipped ↦
        filtered-append R engine f before (p ∷ after)
        ∙ ap (λ xs. filtered engine f before ++ xs) (filtered_skipped R engine f p after skipped)
    | inr kept ↦ absurd (s (skips_sound R engine f p kept))
  ],
)
