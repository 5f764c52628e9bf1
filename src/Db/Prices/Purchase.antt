-- ===== src/Db/Prices/Purchase.antt =====
-- Purchase options are compared without separators.
use text.Mathlib.TextLemmas.{nil-append, cons-append}
use c3x_pricing_api.Base.{
  ℕ, ◌≡◌, refl, sym, ap, ◌∙◌, String, ◌==◌, code, drop_char, ◌<>◌, Bool-cases, inl, inr,
}
use c3x_pricing_api.Db.Prices.{normalize_purchase_option}

drop_char-append : (k : ℕ) (s t : String) → drop_char k (s <> t) ≡ drop_char k s <> drop_char k t
unfolding drop_char
drop_char-append k String.[] t = rw (nil-append t, nil-append (drop_char k t)) refl
drop_char-append k (String.◌∷◌ c s) t = elim (Bool-cases (code c == k)) [
  | inl same ↦ rw (cons-append, same) (drop_char-append k s t)
  | inr other ↦ rw (cons-append, other, cons-append) (ap (String.◌∷◌ c) (drop_char-append k s t))
]

-- A text without effect may be left out of the middle.
drop_char_middle :
    (k : ℕ) (s m t : String)
    → drop_char k m ≡ ""
    → drop_char k (s <> (m <> t)) ≡ drop_char k (s <> t)
drop_char_middle k s m t h =
    drop_char-append k s (m <> t)
    ∙ ap (λ x. drop_char k s <> x)
        (drop_char-append k m t ∙ ap (λ x. x <> drop_char k t) h ∙ nil-append (drop_char k t))
    ∙ sym (drop_char-append k s t)

lower_middle :
    (lower : String → String) (s m t : String)
    → ((a b : String) → lower (a <> b) ≡ lower a <> lower b)
    → lower m ≡ m
    → lower (s <> (m <> t)) ≡ lower s <> (m <> lower t)
lower_middle lower s m t hom e =
    hom s (m <> t) ∙ ap (λ x. lower s <> x) (hom m t ∙ ap (λ x. x <> lower t) e)

-- If letters are lowered one by one and the separators are no letters, a hyphen or an underscore
-- anywhere in an option makes no difference: on_demand, on-demand and ondemand are the same.
pub normalize_purchase_option-separator :
    (lower : String → String) (s t : String)
    → ((a b : String) → lower (a <> b) ≡ lower a <> lower b)
    → lower "-" ≡ "-"
    → lower "_" ≡ "_"
    → (normalize_purchase_option lower (s <> ("-" <> t)) ≡ normalize_purchase_option lower (s <> t))
      × (normalize_purchase_option lower (s <> ("_" <> t))
          ≡ normalize_purchase_option lower (s <> t))
unfolding normalize_purchase_option drop_char
normalize_purchase_option-separator lower s t hom hyphen underscore =
    let join = sym (hom s t) in
    (
      ap (λ x. drop_char b'_' (drop_char b'-' x)) (lower_middle lower s "-" t hom hyphen)
          ∙ ap (drop_char b'_')
              (drop_char_middle b'-' (lower s) "-" (lower t) refl ∙ ap (drop_char b'-') join),
      ap (λ x. drop_char b'_' (drop_char b'-' x)) (lower_middle lower s "_" t hom underscore)
          ∙ ap (drop_char b'_') (
              drop_char-append b'-' (lower s) ("_" <> lower t)
              ∙ ap (λ x. drop_char b'-' (lower s) <> x) (drop_char-append b'-' "_" (lower t)))
          ∙ drop_char_middle b'_' (drop_char b'-' (lower s)) "_" (drop_char b'-' (lower t)) refl
          ∙ ap (drop_char b'_')
              (sym (drop_char-append b'-' (lower s) (lower t)) ∙ ap (drop_char b'-') join),
    )
