-- ===== src/Scraper/Order.antt =====
-- `<` on float64 values, or on texts that spell them, where no NaN is among them.
use c3x_pricing_api.Base.{◌≡◌, Bool, true, false}

pub record IsOrder {A : Type 0} (less : A → A → Bool) : Type 0 where
  pub asymmetric : (a b : A) → less a b ≡ true → less b a ≡ false
  pub irreflexive : (a : A) → less a a ≡ false
  pub transitive : (a b c : A) → less a b ≡ false → less b c ≡ false → less a c ≡ false
