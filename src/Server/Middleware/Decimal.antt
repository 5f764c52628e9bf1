-- ===== src/Server/Middleware/Decimal.antt =====
-- The decimal digits of `decimal` are those of the number, if there are enough of them.
use text.Mathlib.TextLemmas.{nil-append, cons-append}
use c3x_pricing_api.Base.{
  ℕ, zero, suc, ◌+◌, ◌-◌, ◌*◌, ◌/◌, ◌%◌, ◌^◌, ◌<◌, ◌≤◌, ◌≡◌, inl, inr, ap, ◌∙◌, String, code, true,
  false, ltb, ◌<>◌, size, arith, Bool-cases,
}
use c3x_pricing_api.Server.Middleware.{nth_char, digit, decimal}
use c3x_pricing_api.Server.Middleware.RequestIds.{decimal-cons}

-- The number that digits stand for, after those that stand for `n`.
abbrev value : String → ℕ → ℕ
value String.[] n = n
value (String.◌∷◌ c s) n = value s (n * 10 + (code c - b'0'))

value-append : (s t : String) (n : ℕ) → value (s <> t) n ≡ value t (value s n)
value-append String.[] t n = ap (λ u. value u n) (nil-append t)
value-append (String.◌∷◌ c s) t n = rw cons-append (value-append s t (n * 10 + (code c - b'0')))

-- The digits of `s` count on from `k`, as far as they are decimal.
abbrev Counts : ℕ → String → Type 0
Counts k String.[] = Unit
Counts k (String.◌∷◌ c s) = (k < 10 → code c ≡ k + b'0') × Counts (suc k) s

nth_char-value :
    (n k m : ℕ) (s : String)
    → Counts k s
    → n < size s
    → k + n < 10
    → value (nth_char n s) m ≡ m * 10 + (k + n)
unfolding size
nth_char-value n k m String.[] hs h few = absurd (omega (arith, h))
nth_char-value zero k m (String.◌∷◌ c s) (e, hs) h few = omega (arith, e (omega (arith, few)))
nth_char-value (suc n) k m (String.◌∷◌ c s) (e, hs) h few =
    nth_char-value n (suc k) m s hs (omega (arith, h)) (omega (arith, few)) ∙ omega arith

digit-value : (n m : ℕ) → n < 10 → value (digit n) m ≡ m * 10 + n
unfolding digit size
digit-value n m h =
    nth_char-value n 0 m "0123456789abcdef" (ground arith) (omega (arith, h)) (omega (arith, h))
    ∙ omega arith

decimal-value : (more n : ℕ) → n < 10 ^ more → value (decimal more n) 0 ≡ n
decimal-value zero n h = unfold decimal in omega (arith, h)
decimal-value (suc more) n h = elim (Bool-cases (ltb n 10)) [
  | inl e ↦ rw (decimal-cons more n true e) (digit-value n 0 (ground (arith, e)) ∙ omega arith)
  | inr e ↦
      let less : n / 10 < 10 ^ more = omega (arith, h) in
      rw (decimal-cons more n false e) (
        value-append (decimal more (n / 10)) (digit (n % 10)) 0
        ∙ ap (value (digit (n % 10))) (decimal-value more (n / 10) less)
        ∙ digit-value (n % 10) (n / 10) (omega arith)
        ∙ omega arith)
]

-- 19 digits are enough for the magnitude of an int64.
int64-value : (n : ℕ) → n ≤ 2 ^ 63 → value (decimal 19 n) 0 ≡ n
int64-value n h = decimal-value 19 n (omega (arith, h))
