-- ===== src/Scraper/Hash.antt =====
-- internal/scraper/hash.go: the hashes of products and prices. `hex` is SHA-256 printed in
-- hexadecimal digits, of which the program keeps the first 32.
pub mod Fields
use c3x_pricing_api.Base.{
  ℕ, zero, suc, String, Char, code, List, [], ◌∷◌, ◌≡◌, ◌≢◌, refl, false, arith, All, ◌<>◌,
  has_char, split,
}
use text.Mathlib.TextLemmas.{nil-append, cons-append}

-- s[:n]
unfoldable pub first_chars : ℕ → String → String
first_chars zero s = ""
first_chars (suc n) String.[] = ""
first_chars (suc n) (String.◌∷◌ c s) = String.◌∷◌ c (first_chars n s)

-- strings.Join
abbrev pub join : String → List String → String
join sep [] = ""
join sep (s ∷ []) = s
join sep (s ∷ t ∷ ss) = s <> (sep <> join sep (t ∷ ss))

unfoldable pub digest : (String → String) → List String → String
digest hex fields = first_chars 32 (hex (join "\0" fields))

unfoldable pub product_hash : (String → String) → String → String → String → String → String
unfolding digest
product_hash hex vendor region service sku = digest hex (vendor ∷ region ∷ service ∷ sku ∷ [])

unfoldable pub price_hash :
    (String → String)
    → String
    → String
    → String
    → String
    → String
    → String
    → String
    → String
    → String
unfolding digest
price_hash hex hash option unit start description term term_option offering =
    hash
    <> ("-"
        <> digest hex
            (hash ∷ option ∷ unit ∷ start ∷ description ∷ term ∷ term_option ∷ offering ∷ []))
