-- ===== src/Scraper/Hash/Fields.antt =====
-- The hashes name the fields they were made of.
use Prim.Native.String.{count}
use text.Mathlib.TextLemmas.{nil-append, cons-append, append_inj, append_cancel_left}
use c3x_pricing_api.Base.{
  ℕ, zero, suc, ◌≤◌, Char, code, Bool, true, ◌&&◌, ◌==◌, size, String, List, [], ◌∷◌, ◌≡◌, ◌≢◌,
  refl, ap, false, arith, All, ◌<>◌, has_char, split,
}
use c3x_pricing_api.Scraper.Hash.{join, digest, first_chars, product_hash, price_hash}

-- The field does not hold the delimiter.
abbrev pub IsPlain : String → Type 0
IsPlain s = has_char 0 s ≡ false

pub split-plain : (s : String) → IsPlain s → split 0 s ≡ s ∷ []
unfolding split has_char
split-plain String.[] h = refl
split-plain (String.◌∷◌ c s) h = ground (arith, split-plain s)

pub split-append : (s t : String) → IsPlain s → split 0 (s <> ("\0" <> t)) ≡ s ∷ split 0 t
unfolding split has_char
split-append String.[] t h = rw (nil-append, cons-append) (ground (arith, nil-append t))
split-append (String.◌∷◌ c s) t h = rw cons-append (ground (arith, split-append s t))

split-join : (ss : List String) → ss ≢ [] → All IsPlain ss → split 0 (join "\0" ss) ≡ ss
split-join [] ne h = absurd (ne refl)
split-join (s ∷ []) ne (h, _) = split-plain s h
split-join (s ∷ t ∷ ss) ne (h, hs) =
    rw (split-append s _ h) (ap (λ l. s ∷ l) (split-join (t ∷ ss) (cc) hs))

-- The two texts agree in their first characters, of which both have as many.
unfoldable pub same_start : ℕ → String → String → Bool
same_start zero s t = true
same_start (suc n) String.[] t = false
same_start (suc n) (String.◌∷◌ c s) String.[] = false
same_start (suc n) (String.◌∷◌ c s) (String.◌∷◌ d t) = code c == code d && same_start n s t

-- The hexadecimal digits of SHA-256, of which there are 64, differ somewhere in the first 32 for
-- the texts of two different lists of fields.
pub record IsApart (hex : String → String) (xs ys : List String) : Type 0 where
  pub long : (s : String) → size (hex s) ≡ 64
  pub apart :
      same_start 32 (hex (join "\0" xs)) (hex (join "\0" ys)) ≡ true → join "\0" xs ≡ join "\0" ys

cons_inj : (c d : Char) (s t : String) → String.◌∷◌ c s ≡ String.◌∷◌ d t → (c ≡ d) × (s ≡ t)
cons_inj c d s t h = ground (arith, h)

first_chars-same_start :
    (n : ℕ) (s t : String)
    → n ≤ size s
    → n ≤ size t
    → first_chars n s ≡ first_chars n t
    → same_start n s t ≡ true
unfolding first_chars same_start size
first_chars-same_start zero s t hs ht e = refl
first_chars-same_start (suc n) String.[] t hs ht e = absurd (omega (arith, hs))
first_chars-same_start (suc n) (String.◌∷◌ c s) String.[] hs ht e = absurd (omega (arith, ht))
first_chars-same_start (suc n) (String.◌∷◌ c s) (String.◌∷◌ d t) hs ht e =
    let (same, rest) = cons_inj c d (first_chars n s) (first_chars n t) e in
    let more = first_chars-same_start n s t (omega (arith, hs)) (omega (arith, ht)) rest in
    ground (arith, ap code same, more)

digest-injective :
    (hex : String → String) (x y : String) (xs ys : List String)
    → All IsPlain (x ∷ xs)
    → All IsPlain (y ∷ ys)
    → IsApart hex (x ∷ xs) (y ∷ ys)
    → digest hex (x ∷ xs) ≡ digest hex (y ∷ ys)
    → x ∷ xs ≡ y ∷ ys
unfolding digest
digest-injective hex x y xs ys hx hy h e =
    let s = join "\0" (x ∷ xs) in
    let t = join "\0" (y ∷ ys) in
    let start =
      first_chars-same_start 32 (hex s) (hex t) (omega (arith, h.long s)) (omega (arith, h.long t))
        e in
    cc (split-join (x ∷ xs) (cc) hx, split-join (y ∷ ys) (cc) hy, ap (split 0) (h.apart start))

-- Two products that differ in vendor, region, service or SKU have different hashes, provided that
-- none of these texts holds a NUL and the first 32 digits of SHA-256 do not collide on the two.
pub product_hash-injective :
    (hex : String → String) (v r s k v' r' s' k' : String)
    → All IsPlain (v ∷ r ∷ s ∷ k ∷ [])
    → All IsPlain (v' ∷ r' ∷ s' ∷ k' ∷ [])
    → IsApart hex (v ∷ r ∷ s ∷ k ∷ []) (v' ∷ r' ∷ s' ∷ k' ∷ [])
    → v ∷ r ∷ s ∷ k ∷ [] ≢ v' ∷ r' ∷ s' ∷ k' ∷ []
    → product_hash hex v r s k ≢ product_hash hex v' r' s' k'
unfolding product_hash
product_hash-injective hex v r s k v' r' s' k' plain plain' apart differ e =
    differ (digest-injective hex v v' (r ∷ s ∷ k ∷ []) (r' ∷ s' ∷ k' ∷ []) plain plain' apart e)

-- Two prices that differ in their product's hash or in any of the seven hashed fields have
-- different hashes, provided that the products' hashes are of equal length, no field holds a NUL and
-- the first 32 digits of SHA-256 do not collide on the two.
pub price_hash-injective :
    (hex : String → String) (h o u s d t p c h' o' u' s' d' t' p' c' : String)
    → count h ≡ count h'
    → let xs = h ∷ o ∷ u ∷ s ∷ d ∷ t ∷ p ∷ c ∷ [] in
      let ys = h' ∷ o' ∷ u' ∷ s' ∷ d' ∷ t' ∷ p' ∷ c' ∷ [] in
      All IsPlain xs
      → All IsPlain ys
      → IsApart hex xs ys
      → xs ≢ ys
      → price_hash hex h o u s d t p c ≢ price_hash hex h' o' u' s' d' t' p' c'
unfolding price_hash
price_hash-injective hex h o u s d t p c h' o' u' s' d' t' p' c' long plain plain' apart differ e =
    let tail = append_cancel_left "-" _ _ (append_inj e long).1 in
    differ (
      digest-injective hex h h' (o ∷ u ∷ s ∷ d ∷ t ∷ p ∷ c ∷ [])
        (o' ∷ u' ∷ s' ∷ d' ∷ t' ∷ p' ∷ c' ∷ []) plain plain' apart tail)
