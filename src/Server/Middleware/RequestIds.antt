-- ===== src/Server/Middleware/RequestIds.antt =====
-- The request ids that `requestIDMiddleware` logs.
use text.Mathlib.TextLemmas.{nil-append, cons-append}
use c3x_pricing_api.Base.{
  ℕ, zero, suc, ◌+◌, ◌*◌, ◌/◌, ◌%◌, ◌≤◌, ◌<◌, ◌≡◌, ◌⊎◌, inl, inr, refl, sym, ◌∙◌, String, code,
  some, List, [], ◌∷◌, Bool, true, false, not, ◌||◌, ltb, str_eq, if◌then◌else◌, ◌<>◌, is_empty,
  keep, size, length, arith, Bool-cases, true-false, Option-cases,
}
use c3x_pricing_api.Base.Int.{ℤ, pos, negsuc}
use c3x_pricing_api.Server.Middleware.{
  Header, values, set_header, is_id_char, all_id_chars, valid_request_id, nth_char, digit,
  encode_to_string, decimal, format_int, Source, new_id, request_id_middleware,
}

-- A letter or digit of ASCII, `_` or `-`.
abbrev pub IsIdChar : ℕ → Type 0
IsIdChar k =
    ((b'A' ≤ k) × (k ≤ b'Z'))
    ⊎ ((b'a' ≤ k) × (k ≤ b'z'))
    ⊎ ((b'0' ≤ k) × (k ≤ b'9'))
    ⊎ (k ≡ b'_')
    ⊎ (k ≡ b'-')

abbrev pub AllIdChars : String → Type 0
AllIdChars String.[] = Unit
AllIdChars (String.◌∷◌ c s) = IsIdChar (code c) × AllIdChars s

-- What may stand in a log: 1 to 64 such characters.
abbrev pub IsSafe : String → Type 0
IsSafe s = AllIdChars s × (1 ≤ size s) × (size s ≤ 64)

is_id_char_sound : (k : ℕ) → is_id_char k ≡ true → IsIdChar k
is_id_char_sound k h = ground (arith, h)

IsIdChar-is_id_char : (k : ℕ) → IsIdChar k → is_id_char k ≡ true
IsIdChar-is_id_char k h = ground (arith, h)

all_id_chars_sound : (s : String) → all_id_chars s ≡ true → AllIdChars s
unfolding all_id_chars
all_id_chars_sound String.[] h = tt
all_id_chars_sound (String.◌∷◌ c s) h =
    (is_id_char_sound (code c) (ground (arith, h)), all_id_chars_sound s (ground (arith, h)))

AllIdChars-all_id_chars : (s : String) → AllIdChars s → all_id_chars s ≡ true
unfolding all_id_chars
AllIdChars-all_id_chars String.[] h = refl
AllIdChars-all_id_chars (String.◌∷◌ c s) (h, hs) =
    ground (arith, IsIdChar-is_id_char (code c) h, AllIdChars-all_id_chars s hs)

valid_request_id_sound : (s : String) → valid_request_id s ≡ true → IsSafe s
unfolding valid_request_id
valid_request_id_sound s h =
    (all_id_chars_sound s (ground (arith, h)), ground (arith, h), ground (arith, h))

IsSafe-valid_request_id : (s : String) → IsSafe s → valid_request_id s ≡ true
unfolding valid_request_id
IsSafe-valid_request_id s (h, low, high) = ground (arith, AllIdChars-all_id_chars s h, low, high)

AllIdChars-append : (s t : String) → AllIdChars s → AllIdChars t → AllIdChars (s <> t)
AllIdChars-append String.[] t h k = rw nil-append k
AllIdChars-append (String.◌∷◌ c s) t (h, hs) k = rw cons-append (h, AllIdChars-append s t hs k)

size-append : (s t : String) → size (s <> t) ≡ size s + size t
unfolding size
size-append String.[] t = rw nil-append (omega arith)
size-append (String.◌∷◌ c s) t = rw cons-append (omega (arith, size-append s t))

nth_char_lem :
    (n : ℕ) (s : String)
    → AllIdChars s
    → n < size s
    → AllIdChars (nth_char n s) × (size (nth_char n s) ≡ 1)
unfolding size
nth_char_lem n String.[] hs h = absurd (omega (arith, h))
nth_char_lem zero (String.◌∷◌ c s) (p, hs) h = ((p, tt), refl)
nth_char_lem (suc n) (String.◌∷◌ c s) (p, hs) h = nth_char_lem n s hs (omega (arith, h))

hexadecimal : AllIdChars "0123456789abcdef" × (size "0123456789abcdef" ≡ 16)
unfolding size all_id_chars
hexadecimal = (all_id_chars_sound "0123456789abcdef" refl, refl)

digit_lem : (n : ℕ) → n < 16 → AllIdChars (digit n) × (size (digit n) ≡ 1)
unfolding digit
digit_lem n h = nth_char_lem n "0123456789abcdef" hexadecimal.0 (omega (arith, h, hexadecimal.1))

-- The value of a byte.
abbrev pub AllBytes : List ℕ → Type 0
AllBytes [] = Unit
AllBytes (b ∷ bytes) = (b < 256) × AllBytes bytes

encode_to_string_lem :
    (bytes : List ℕ)
    → AllBytes bytes
    → AllIdChars (encode_to_string bytes) × (size (encode_to_string bytes) ≡ 2 * length bytes)
unfolding encode_to_string size
encode_to_string_lem [] h = (tt, omega arith)
encode_to_string_lem (b ∷ bytes) (h, hs) =
    let (plain, long) = encode_to_string_lem bytes hs in
    let (high, one) = digit_lem (b / 16) (omega (arith, h)) in
    let (low, more) = digit_lem (b % 16) (omega arith) in
    let rest = digit (b % 16) <> encode_to_string bytes in
    (
      AllIdChars-append (digit (b / 16)) rest high
          (AllIdChars-append (digit (b % 16)) (encode_to_string bytes) low plain),
      omega (
        arith,
        size-append (digit (b / 16)) rest,
        size-append (digit (b % 16)) (encode_to_string bytes),
        one,
        more,
        long,
      ),
    )

abbrev Fits : ℕ → String → Type 0
Fits most s = AllIdChars s × (1 ≤ size s) × (size s ≤ most)

digit-Fits : (most n : ℕ) → n < 16 → 1 ≤ most → Fits most (digit n)
digit-Fits most n h one =
    let (plain, long) = digit_lem n h in (plain, omega (arith, long), omega (arith, long, one))

pub decimal-cons :
    (more n : ℕ) (b : Bool)
    → ltb n 10 ≡ b
    → decimal (suc more) n ≡ (if b then digit n else decimal more (n / 10) <> digit (n % 10))
unfolding decimal
decimal-cons more n b e = rw e refl

decimal-size : (more n : ℕ) → AllIdChars (decimal more n) × (size (decimal more n) ≤ more)
unfolding size
decimal-size zero n = unfold decimal in (tt, omega arith)
decimal-size (suc more) n = elim (Bool-cases (ltb n 10)) [
  | inl e ↦
      let (plain, _, high) = digit-Fits (suc more) n (ground (arith, e)) (omega arith) in
      rw (decimal-cons more n true e) (plain, high)
  | inr e ↦
      let (plain, long) = decimal-size more (n / 10) in
      let (last, one) = digit_lem (n % 10) (omega arith) in
      rw (decimal-cons more n false e) (
        AllIdChars-append (decimal more (n / 10)) (digit (n % 10)) plain last,
        omega (arith, size-append (decimal more (n / 10)) (digit (n % 10)), long, one),
      )
]

decimal-Fits : (more n : ℕ) → Fits (suc more) (decimal (suc more) n)
decimal-Fits more n = elim (Bool-cases (ltb n 10)) [
  | inl e ↦
      rw (decimal-cons more n true e) (digit-Fits (suc more) n (ground (arith, e)) (omega arith))
  | inr e ↦
      let (plain, high) = decimal-size (suc more) n in
      let (_, one) = digit_lem (n % 10) (omega arith) in
      let long = size-append (decimal more (n / 10)) (digit (n % 10)) in
      (plain, rw (decimal-cons more n false e) (omega (arith, long, one)), high)
]

format_int_lem :
    (z : ℤ) → AllIdChars (format_int z) × (1 ≤ size (format_int z)) × (size (format_int z) ≤ 64)
unfolding format_int size
format_int_lem (pos n) =
    let (plain, low, high) = decimal-Fits 18 n in (plain, low, omega (arith, high))
format_int_lem (negsuc n) =
    let (plain, low, high) = decimal-Fits 18 (suc n) in
    let d = decimal 19 (suc n) in
    let long = size-append "-" d in
    (
      AllIdChars-append "-" d (ground arith, tt) plain,
      omega (arith, long, low),
      omega (arith, long, high),
    )

-- Eight bytes, as `requestIDMiddleware` reads them.
abbrev pub IsSource : Source → Type 0
IsSource source =
    (bytes : List ℕ) → source.random ≡ some bytes → (length bytes ≡ 8) × AllBytes bytes

new_id-IsSafe : (source : Source) → IsSource source → IsSafe (new_id source)
unfolding new_id
new_id-IsSafe source h = elim (Option-cases source.random) [
  | inl e ↦ rw e (format_int_lem source.unix_nano)
  | inr (bytes, e) ↦
      let (eight, small) = h bytes e in
      let (plain, long) = encode_to_string_lem bytes small in
      rw e (plain, omega (arith, long, eight), omega (arith, long, eight))
]

IsSafe-not_empty : (s : String) → IsSafe s → is_empty s ≡ false
unfolding size
IsSafe-not_empty String.[] (_, low, _) = absurd (omega (arith, low))
IsSafe-not_empty (String.◌∷◌ c s) h = refl

set_header-cons :
    (v k w : String) (h : Header) (b : Bool)
    → str_eq k "X-Request-ID" ≡ b
    → let rest = set_header "X-Request-ID" v h in
      set_header "X-Request-ID" v ((k, w) ∷ h) ≡ (if b then rest else (k, w) ∷ rest)
unfolding set_header
set_header-cons v k w h true e = rw (keep, e) refl
set_header-cons v k w h false e = rw (keep, e) refl

values-cons :
    (k w : String) (h : Header)
    → str_eq k "X-Request-ID" ≡ false
    → values "X-Request-ID" ((k, w) ∷ h) ≡ values "X-Request-ID" h
unfolding values
values-cons k w h e = rw e refl

header_values :
    (v : String) (h : Header) → values "X-Request-ID" (set_header "X-Request-ID" v h) ≡ v ∷ []
header_values v [] = unfold values set_header in refl
header_values v ((k, w) ∷ h) = elim (Bool-cases (str_eq k "X-Request-ID")) [
  | inl e ↦ rw (set_header-cons v k w h true e) (header_values v h)
  | inr e ↦
      rw (set_header-cons v k w h false e)
        (values-cons k w (set_header "X-Request-ID" v h) e ∙ header_values v h)
]

replaced-IsSafe :
    (source : Source) (given : String)
    → IsSource source
    → valid_request_id given ≡ false
    → IsSafe (if is_empty given || not (valid_request_id given) then new_id source else given)
replaced-IsSafe source given ok e = elim (Bool-cases (is_empty given)) [
  | inl empty ↦ rw empty (new_id-IsSafe source ok)
  | inr filled ↦ rw (filled, e) (new_id-IsSafe source ok)
]

-- If `rand.Read`, where it does not fail, fills its eight bytes, then whatever the client sends as
-- X-Request-ID, the id that is logged is 1 to 64 letters, digits, `_` and `-` of ASCII, it is the one
-- value of that header in the response, and it is the client's if that is such a text.
pub request_id_middleware-IsSafe :
    (source : Source) (given : String) (h : Header)
    → IsSource source
    → let t = request_id_middleware source given h in
      IsSafe t.logged
      × (values "X-Request-ID" t.header ≡ t.logged ∷ [])
      × (IsSafe given → t.logged ≡ given)
unfolding request_id_middleware
request_id_middleware-IsSafe source given h ok = elim (Bool-cases (valid_request_id given)) [
  | inl e ↦
      let safe = valid_request_id_sound given e in
      rw (e, IsSafe-not_empty given safe) (safe, header_values given h, λ _. refl)
  | inr e ↦ (
    replaced-IsSafe source given ok e,
    header_values _ h,
    λ safe. absurd (true-false (sym (IsSafe-valid_request_id given safe) ∙ e)),
  )
]
