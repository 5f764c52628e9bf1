-- ===== src/Base/Strconv.antt =====
-- What the program uses of Go's strconv on decimal integers and Booleans.
use Prim.Native.Nat.{ℕ, zero, suc, ◌+◌, ◌-◌, ◌*◌, ◌^◌}
use Prim.Native.Char.{code}
use Prim.Native.String.{String}
use mathlib.Core.Bool.{Bool, true, false, ◌||◌, ◌&&◌}
use mathlib.Core.Option.{Option, none, some}
use text.Mathlib.Text.{◌==◌ as str_eq}
use c3x_pricing_api.Base.Tests.{◌==◌, leb, ltb, if◌then◌else◌}
use c3x_pricing_api.Base.Int.{ℤ, pos, negsuc}

digits : String → ℕ → Option ℕ
digits String.[] acc = some acc
digits (String.◌∷◌ c s) acc =
    let rest = digits s (acc * 10 + (code c - b'0')) in
    if leb b'0' (code c) && leb (code c) b'9' then rest else none

unsigned : String → Option ℕ
unfolding digits
unsigned String.[] = none
unsigned (String.◌∷◌ c s) = digits (String.◌∷◌ c s) 0

-- The limits of int64.
positive : ℕ → Option ℤ
positive n = if ltb n (2 ^ 63) then some (pos n) else none

negative : ℕ → Option ℤ
negative zero = some (pos 0)
negative (suc n) = if ltb n (2 ^ 63) then some (negsuc n) else none

-- strconv.Atoi, and ParseInt with base 10 and 64 bits; none is an error.
unfoldable pub parse_int : String → Option ℤ
unfolding digits unsigned positive negative
parse_int String.[] = none
parse_int (String.◌∷◌ c s) =
    if code c == b'-'
    then elim (unsigned s) [ none ↦ none | some n ↦ negative n ]
    else if code c == b'+'
    then elim (unsigned s) [ none ↦ none | some n ↦ positive n ]
    else elim (unsigned (String.◌∷◌ c s)) [ none ↦ none | some n ↦ positive n ]

-- strconv.ParseBool
unfoldable pub parse_bool : String → Option Bool
parse_bool s =
    if str_eq s "1"
      || str_eq s "t"
      || str_eq s "T"
      || str_eq s "true"
      || str_eq s "TRUE"
      || str_eq s "True"
    then some true
    else if str_eq s "0"
        || str_eq s "f"
        || str_eq s "F"
        || str_eq s "false"
        || str_eq s "FALSE"
        || str_eq s "False"
    then some false
    else none
