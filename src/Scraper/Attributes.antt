-- ===== src/Scraper/Attributes.antt =====
-- Go's map[string]string, as its entries in the order of their keys; a missing key reads as "".
use Prim.Native.String.{compare}
use text.Mathlib.Text.{is_lt}
use c3x_pricing_api.Base.{
  String, List, [], ◌∷◌, ◌≡◌, true, false, str_eq, eq_iff, if◌then◌else◌, arith,
}

unfoldable pub get : String → List (String × String) → String
get k [] = ""
get k ((j, v) ∷ rest) = if str_eq j k then v else get k rest

unfoldable pub set : String → String → List (String × String) → List (String × String)
set k v [] = (k, v) ∷ []
set k v ((j, w) ∷ rest) = elim (str_eq j k) [
  | true ↦ (k, v) ∷ rest
  | false ↦ elim (is_lt (compare k j)) [
    | true ↦ (k, v) ∷ (j, w) ∷ rest
    | false ↦ (j, w) ∷ set k v rest
  ]
]

pub get-set :
    (j k v : String) (attrs : List (String × String))
    → get j (set k v attrs) ≡ (if str_eq k j then v else get j attrs)
unfolding get set
get-set j k v [] = ground arith
get-set j k v ((i, w) ∷ rest) =
    ground (arith, get-set j k v rest, eq_iff i k, eq_iff k j, eq_iff i j)
