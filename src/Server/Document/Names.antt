-- ===== src/Server/Document/Names.antt =====
-- Lists of fragment names without repetition.
use c3x_pricing_api.Base.{
  ◌+◌, ◌≤◌, ◌≡◌, refl, String, List, [], ◌∷◌, Bool, true, false, ◌||◌, str_eq, eq_iff,
  if◌then◌else◌, length, arith,
}

abbrev pub occurs : String → List String → Bool
occurs k [] = false
occurs k (j ∷ js) = str_eq j k || occurs k js

abbrev pub AreDistinct : List String → Type 0
AreDistinct [] = Unit
AreDistinct (k ∷ ks) = (occurs k ks ≡ false) × AreDistinct ks

abbrev erase : String → List String → List String
erase k [] = []
erase k (j ∷ js) = if str_eq j k then js else j ∷ erase k js

length-erase :
    (k : String) (ks : List String) → occurs k ks ≡ true → length ks ≡ 1 + length (erase k ks)
length-erase k [] h = absurd (ground arith)
length-erase k (j ∷ js) h = ground (arith, length-erase k js)

occurs-erase :
    (i k : String) (ks : List String) → str_eq k i ≡ false → occurs i (erase k ks) ≡ occurs i ks
occurs-erase i k [] h = refl
occurs-erase i k (j ∷ js) h = ground (arith, occurs-erase i k js h, eq_iff j k, eq_iff j i)

-- The pigeonhole principle.
pub length-AreDistinct :
    (ks js : List String)
    → AreDistinct ks
    → ((i : String) → occurs i ks ≡ true → occurs i js ≡ true)
    → length ks ≤ length js
length-AreDistinct [] js d h = omega arith
length-AreDistinct (k ∷ ks) js (new, d) h =
    let there : occurs k js ≡ true = h k (ground (arith, eq_iff k k)) in
    let shorter =
      length-AreDistinct ks (erase k js) d
        λ i o. ground (arith, h i, occurs-erase i k js, eq_iff k i, new, o) in
    omega (arith, length-erase k js there, shorter)
