-- ===== src/Scraper/Keyed.antt =====
-- Lists in which a key stands for an element: what the deduplications of the scrapers share.
use mathlib.Core.List.{Memᴰ}
use mathlib.Core.List.Memᴰ.{head, tail}
use c3x_pricing_api.Base.{String, List, [], ◌∷◌, ◌≡◌, ◌≢◌, true, false, any, str_eq, eq_iff, arith}

pub Mem-any : (s : String) (ss : List String) → any (str_eq s) ss ≡ true → Memᴰ s ss
Mem-any s [] h = cc
Mem-any s (t ∷ ss) h =
    elim (str_eq s t) as (λ b. str_eq s t ≡ b → Memᴰ s (t ∷ ss)) [
      | true ↦ λ e. head ((eq_iff s t).0 e)
      | false ↦ λ e. tail (Mem-any s ss (ground (arith, e, h)))
    ]
      (λ i. str_eq s t)

pub any-Mem : (s : String) (ss : List String) → Memᴰ s ss → any (str_eq s) ss ≡ true
any-Mem s [] m = elim m [ ]
any-Mem s (t ∷ ss) (head e) = ground (arith, e, eq_iff s t)
any-Mem s (t ∷ ss) (tail m) = ground (arith, any-Mem s ss m)

-- No two elements have one key.
abbrev pub HaveKeys : {A : Type 0} → (A → String) → List A → Type 0
HaveKeys key [] = Unit
HaveKeys {A} key (x ∷ xs) = ((y : A) → Memᴰ y xs → key y ≢ key x) × HaveKeys key xs
