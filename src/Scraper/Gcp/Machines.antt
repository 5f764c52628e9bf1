-- ===== src/Scraper/Gcp/Machines.antt =====
-- The synthesized machine types: their prices are sums of the lowest prices of vCPUs and memory.
use mathlib.Core.List.{Memᴰ}
use mathlib.Core.List.Memᴰ.{head, tail}
use c3x_pricing_api.Base.{
  ℕ, String, List, [], ◌∷◌, none, some, ◌≡◌, refl, sym, subst, ap, Bool, true, false, str_eq,
  eq_iff, Bool-cases, Option-cases, inl, inr, if◌then◌else◌, arith,
}
use c3x_pricing_api.Db.Types.{Price}
use c3x_pricing_api.Scraper.Gcp.{Library, PriceKey, find}
use c3x_pricing_api.Scraper.Gcp.Synthesize.{machine_price, machine_prices}
use c3x_pricing_api.Scraper.Gcp.MachineTypes.{MachineType}
use c3x_pricing_api.Scraper.Gcp.Index.{key}

abbrev pub Index : Type 0
Index = List (PriceKey × ℕ)

module _ (lib : Library) (machine : MachineType) where
  -- A price is the sum for a key of a region that is priced for both vCPUs and memory.
  abbrev pub IsSum : Index → Index → String → Price → Type 0
  IsSum cpus ram region p =
      (k : PriceKey) × (cpu : ℕ) × (v : ℕ) × Memᴰ (k, cpu) cpus
      × (find k ram ≡ some v)
      × (k ≡ key region p.purchase_option)
      × (p.usd
          ≡ lib.fixed (
              lib.add (lib.multiply cpu (lib.of_hundredths machine.cpus))
                (lib.multiply v (lib.of_hundredths machine.ram))))

  machine_prices-none :
      (region hash : String) (ram : Index) (k : PriceKey) (c : ℕ) (cpus : Index)
      → find k ram ≡ none
      → machine_prices lib machine region hash ram ((k, c) ∷ cpus)
        ≡ machine_prices lib machine region hash ram cpus
  unfolding machine_prices
  machine_prices-none region hash ram k c cpus e = ground (arith, e)

  machine_prices-some :
      (region hash : String) (ram : Index) (k : PriceKey) (c v : ℕ) (cpus : Index) (b : Bool)
      → find k ram ≡ some v
      → str_eq k.region region ≡ b
      → machine_prices lib machine region hash ram ((k, c) ∷ cpus) ≡ (
          if b
          then machine_price lib machine region hash k c v
            ∷ machine_prices lib machine region hash ram cpus
          else machine_prices lib machine region hash ram cpus)
  unfolding machine_prices
  machine_prices-some region hash ram k c v cpus b e h = ground (arith, e, h)

  IsSum-tail :
      (x : PriceKey × ℕ) (cpus ram : Index) (region : String) (p : Price)
      → IsSum cpus ram region p
      → IsSum (x ∷ cpus) ram region p
  IsSum-tail x cpus ram region p (k, cpu, v, m, found, key_is, usd) =
      (k, cpu, v, tail m, found, key_is, usd)

  pub machine_prices-IsSum :
      (region hash : String) (ram cpus : Index) (p : Price)
      → Memᴰ p (machine_prices lib machine region hash ram cpus)
      → IsSum cpus ram region p
  machine_prices-IsSum region hash ram [] p m = unfold machine_prices in elim m [ ]
  machine_prices-IsSum region hash ram ((k, c) ∷ cpus) p m = elim (Option-cases (find k ram)) [
    | inl e ↦
        IsSum-tail (k, c) cpus ram region p
          (machine_prices-IsSum region hash ram cpus p
            (subst (Memᴰ p) (machine_prices-none region hash ram k c cpus e) m))
    | inr (v, e) ↦ elim (Bool-cases (str_eq k.region region)) [
      | inr h ↦
          IsSum-tail (k, c) cpus ram region p
            (machine_prices-IsSum region hash ram cpus p
              (subst (Memᴰ p) (machine_prices-some region hash ram k c v cpus false e h) m))
      | inl h ↦ elim (subst (Memᴰ p) (machine_prices-some region hash ram k c v cpus true e h) m) [
        | tail m' ↦
            IsSum-tail (k, c) cpus ram region p (machine_prices-IsSum region hash ram cpus p m')
        | head same ↦
            (unfold machine_price in
              (
                k,
                c,
                v,
                head refl,
                e,
                rw same (λ i. record {
                  region = ((eq_iff k.region region).0 h) i;
                  purchase_option = k.purchase_option;
                }),
                rw same refl,
              ))
      ]
    ]
  ]

  pub Mem-machine_prices :
      (region hash : String) (ram cpus : Index) (k : PriceKey) (c v : ℕ)
      → Memᴰ (k, c) cpus
      → find k ram ≡ some v
      → k.region ≡ region
      → Memᴰ
          (machine_price lib machine region hash k c v)
          (machine_prices lib machine region hash ram cpus)
  Mem-machine_prices region hash ram [] k c v m e h = elim m [ ]
  Mem-machine_prices region hash ram ((j, d) ∷ cpus) k c v (head same) e h =
      let j_is : k ≡ j = ap (λ (x : PriceKey × ℕ). x.0) same in
      let d_is : c ≡ d = ap (λ (x : PriceKey × ℕ). x.1) same in
      let found = subst (λ i. find i ram ≡ some v) j_is e in
      let here = (eq_iff j.region region).1 (subst (λ (i : PriceKey). i.region ≡ region) j_is h) in
      subst (Memᴰ _) (sym (machine_prices-some region hash ram j d v cpus true found here))
        (head (ap (λ (x : PriceKey × ℕ). machine_price lib machine region hash x.0 x.1 v) same))
  Mem-machine_prices region hash ram ((j, d) ∷ cpus) k c v (tail m) e h =
      let found = Mem-machine_prices region hash ram cpus k c v m e h in
      elim (Option-cases (find j ram)) [
        | inl n ↦ subst (Memᴰ _) (sym (machine_prices-none region hash ram j d cpus n)) found
        | inr (w, s) ↦ elim (Bool-cases (str_eq j.region region)) [
          | inr q ↦
              subst (Memᴰ _) (sym (machine_prices-some region hash ram j d w cpus false s q)) found
          | inl q ↦
              subst (Memᴰ _) (sym (machine_prices-some region hash ram j d w cpus true s q))
                (tail found)
        ]
      ]
