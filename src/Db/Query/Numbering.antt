-- ===== src/Db/Query/Numbering.antt =====
-- The placeholders of a query are $1, $2, ... up to the number of its arguments.
use c3x_pricing_api.Base.{
  ℕ, zero, suc, ◌+◌, ◌≡◌, refl, ap, subst, String, Option, none, some, List, [], ◌∷◌, ◌++◌, Bool,
  length, length-append, arith, Bool-cases, inl, inr, str_eq,
}
use native.Mathlib.Nat.{add-zero, zero-add, suc-add, add-suc}
use native.Mathlib.Numerals.{add-one}
use c3x_pricing_api.Base.Int.{ℤ, pos, ltb_ℤ}
use c3x_pricing_api.Db.Pattern.{parse_regex_for_postgres}
use c3x_pricing_api.Db.Types.{ProductFilter, AttributeFilter}
use c3x_pricing_api.Db.Query.{
  Piece, text, param, Builder, Arg, start, append, add_equal, add_region, add_pattern,
  add_attribute, add_attributes, add_limit, add_page, add_columns, assemble, build_product_query,
  build-assemble,
}

abbrev pub params : List Piece → List ℕ
params [] = []
params (text s ∷ ps) = params ps
params (param n ∷ ps) = n ∷ params ps

params-append : (ps qs : List Piece) → params (ps ++ qs) ≡ params ps ++ params qs
params-append [] qs = refl
params-append (text s ∷ ps) qs = params-append ps qs
params-append (param n ∷ ps) qs = ap (◌∷◌ n) (params-append ps qs)

-- first, first + 1, ..., `count` numbers in all.
abbrev pub numbers : ℕ → ℕ → List ℕ
numbers first zero = []
numbers first (suc count) = first ∷ numbers (suc first) count

numbers-add : (first m n : ℕ) → numbers first (m + n) ≡ numbers first m ++ numbers (first + m) n
numbers-add first zero n = simp (add-zero, zero-add)
numbers-add first (suc m) n =
    rw (suc-add, add-suc, ← suc-add) (ap (◌∷◌ first) (numbers-add (suc first) m n))

pub record IsNumbered (b : Builder) : Type 0 where
  pub next : b.arg_idx ≡ length b.args + 1
  pub placed : params b.query ≡ numbers 1 (length b.args)

append-IsNumbered :
    (b : Builder) (pieces : List Piece) (args : List Arg) (n : ℕ)
    → IsNumbered b
    → n ≡ length args
    → params pieces ≡ numbers b.arg_idx n
    → IsNumbered (append b pieces args n)
append-IsNumbered b pieces args n v e h =
    let first : b.arg_idx ≡ 1 + length b.args = omega (arith, v.next) in
    record {
      next = omega (arith, v.next, length-append b.args args);
      placed =
          rw (length-append b.args args, numbers-add)
            (cc (params-append b.query pieces, v.placed, first, e, h));
    }

start-IsNumbered : IsNumbered start
start-IsNumbered = record { next = refl; placed = refl }

one : (b : Builder) → b.arg_idx ∷ [] ≡ numbers b.arg_idx 1
one b = refl

two : (b : Builder) → b.arg_idx ∷ (b.arg_idx + 1) ∷ [] ≡ numbers b.arg_idx 2
two b = simp add-one

add_equal-IsNumbered :
    (column : String) (value : Option String) (b : Builder)
    → IsNumbered b
    → IsNumbered (add_equal column value b)
unfolding add_equal
add_equal-IsNumbered column none b v = v
add_equal-IsNumbered column (some s) b v = append-IsNumbered b _ _ 1 v refl (one b)

add_region-IsNumbered :
    (value : Option String) (b : Builder) → IsNumbered b → IsNumbered (add_region value b)
unfolding add_region
add_region-IsNumbered none b v = v
add_region-IsNumbered (some s) b v = append-IsNumbered b _ _ 1 v refl (one b)

add_pattern-IsNumbered :
    (key : String) (p : String × Bool) (b : Builder)
    → IsNumbered b
    → IsNumbered (add_pattern key p b)
unfolding add_pattern
add_pattern-IsNumbered key (pattern, ci) b v = elim (Bool-cases (str_eq pattern "")) [
  | inl blank ↦ rw blank v
  | inr given ↦ rw given (append-IsNumbered b _ _ 2 v refl (two b))
]

add_attribute-IsNumbered :
    (key : String) (value regex : Option String) (b : Builder)
    → IsNumbered b
    → IsNumbered (add_attribute key value regex b)
unfolding add_attribute
add_attribute-IsNumbered key (some s) regex b v = append-IsNumbered b _ _ 1 v refl (one b)
add_attribute-IsNumbered key none (some regex) b v =
    add_pattern-IsNumbered key (parse_regex_for_postgres regex) b v
add_attribute-IsNumbered key none none b v = v

add_attributes-IsNumbered :
    (afs : List AttributeFilter) (b : Builder) → IsNumbered b → IsNumbered (add_attributes afs b)
unfolding add_attributes
add_attributes-IsNumbered [] b v = v
add_attributes-IsNumbered (af ∷ afs) b v =
    add_attributes-IsNumbered afs _ (add_attribute-IsNumbered af.key af.value af.value_regex b v)

add_columns-IsNumbered :
    (f : ProductFilter) (b : Builder) → IsNumbered b → IsNumbered (add_columns f b)
unfolding add_columns
add_columns-IsNumbered f b v = add_equal-IsNumbered _ f.sku _ (
    add_region-IsNumbered f.region _ (
      add_equal-IsNumbered _ f.product_family _
        (add_equal-IsNumbered _ f.service _ (add_equal-IsNumbered _ f.vendor_name b v))))

add_limit-IsNumbered : (limit : ℤ) (b : Builder) → IsNumbered b → IsNumbered (add_limit limit b)
unfolding add_limit
add_limit-IsNumbered limit b v = append-IsNumbered b _ _ 1 v refl (one b)

add_page-IsNumbered : (f : ProductFilter) (b : Builder) → IsNumbered b → IsNumbered (add_page f b)
unfolding add_page
add_page-IsNumbered f b v = elim (Bool-cases (str_eq f.after_hash "")) [
  | inr keyset ↦ rw keyset (
      add_limit-IsNumbered _ _
        (add_equal-IsNumbered " AND product_hash > $" (some f.after_hash) b v))
  | inl blank ↦ elim (Bool-cases (ltb_ℤ (pos 0) f.offset)) [
    | inl paged ↦ rw (blank, paged) (append-IsNumbered b _ _ 2 v refl (two b))
    | inr first ↦ rw (blank, first) (add_limit-IsNumbered _ b v)
  ]
]

assemble-IsNumbered : (f : ProductFilter) → IsNumbered (assemble f)
unfolding assemble
assemble-IsNumbered f = add_page-IsNumbered f _ (
    add_attributes-IsNumbered f.attribute_filters _
      (add_columns-IsNumbered f start start-IsNumbered))

-- The placeholders of the SQL are $1, $2, ... in this order, each once, and there are as many as
-- arguments.
pub build_product_query-numbered :
    (f : ProductFilter) (q : Builder)
    → build_product_query f ≡ some q
    → params q.query ≡ numbers 1 (length q.args)
build_product_query-numbered f q h =
    subst (λ b. params b.query ≡ numbers 1 (length b.args)) (build-assemble f q h)
      (assemble-IsNumbered f).placed
