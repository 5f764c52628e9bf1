-- ===== src/Db/Query/Binding.antt =====
-- What the placeholders of a query stand for, against the conditions of the filter.
use mathlib.Core.List.{append-nil, append_assoc}
use native.Mathlib.Numerals.{add-one}
use c3x_pricing_api.Base.{
  ℕ, suc, ◌+◌, ◌≡◌, refl, ap, ap₂, subst, String, Option, none, some, List, [], ◌∷◌, ◌++◌, Bool,
  length, length-append, arith, Bool-cases, inl, inr, str_eq,
}
use c3x_pricing_api.Base.Int.{ℤ, pos, ltb_ℤ}
use c3x_pricing_api.Db.Pattern.{parse_regex_for_postgres}
use c3x_pricing_api.Db.Types.{ProductFilter, AttributeFilter, effective_limit}
use c3x_pricing_api.Db.Query.{
  Piece, text, param, Builder, Arg, str, num, start, append, add_equal, add_region, add_pattern,
  add_attribute, add_attributes, add_limit, add_page, add_columns, assemble, build_product_query,
  build-assemble, order_and_limit, select_products,
}
use c3x_pricing_api.Db.Query.Conditions.{
  Bound, lit, value, nth, bind_param, bind, equal_condition, region_condition, pattern_condition,
  attribute_condition, attribute_conditions, page, columns, conditions,
}

bind-append :
    (args : List Arg) (ps qs : List Piece) → bind args (ps ++ qs) ≡ bind args ps ++ bind args qs
bind-append args [] qs = refl
bind-append args (text s ∷ ps) qs = ap (◌∷◌ (lit s)) (bind-append args ps qs)
bind-append args (param n ∷ ps) qs = ap (◌∷◌ (bind_param args n)) (bind-append args ps qs)

nth-append : (xs : List Arg) (a : Arg) (ys : List Arg) → nth (xs ++ a ∷ ys) (length xs) ≡ some a
nth-append [] a ys = refl
nth-append (x ∷ xs) a ys = nth-append xs a ys

nth-append_suc :
    (xs : List Arg) (a c : Arg) (ys : List Arg) → nth (xs ++ a ∷ c ∷ ys) (suc (length xs)) ≡ some c
nth-append_suc [] a c ys = refl
nth-append_suc (x ∷ xs) a c ys = nth-append_suc xs a c ys

-- A builder whose SQL reads `bs`, also when more arguments follow.
record Reads (b : Builder) (bs : List Bound) : Type 0 where
  next : b.arg_idx ≡ suc (length b.args)
  reads : (more : List Arg) → bind (b.args ++ more) b.query ≡ bs

first_param :
    (b : Builder) (a : Arg) (more : List Arg)
    → b.arg_idx ≡ suc (length b.args)
    → bind_param (b.args ++ a ∷ more) b.arg_idx ≡ value a
first_param b a more e = rw e (rw (nth-append b.args a more, bind_param))

second_param :
    (b : Builder) (a c : Arg) (more : List Arg)
    → b.arg_idx ≡ suc (length b.args)
    → bind_param (b.args ++ a ∷ c ∷ more) (b.arg_idx + 1) ≡ value c
second_param b a c more e = rw (add-one, e) (rw (nth-append_suc b.args a c more, bind_param))

append-Reads :
    (b : Builder) (pieces : List Piece) (args : List Arg) (n : ℕ) (bs cs : List Bound)
    → Reads b bs
    → n ≡ length args
    → ((more : List Arg) → bind (b.args ++ (args ++ more)) pieces ≡ cs)
    → Reads (append b pieces args n) (bs ++ cs)
append-Reads b pieces args n bs cs v e h = record {
  next = omega (arith, v.next, length-append b.args args);
  reads = λ more.
      rw (append_assoc b.args args more, bind-append)
        (ap₂ (λ xs ys. xs ++ ys) (v.reads (args ++ more)) (h more));
}

Reads-cast : {bs cs : List Bound} (b : Builder) → bs ≡ cs → Reads b bs → Reads b cs
Reads-cast b e v = subst (Reads b) e v

start-Reads : Reads start (lit select_products ∷ [])
start-Reads = record { next = refl; reads = λ more. refl }

one_param :
    (b : Builder) (bs : List Bound) (s : String) (a : Arg)
    → Reads b bs
    → Reads (append b (text s ∷ param b.arg_idx ∷ []) (a ∷ []) 1) (bs ++ lit s ∷ value a ∷ [])
one_param b bs s a v = append-Reads b _ _ 1 bs _ v refl (λ more. rw (first_param b a more v.next))

add_equal-Reads :
    (column : String) (given : Option String) (b : Builder) (bs : List Bound)
    → Reads b bs
    → Reads (add_equal column given b) (bs ++ equal_condition column given)
unfolding add_equal
add_equal-Reads column none b bs v = rw append-nil v
add_equal-Reads column (some s) b bs v = one_param b bs column (str s) v

add_region-Reads :
    (given : Option String) (b : Builder) (bs : List Bound)
    → Reads b bs
    → Reads (add_region given b) (bs ++ region_condition given)
unfolding add_region
add_region-Reads none b bs v = rw append-nil v
add_region-Reads (some s) b bs v =
    append-Reads b _ _ 1 bs _ v refl (λ more. rw (first_param b (str s) more v.next))

add_pattern-Reads :
    (key : String) (p : String × Bool) (b : Builder) (bs : List Bound)
    → Reads b bs
    → Reads (add_pattern key p b) (bs ++ pattern_condition key p)
unfolding add_pattern
add_pattern-Reads key (pattern, ci) b bs v = elim (Bool-cases (str_eq pattern "")) [
  | inl blank ↦ rw blank (rw append-nil v)
  | inr given ↦ rw given (
      append-Reads b _ _ 2 bs _ v refl
        (λ more. rw (first_param b _ _ v.next, second_param b _ _ more v.next)))
]

add_attribute-Reads :
    (key : String) (given regex : Option String) (b : Builder) (bs : List Bound)
    → Reads b bs
    → Reads (add_attribute key given regex b) (bs ++ attribute_condition key given regex)
unfolding add_attribute
add_attribute-Reads key (some s) regex b bs v =
    append-Reads b _ _ 1 bs _ v refl (λ more. rw (first_param b _ more v.next))
add_attribute-Reads key none (some regex) b bs v =
    add_pattern-Reads key (parse_regex_for_postgres regex) b bs v
add_attribute-Reads key none none b bs v = rw append-nil v

add_attributes-Reads :
    (afs : List AttributeFilter) (b : Builder) (bs : List Bound)
    → Reads b bs
    → Reads (add_attributes afs b) (bs ++ attribute_conditions afs)
unfolding add_attributes
add_attributes-Reads [] b bs v = rw append-nil v
add_attributes-Reads (af ∷ afs) b bs v =
    rw (← append_assoc bs)
      (add_attributes-Reads afs _ _ (add_attribute-Reads af.key af.value af.value_regex b bs v))

add_columns-Reads :
    (f : ProductFilter) (b : Builder) (bs : List Bound)
    → Reads b bs
    → Reads (add_columns f b) (bs ++ columns f)
unfolding add_columns
add_columns-Reads f b bs v = simp append_assoc at (
    add_equal-Reads " AND sku = $" f.sku _ _ (
      add_region-Reads f.region _ _ (
        add_equal-Reads " AND product_family = $" f.product_family _ _ (
          add_equal-Reads " AND service = $" f.service _ _
            (add_equal-Reads " AND vendor_name = $" f.vendor_name b bs v)))))

add_limit-Reads :
    (limit : ℤ) (b : Builder) (bs : List Bound)
    → Reads b bs
    → Reads (add_limit limit b) (bs ++ lit order_and_limit ∷ value (num limit) ∷ [])
unfolding add_limit
add_limit-Reads limit b bs v = one_param b bs order_and_limit (num limit) v

add_page-Reads :
    (f : ProductFilter) (b : Builder) (bs : List Bound)
    → Reads b bs
    → Reads (add_page f b) (bs ++ page f)
unfolding add_page
add_page-Reads f b bs v = elim (Bool-cases (str_eq f.after_hash "")) [
  | inr keyset ↦ rw keyset (
      Reads-cast _ (append_assoc bs _ _) (
        add_limit-Reads (effective_limit f.limit) _ _
          (add_equal-Reads " AND product_hash > $" (some f.after_hash) b bs v)))
  | inl blank ↦ elim (Bool-cases (ltb_ℤ (pos 0) f.offset)) [
    | inl paged ↦
        rw (blank, paged)
          (append-Reads b _ _ 2 bs _ v refl
            (λ more. rw (first_param b _ _ v.next, second_param b _ _ more v.next)))
    | inr first ↦ rw (blank, first) (add_limit-Reads (effective_limit f.limit) b bs v)
  ]
]

assemble-Reads : (f : ProductFilter) → Reads (assemble f) (conditions f)
unfolding assemble
assemble-Reads f = Reads-cast _ (append_assoc (lit select_products ∷ columns f) _ _) (
    add_page-Reads f _ _
      (add_attributes-Reads f.attribute_filters _ _ (add_columns-Reads f start _ start-Reads)))

-- With its arguments in place the SQL reads as the conditions of the filter, one after the other:
-- every placeholder stands for the value that its own condition compares with.
pub build_product_query-reads :
    (f : ProductFilter) (q : Builder)
    → build_product_query f ≡ some q
    → bind q.args q.query ≡ conditions f
build_product_query-reads f q h =
    subst (λ b. bind b.args b.query ≡ conditions f) (build-assemble f q h)
      (rw append-nil at ((assemble-Reads f).reads []))
