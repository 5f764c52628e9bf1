-- ===== src/Db/Query/Shape.antt =====
-- No value of a filter reaches the SQL text, and the only error is a long regex.
use c3x_pricing_api.Base.{
  ◌≡◌, refl, sym, String, Option, none, some, List, [], ◌∷◌, Bool, true, false, arith, str_eq,
  is_some,
}
use c3x_pricing_api.Base.Int.{pos, ltb_ℤ}
use c3x_pricing_api.Db.Pattern.{parse_regex_for_postgres}
use c3x_pricing_api.Db.Types.{ProductFilter, AttributeFilter}
use c3x_pricing_api.Db.Query.{
  Builder, add_equal, add_region, add_pattern, add_attribute, add_attributes, add_page, add_columns,
  start, assemble, build_product_query, build-assemble,
}

-- Which condition an attribute filter makes, without its values.
pub data Kind : Type 0 where
  equality nothing : Kind
  matching : (case_insensitive : Bool) → Kind

abbrev pub pattern_kind : String × Bool → Kind
pattern_kind (pattern, ci) = elim (str_eq pattern "") [ true ↦ nothing | false ↦ matching ci ]

abbrev pub kind : Option String → Option String → Kind
kind (some v) regex = equality
kind none (some regex) = pattern_kind (parse_regex_for_postgres regex)
kind none none = nothing

abbrev pub kinds : List AttributeFilter → List Kind
kinds [] = []
kinds (af ∷ afs) = kind af.value af.value_regex ∷ kinds afs

-- Two filters set the same fields, whatever the values in them.
pub record SameShape (f g : ProductFilter) : Type 0 where
  pub vendor_name : is_some f.vendor_name ≡ is_some g.vendor_name
  pub service : is_some f.service ≡ is_some g.service
  pub product_family : is_some f.product_family ≡ is_some g.product_family
  pub region : is_some f.region ≡ is_some g.region
  pub sku : is_some f.sku ≡ is_some g.sku
  pub attributes : kinds f.attribute_filters ≡ kinds g.attribute_filters
  pub after_hash : str_eq f.after_hash "" ≡ str_eq g.after_hash ""
  pub offset : ltb_ℤ (pos 0) f.offset ≡ ltb_ℤ (pos 0) g.offset

-- The same text so far, and the same next placeholder.
record Alike (b c : Builder) : Type 0 where
  query : b.query ≡ c.query
  arg_idx : b.arg_idx ≡ c.arg_idx

add_equal-Alike :
    (column : String) (v w : Option String) (b c : Builder)
    → is_some v ≡ is_some w
    → Alike b c
    → Alike (add_equal column v b) (add_equal column w c)
unfolding add_equal
add_equal-Alike column v w b c e h = ground arith

add_region-Alike :
    (v w : Option String) (b c : Builder)
    → is_some v ≡ is_some w
    → Alike b c
    → Alike (add_region v b) (add_region w c)
unfolding add_region
add_region-Alike v w b c e h = ground arith

add_pattern-Alike :
    (k l : String) (p q : String × Bool) (b c : Builder)
    → pattern_kind p ≡ pattern_kind q
    → Alike b c
    → Alike (add_pattern k p b) (add_pattern l q c)
unfolding add_pattern
add_pattern-Alike k l p q b c e h = ground arith

Alike-sym : {b c : Builder} → Alike b c → Alike c b
Alike-sym h = record { query = sym h.query; arg_idx = sym h.arg_idx }

add_nothing-Alike :
    (l : String) (q : String × Bool) (b c : Builder)
    → pattern_kind q ≡ nothing
    → Alike b c
    → Alike b (add_pattern l q c)
unfolding add_pattern
add_nothing-Alike l q b c e h = ground arith

add_attribute-Alike :
    (k l : String) (v w r s : Option String) (b c : Builder)
    → kind v r ≡ kind w s
    → Alike b c
    → Alike (add_attribute k v r b) (add_attribute l w s c)
unfolding add_attribute
add_attribute-Alike k l (some v) (some w) r s b c e h = ground arith
add_attribute-Alike k l none none (some r) (some s) b c e h =
    add_pattern-Alike k l (parse_regex_for_postgres r) (parse_regex_for_postgres s) b c e h
add_attribute-Alike k l none none none (some s) b c e h =
    add_nothing-Alike l (parse_regex_for_postgres s) b c (sym e) h
add_attribute-Alike k l none none (some r) none b c e h =
    Alike-sym (add_nothing-Alike k (parse_regex_for_postgres r) c b e (Alike-sym h))
add_attribute-Alike k l none none none none b c e h = h
add_attribute-Alike k l (some v) none r (some s) b c e h = ground arith
add_attribute-Alike k l (some v) none r none b c e h = cc
add_attribute-Alike k l none (some w) (some r) s b c e h = ground arith
add_attribute-Alike k l none (some w) none s b c e h = cc

add_attributes-Alike :
    (afs ags : List AttributeFilter) (b c : Builder)
    → kinds afs ≡ kinds ags
    → Alike b c
    → Alike (add_attributes afs b) (add_attributes ags c)
unfolding add_attributes
add_attributes-Alike [] [] b c e h = h
add_attributes-Alike [] (ag ∷ ags) b c e h = cc
add_attributes-Alike (af ∷ afs) [] b c e h = cc
add_attributes-Alike (af ∷ afs) (ag ∷ ags) b c e h =
    let same : kind af.value af.value_regex ≡ kind ag.value ag.value_regex = cc in
    add_attributes-Alike afs ags _ _ (cc)
      (add_attribute-Alike af.key ag.key af.value ag.value af.value_regex ag.value_regex b c same h)

add_columns-Alike :
    (f g : ProductFilter) (b c : Builder)
    → SameShape f g
    → Alike b c
    → Alike (add_columns f b) (add_columns g c)
unfolding add_columns
add_columns-Alike f g b c e h = add_equal-Alike _ f.sku g.sku _ _ e.sku (
    add_region-Alike f.region g.region _ _ e.region (
      add_equal-Alike _ f.product_family g.product_family _ _ e.product_family (
        add_equal-Alike _ f.service g.service _ _ e.service
          (add_equal-Alike _ f.vendor_name g.vendor_name b c e.vendor_name h))))

add_page-Alike :
    (f g : ProductFilter) (b c : Builder)
    → SameShape f g
    → Alike b c
    → Alike (add_page f b) (add_page g c)
unfolding add_page
add_page-Alike f g b c e h = ground arith

-- Two filters that set the same fields, with whatever values, that page alike (after a hash, by
-- an offset, or neither), and of whose regexes the same ones are empty or case-insensitive, yield
-- the same SQL text: no value is spliced into it.
pub build_product_query-same_text :
    (f g : ProductFilter) (p q : Builder)
    → SameShape f g
    → build_product_query f ≡ some p
    → build_product_query g ≡ some q
    → p.query ≡ q.query
unfolding assemble
build_product_query-same_text f g p q e hp hq =
    let alike = add_page-Alike f g _ _ e (
      add_attributes-Alike f.attribute_filters g.attribute_filters _ _ e.attributes
        (add_columns-Alike f g start start e (record { query = refl; arg_idx = refl }))) in
    cc (build-assemble f p hp, build-assemble g q hq, alike.query)
