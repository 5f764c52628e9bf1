-- ===== src/Server/Middleware/Origins.antt =====
-- Which origins `corsMiddleware` allows.
use mathlib.Core.List.{Memᴰ}
use mathlib.Core.List.Memᴰ.{head, tail}
use c3x_pricing_api.Base.TextLaws.{not_empty}
use c3x_pricing_api.Base.{
  ◌≡◌, ◌≢◌, ◌⊎◌, ◌↔◌, inl, inr, refl, sym, subst, ap, ◌∙◌, String, List, [], ◌∷◌, Bool, true, false,
  ◌||◌, str_eq, eq_iff, if◌then◌else◌, any, map, is_empty, split, trim_left, trim_right, trim_space,
  arith, Bool-cases, true-false,
}
use c3x_pricing_api.Server.Middleware.{
  Header, values, CorsRequest, Reply, no_content, served, origins_of, allow, is_allowed,
  cors_middleware, security_headers_middleware, wrap_handler, set_header, preflight,
}

-- The setting names a text: between two commas, with white space around it or not.
abbrev pub Names : String → String → Type 0
Names setting o = Memᴰ o (map trim_space (split b',' setting))

abbrev pub headers : Reply → Header
headers (no_content h) = h
headers (served h) = h

abbrev is_listed : String → List String → Bool
is_listed o os = any (str_eq o) (origins_of os)

is_listed-cons :
    (o p : String) (os : List String) (b : Bool)
    → is_empty (trim_space p) ≡ b
    → is_listed o (p ∷ os)
      ≡ (if b then is_listed o os else (str_eq o (trim_space p) || is_listed o os))
unfolding origins_of
is_listed-cons o p os true e = rw e refl
is_listed-cons o p os false e = rw e refl

nil-listed : (o : String) → is_listed o [] ≡ true → ⊥
unfolding origins_of
nil-listed o h = cc

listed-Mem : (o : String) (os : List String) → is_listed o os ≡ true → Memᴰ o (map trim_space os)
listed-Mem o [] h = absurd (nil-listed o h)
listed-Mem o (p ∷ os) h = elim (Bool-cases (is_empty (trim_space p))) [
  | inl e ↦ tail (listed-Mem o os (sym (is_listed-cons o p os true e) ∙ h))
  | inr e ↦
      let step = sym (is_listed-cons o p os false e) ∙ h in
      elim (Bool-cases (str_eq o (trim_space p))) [
        | inl same ↦
            subst (λ q. Memᴰ q (trim_space p ∷ map trim_space os))
              (sym ((eq_iff o (trim_space p)).0 same)) (head refl)
        | inr other ↦ tail (listed-Mem o os (ground (arith, step, other)))
      ]
]

is_empty-blank : (o : String) → is_empty o ≡ true → o ≡ ""
is_empty-blank String.[] h = refl
is_empty-blank (String.◌∷◌ c o) h = absurd (ground (arith, h))

filled : (o : String) → is_empty o ≡ false → o ≢ ""
filled o h e = absurd (ground (arith, sym (ap is_empty e) ∙ h))

Mem-listed :
    (o : String) (os : List String) → o ≢ "" → Memᴰ o (map trim_space os) → is_listed o os ≡ true
Mem-listed o [] ne m = elim m [ ]
Mem-listed o (p ∷ os) ne (head e) =
    is_listed-cons o p os false (ap is_empty (sym e) ∙ not_empty o ne)
    ∙ ground (arith, (eq_iff o (trim_space p)).1 e)
Mem-listed o (p ∷ os) ne (tail m) =
    let rest = Mem-listed o os ne m in
    elim (Bool-cases (is_empty (trim_space p))) [
      | inl e ↦ is_listed-cons o p os true e ∙ rest
      | inr e ↦ is_listed-cons o p os false e ∙ ground (arith, rest)
    ]

-- The setting allows an origin: it is there, and it or `*` is named.
abbrev pub Allows : String → String → Type 0
Allows setting o = (o ≢ "") × (Names setting "*" ⊎ Names setting o)

abbrev allowed : String → String → Bool
allowed setting o = is_allowed (origins_of (split b',' setting)) o

allowed_sound : (setting o : String) → allowed setting o ≡ true → Allows setting o
unfolding is_allowed
allowed_sound setting o h =
    let os = split b',' setting in
    (
      filled o (ground (arith, h)),
      elim (Bool-cases (is_listed "*" os)) [
        | inl star ↦ inl (listed-Mem "*" os star)
        | inr none ↦ inr (listed-Mem o os (ground (arith, h, none)))
      ],
    )

Allows-allowed : (setting o : String) → Allows setting o → allowed setting o ≡ true
unfolding is_allowed
Allows-allowed setting o (ne, inl star) =
    ground (arith, not_empty o ne, Mem-listed "*" (split b',' setting) (λ e. cc) star)
Allows-allowed setting o (ne, inr named) =
    ground (arith, not_empty o ne, Mem-listed o (split b',' setting) ne named)

abbrev pub allow_origin : Reply → List String
allow_origin reply = values "Access-Control-Allow-Origin" (headers reply)

wrap_handler-unset : (r : CorsRequest) (b : Bool) → allowed "" r.origin ≡ b → b ≡ false
unfolding is_allowed origins_of split trim_left trim_right
wrap_handler-unset r b e = ground (arith, e)

answered :
    (setting : String) (r : CorsRequest) (b c : Bool)
    → allowed setting r.origin ≡ b
    → str_eq r.method "OPTIONS" ≡ c
    → allow_origin (cors_middleware (security_headers_middleware served) setting r [])
      ≡ (if b then r.origin ∷ [] else [])
unfolding cors_middleware allow security_headers_middleware set_header values preflight
answered setting r true true e o = rw (e, o) refl
answered setting r true false e o = rw (e, o) refl
answered setting r false true e o = rw (e, o) refl
answered setting r false false e o = rw (e, o) refl

wrap_handler-values :
    (setting : String) (r : CorsRequest) (b : Bool)
    → allowed setting r.origin ≡ b
    → allow_origin (wrap_handler setting r) ≡ (if b then r.origin ∷ [] else [])
unfolding wrap_handler security_headers_middleware set_header values
wrap_handler-values String.[] r b e = rw (wrap_handler-unset r b e) refl
wrap_handler-values (String.◌∷◌ c s) r b e = answered (String.◌∷◌ c s) r b _ e refl

no_values : (o : String) → ([] ≡ o ∷ []) → ⊥
no_values o e = cc

-- With any setting of CORS_ALLOWED_ORIGINS, a request of any method gets an answer with its origin
-- in Access-Control-Allow-Origin, once, if and only if it has an origin and the setting names that
-- origin or `*` between two commas, up to white space around it; else the header is not there.
pub wrap_handler-Allows_iff :
    (setting : String) (r : CorsRequest)
    → ((allow_origin (wrap_handler setting r) ≡ r.origin ∷ []) ↔ Allows setting r.origin)
      × ((allow_origin (wrap_handler setting r) ≡ r.origin ∷ [])
          ⊎ (allow_origin (wrap_handler setting r) ≡ []))
wrap_handler-Allows_iff setting r = elim (Bool-cases (allowed setting r.origin)) [
  | inl on ↦
      let same = wrap_handler-values setting r true on in
      (((λ _. allowed_sound setting r.origin on), (λ _. same)), inl same)
  | inr off ↦
      let none = wrap_handler-values setting r false off in
      (
        (
          (λ e. absurd (no_values r.origin (sym none ∙ e))),
          (λ a. absurd (true-false (sym (Allows-allowed setting r.origin a) ∙ off))),
        ),
        inr none,
      )
]
