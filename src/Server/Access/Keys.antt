-- ===== src/Server/Access/Keys.antt =====
-- Who passes the API key.
use c3x_pricing_api.Base.{
  ◌≡◌, ◌≢◌, refl, sym, ap, ◌∙◌, ◌↔◌, ◌⊎◌, inl, inr, String, some, true, str_eq, eq_iff, ◌<>◌,
  strip_prefix, arith, Bool-cases, Option-cases,
}
use c3x_pricing_api.Base.TextLaws.{strip_prefix-eq, strip_prefix-append}
use c3x_pricing_api.Server.Access.{Headers, provided_key, auth_middleware}

-- The bearer token is not empty: the X-Api-Key header is not read.
abbrev pub HasBearer : Headers → Type 0
HasBearer h = (token : String) × (h.authorization ≡ "Bearer " <> token) × (token ≢ "")

-- A bearer token is what follows the prefix.
bearer-strip :
    (h : Headers) (token : String)
    → h.authorization ≡ "Bearer " <> token
    → strip_prefix "Bearer " h.authorization ≡ some token
bearer-strip h token e = ap (strip_prefix "Bearer ") e ∙ strip_prefix-append "Bearer " token

provided_key_plain : (h : Headers) → (HasBearer h → ⊥) → provided_key h ≡ h.x_api_key
unfolding provided_key
provided_key_plain h plain = elim (Option-cases (strip_prefix "Bearer " h.authorization)) [
  | inl e ↦ rw e refl
  | inr (t, e) ↦ elim (Bool-cases (str_eq t "")) [
    | inl blank ↦ ground (arith, e, blank)
    | inr full ↦ absurd (
        plain (
          t,
          strip_prefix-eq "Bearer " h.authorization t e,
          λ same. ground (arith, full, eq_iff t "", same),
        ))
  ]
]

provided_key_bearer :
    (h : Headers) (token : String)
    → h.authorization ≡ "Bearer " <> token
    → token ≢ ""
    → provided_key h ≡ token
unfolding provided_key
provided_key_bearer h token e full = ground (arith, bearer-strip h token e, eq_iff token "", full)

HasBearer-cases : (h : Headers) → HasBearer h ⊎ (HasBearer h → ⊥)
HasBearer-cases h = elim (Option-cases (strip_prefix "Bearer " h.authorization)) [
  | inl e ↦ inr (λ (t, b, full). absurd (ground (arith, e, bearer-strip h t b)))
  | inr (t, e) ↦ elim (Bool-cases (str_eq t "")) [
    | inl blank ↦
        inr (λ (t', b, full). full (ground (arith, e, blank, eq_iff t "", bearer-strip h t' b)))
    | inr full ↦ inl (
      t,
      strip_prefix-eq "Bearer " h.authorization t e,
      λ same. ground (arith, full, eq_iff t "", same),
    )
  ]
]

passes_iff :
    (sha256 : String → String) (api_key : String) (h : Headers)
    → api_key ≢ ""
    → ((s : String) → sha256 s ≡ sha256 api_key → s ≡ api_key)
    → (auth_middleware sha256 api_key h ≡ true) ↔ (provided_key h ≡ api_key)
unfolding auth_middleware
passes_iff sha256 api_key h set inj =
    let key = provided_key h in
    (
      λ pass.
          inj key
            (ground (arith, pass, eq_iff api_key "", set, eq_iff (sha256 key) (sha256 api_key))),
      λ same. ground (arith, ap sha256 same, eq_iff (sha256 key) (sha256 api_key)),
    )

-- With an API key set, and SHA-256 not colliding on it, a request passes exactly when it gives the
-- key as its bearer token, or in X-Api-Key where it has no bearer token or an empty one.
pub auth_middleware_iff :
    (sha256 : String → String) (api_key : String) (h : Headers)
    → api_key ≢ ""
    → ((s : String) → sha256 s ≡ sha256 api_key → s ≡ api_key)
    → (auth_middleware sha256 api_key h ≡ true)
      ↔ ((h.authorization ≡ "Bearer " <> api_key) ⊎ ((h.x_api_key ≡ api_key) × (HasBearer h → ⊥)))
auth_middleware_iff sha256 api_key h set inj =
    let (to, from) = passes_iff sha256 api_key h set inj in
    (
      λ pass. elim (HasBearer-cases h) [
        | inl (t, b, full) ↦
            let same : t ≡ api_key = sym (provided_key_bearer h t b full) ∙ to pass in
            inl (b ∙ ap (λ x. "Bearer " <> x) same)
        | inr plain ↦ inr (sym (provided_key_plain h plain) ∙ to pass, plain)
      ],
      λ given. elim given [
        | inl b ↦ from (provided_key_bearer h api_key b set)
        | inr (same, plain) ↦ from (provided_key_plain h plain ∙ same)
      ],
    )
