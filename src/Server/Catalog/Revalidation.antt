-- ===== src/Server/Catalog/Revalidation.antt =====
-- What a client's If-None-Match tells about the catalog that it holds.
use text.Mathlib.TextLemmas.{
  nil-append, cons-append, append_cancel_left, append_cancel_right, cons-ne-nil,
}
use c3x_pricing_api.Base.{
  ℕ, ◌≡◌, ◌≢◌, ◌⊎◌, inl, inr, refl, sym, ap, ap₂, subst, ◌∙◌, String, Option, some, List, [], ◌∷◌,
  Bool, true, false, str_eq, eq_iff, if◌then◌else◌, ◌<>◌, split, has_char, Option-cases, All, arith,
  Bool-cases, true-false,
}
use c3x_pricing_api.Catalog.{
  Fs, CatalogEntry, Bundle, preimage, sort, read_providers, providers, bundle_of, build,
  bundle_json,
}
use c3x_pricing_api.Server.Catalog.{CatalogReply, etag_of, reply, handle_catalog}
use c3x_pricing_api.Scraper.Hash.Fields.{IsPlain, split-plain, split-append}

-- No text of the entry holds a NUL, which TOML rules out.
abbrev pub IsPlainEntry : CatalogEntry → Type 0
IsPlainEntry e = IsPlain e.provider × IsPlain e.kind × IsPlain e.toml

abbrev texts : List CatalogEntry → List String
texts [] = "" ∷ []
texts (e ∷ es) = e.provider ∷ e.kind ∷ e.toml ∷ texts es

split-preimage : (es : List CatalogEntry) → All IsPlainEntry es → split 0 (preimage es) ≡ texts es
unfolding preimage
split-preimage [] h = split-plain "" (unfold has_char in refl)
split-preimage (e ∷ es) ((hp, hk, ht), hs) =
    rw (split-append e.provider _ hp, split-append e.kind _ hk, split-append e.toml _ ht)
      (ap (λ l. e.provider ∷ e.kind ∷ e.toml ∷ l) (split-preimage es hs))

texts-cons :
    (e d : CatalogEntry) (es ds : List CatalogEntry)
    → texts (e ∷ es) ≡ texts (d ∷ ds)
    → (e.provider ≡ d.provider) × (e.kind ≡ d.kind) × (e.toml ≡ d.toml) × (texts es ≡ texts ds)
texts-cons e d es ds h = ground (arith, h)

texts-injective : (es ds : List CatalogEntry) → texts es ≡ texts ds → es ≡ ds
texts-injective [] [] h = refl
texts-injective [] (d ∷ []) h = cc
texts-injective [] (d ∷ d' ∷ ds) h = cc
texts-injective (e ∷ []) [] h = cc
texts-injective (e ∷ e' ∷ es) [] h = cc
texts-injective (e ∷ es) (d ∷ ds) h =
    let (p, k, t, rest) = texts-cons e d es ds h in
    ap₂ (λ x xs. x ∷ xs) (λ i. record { provider = p i; kind = k i; toml = t i })
      (texts-injective es ds rest)

preimage-injective :
    (es ds : List CatalogEntry)
    → All IsPlainEntry es
    → All IsPlainEntry ds
    → preimage es ≡ preimage ds
    → es ≡ ds
preimage-injective es ds hes hds e =
    texts-injective es ds (sym (split-preimage es hes) ∙ ap (split 0) e ∙ split-preimage ds hds)

some_inj : {b b' : Bundle} → some b ≡ some b' → b ≡ b'
some_inj h = ground (arith, h)

-- A built bundle is named by the hash of its entries.
build-hash :
    (hex : String → String) (fs : Fs) (b : Bundle)
    → build hex fs ≡ some b
    → b.hash ≡ hex (preimage b.entries)
unfolding build
build-hash hex fs b h = elim (Option-cases (read_providers fs providers)) [
  | inl e ↦ absurd (ground (arith, e, h))
  | inr (es, e) ↦
      let built : build hex fs ≡ some (bundle_of hex (sort es)) = rw e refl in
      subst (λ x. x.hash ≡ hex (preimage x.entries)) (some_inj (sym built ∙ h)) refl
]

hash-entries :
    (hex : String → String) (fs fs' : Fs) (b b' : Bundle)
    → build hex fs ≡ some b
    → build hex fs' ≡ some b'
    → b.entries ≡ b'.entries
    → b.hash ≡ b'.hash
hash-entries hex fs fs' b b' h h' same =
    build-hash hex fs b h ∙ ap (λ es. hex (preimage es)) same ∙ sym (build-hash hex fs' b' h')

etag_of-injective : (h k : String) → etag_of h ≡ etag_of k → h ≡ k
etag_of-injective h k e = append_cancel_right h k "\"" (append_cancel_left "\"" _ _ e)

get_reply :
    (body hash match : String) (n : ℕ) (b : Bool)
    → str_eq match (etag_of hash) ≡ b
    → handle_catalog (some (body, hash, n)) "GET" match
      ≡ (if b then reply 304 hash "" else reply 200 hash body)
unfolding handle_catalog
get_reply body hash match n true e = rw e refl
get_reply body hash match n false e = rw e refl

not_eq : (s t : String) → s ≢ t → str_eq s t ≡ false
not_eq s t ne = elim (Bool-cases (str_eq s t)) [
  | inl e ↦ absurd (ne ((eq_iff s t).0 e))
  | inr e ↦ e
]

etag_of-filled : (hash : String) → "" ≢ etag_of hash
etag_of-filled hash e =
    cons-ne-nil "\"" (hash <> "\"")
      (sym (e ∙ cons-append "\"" "" (hash <> "\"") ∙ ap (String.◌∷◌ "\"") (nil-append _)))

-- A client has the catalog of one version of the server, and asks another version with the ETag that
-- it got. If both can build and encode their bundles, no text of an entry holds a NUL and SHA-256
-- does not collide on the two, then it is told 304 where the two have the same entries, and where
-- they have not, it gets the new bundle.
pub handle_catalog-revalidates :
    (hex : String → String) (marshal : Bundle → Option String) (fs fs' : Fs) (b b' : Bundle)
    (out out' : String)
    → build hex fs ≡ some b
    → marshal b ≡ some out
    → build hex fs' ≡ some b'
    → marshal b' ≡ some out'
    → All IsPlainEntry b.entries
    → All IsPlainEntry b'.entries
    → (b.hash ≡ b'.hash → preimage b.entries ≡ preimage b'.entries)
    → let held = handle_catalog (bundle_json hex marshal fs) "GET" "" in
      let r = handle_catalog (bundle_json hex marshal fs') "GET" held.etag in
      (held.body ≡ out)
      × (((b.entries ≡ b'.entries) × (r.status ≡ 304))
          ⊎ ((b.entries ≢ b'.entries) × (r.status ≡ 200) × (r.body ≡ out')))
unfolding bundle_json
handle_catalog-revalidates hex marshal fs fs' b b' out out' hb ho hb' ho' plain plain' apart =
    let held : bundle_json hex marshal fs ≡ some (out, b.hash, b.count) = rw (hb, ho) refl in
    let new : bundle_json hex marshal fs' ≡ some (out', b'.hash, b'.count) = rw (hb', ho') refl in
    let unset = not_eq "" (etag_of b.hash) (etag_of-filled b.hash) in
    let first = get_reply out b.hash "" b.count false unset in
    let tag = etag_of b.hash in
    rw (held, new, first)
      (
        refl,
        elim (Bool-cases (str_eq tag (etag_of b'.hash))) [
          | inl e ↦
              let same =
                apart (etag_of-injective b.hash b'.hash ((eq_iff tag (etag_of b'.hash)).0 e)) in
              inl (
                preimage-injective b.entries b'.entries plain plain' same,
                ap CatalogReply.status (get_reply out' b'.hash tag b'.count true e),
              )
          | inr e ↦
              let again = get_reply out' b'.hash tag b'.count false e in
              inr (
                λ same.
                    let alike = ap etag_of (hash-entries hex fs fs' b b' hb hb' same) in
                    absurd (true-false (sym ((eq_iff tag (etag_of b'.hash)).1 alike) ∙ e)),
                ap CatalogReply.status again,
                ap CatalogReply.body again,
              )
        ],
      )
