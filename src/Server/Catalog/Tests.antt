-- ===== src/Server/Catalog/Tests.antt =====
-- A client with the catalog of one version, and a server with one definition changed.
use c3x_pricing_api.Base.{
  ◌≡◌, ◌≢◌, ◌⊎◌, refl, String, Option, some, [], ◌∷◌, false, str_eq, All, if◌then◌else◌, has_char,
  has_suffix,
}
use c3x_pricing_api.Catalog.{
  File, Fs, CatalogEntry, Bundle, bundle_of, build, bundle_json, read_files, read_providers, sort,
  insert_entry, trim_text, entry_less,
}
use c3x_pricing_api.Server.Catalog.{handle_catalog}
use c3x_pricing_api.Server.Catalog.Revalidation.{IsPlainEntry, handle_catalog-revalidates}

abbrev toml : String → String → File
toml name raw = record { name = name; is_dir = false; content = some raw }

abbrev files : String → Fs
files raw provider =
    if str_eq provider "aws"
    then some (toml "lb.toml" raw ∷ toml "README" "" ∷ toml "ec2.toml" "x" ∷ [])
    else some []

abbrev entry : String → String → CatalogEntry
entry kind raw = record { provider = "aws"; kind = kind; toml = raw }

abbrev identity : String → String
identity s = s

abbrev encoded : Bundle → Option String
encoded b = some b.hash

abbrev bundle : String → Bundle
bundle raw = bundle_of identity (entry "ec2" "x" ∷ entry "lb" raw ∷ [])

build-old : build identity (files "a") ≡ some (bundle "a")
unfolding build read_providers read_files sort insert_entry entry_less trim_text has_suffix
build-old = refl

build-new : build identity (files "b") ≡ some (bundle "b")
unfolding build read_providers read_files sort insert_entry entry_less trim_text has_suffix
build-new = refl

old-plain : All IsPlainEntry (bundle "a").entries
unfolding has_char
old-plain = ((refl, refl, refl), ((refl, refl, refl), tt))

new-plain : All IsPlainEntry (bundle "b").entries
unfolding has_char
new-plain = ((refl, refl, refl), ((refl, refl, refl), tt))

handle_catalog-revalidates_example :
    let held = handle_catalog (bundle_json identity encoded (files "a")) "GET" "" in
    let r = handle_catalog (bundle_json identity encoded (files "b")) "GET" held.etag in
    (held.body ≡ (bundle "a").hash)
    × ((((bundle "a").entries ≡ (bundle "b").entries) × (r.status ≡ 304))
        ⊎ (((bundle "a").entries ≢ (bundle "b").entries)
            × (r.status ≡ 200)
            × (r.body ≡ (bundle "b").hash)))
handle_catalog-revalidates_example =
    handle_catalog-revalidates identity encoded (files "a") (files "b") (bundle "a") (bundle "b")
      (bundle "a").hash (bundle "b").hash build-old refl build-new refl old-plain new-plain (λ e. e)
