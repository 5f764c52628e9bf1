-- ===== src/Catalog.antt =====
-- catalog/bundle.go: the bundle of all TOML definitions. The files that are compiled into the
-- program, SHA-256 in hexadecimal digits and the encoding as JSON are parameters. The files do not
-- change, so that the one build that is kept is what each build gives.
use Prim.Native.Nat.{Ordering}
use Prim.Native.String.{compare}
use c3x_pricing_api.Base.{
  ℕ, String, Option, none, some, List, [], ◌∷◌, ◌++◌, Bool, true, false, not, ◌&&◌, str_eq,
  if◌then◌else◌, ◌>>=◌, length, ◌<>◌, has_suffix,
}

-- A file of a directory; none if it cannot be read.
pub record File : Type 0 where
  pub name : String
  pub is_dir : Bool
  pub content : Option String

-- What fs.ReadDir gives; none is an error.
abbrev pub Fs : Type 0
Fs = String → Option (List File)

pub record CatalogEntry : Type 0 where
  pub provider : String
  pub kind : String
  pub toml : String

pub record Bundle : Type 0 where
  pub schema_version : String
  pub hash : String
  pub count : ℕ
  pub entries : List CatalogEntry

-- strings.TrimSuffix
unfoldable pub trim_text : String → String → String
trim_text String.[] t = ""
trim_text (String.◌∷◌ c s) t =
    if str_eq (String.◌∷◌ c s) t then "" else String.◌∷◌ c (trim_text s t)

abbrev pub is_definition : File → Bool
is_definition f = not f.is_dir && has_suffix f.name ".toml"

abbrev pub entry_of : String → File → String → CatalogEntry
entry_of provider f raw = record {
  provider = provider;
  kind = trim_text f.name ".toml";
  toml = raw;
}

-- The first file that cannot be read ends the build.
unfoldable pub read_files : String → List File → Option (List CatalogEntry)
read_files provider [] = some []
read_files provider (f ∷ fs) =
    let rest = read_files provider fs in
    if is_definition f
    then elim f.content [
      | none ↦ none
      | some raw ↦ elim rest [ none ↦ none | some es ↦ some (entry_of provider f raw ∷ es) ]
    ]
    else rest

unfoldable pub read_providers : Fs → List String → Option (List CatalogEntry)
unfolding read_files
read_providers fs [] = some []
read_providers fs (p ∷ ps) = do
  files ← fs p
  es ← read_files p files
  more ← read_providers fs ps
  some (es ++ more)

abbrev pub providers : List String
providers = "aws" ∷ "azure" ∷ "gcp" ∷ []

abbrev less : String → String → Bool
less s t = elim (compare s t) [ Ordering.lt ↦ true | _ ↦ false ]

unfoldable pub entry_less : CatalogEntry → CatalogEntry → Bool
entry_less a b =
    if not (str_eq a.provider b.provider) then less a.provider b.provider else less a.kind b.kind

-- sort.Slice
unfoldable pub insert_entry : CatalogEntry → List CatalogEntry → List CatalogEntry
unfolding entry_less
insert_entry e [] = e ∷ []
insert_entry e (f ∷ fs) =
    let rest = insert_entry e fs in if entry_less f e then f ∷ rest else e ∷ f ∷ fs

unfoldable pub sort : List CatalogEntry → List CatalogEntry
unfolding insert_entry
sort [] = []
sort (e ∷ es) = insert_entry e (sort es)

-- What is hashed.
unfoldable pub preimage : List CatalogEntry → String
preimage [] = ""
preimage (e ∷ es) = e.provider <> ("\0" <> (e.kind <> ("\0" <> (e.toml <> ("\0" <> preimage es)))))

abbrev pub bundle_of : (String → String) → List CatalogEntry → Bundle
bundle_of hex es = record {
  schema_version = "1";
  hash = hex (preimage es);
  count = length es;
  entries = es;
}

unfoldable pub build : (String → String) → Fs → Option Bundle
unfolding read_providers sort preimage
build hex fs = do es ← read_providers fs providers; some (bundle_of hex (sort es))

-- The body, the hash and the count; none is an error.
unfoldable pub bundle_json :
    (String → String) → (Bundle → Option String) → Fs → Option (String × String × ℕ)
unfolding build
bundle_json hex marshal fs = do b ← build hex fs; out ← marshal b; some (out, b.hash, b.count)
