-- ===== src/Server/Catalog.antt =====
-- internal/server/catalog.go: `handleCatalog`, over the bundle that it serves.
pub mod Revalidation
mod Tests
use c3x_pricing_api.Base.{ℕ, String, Option, none, some, not, ◌&&◌, str_eq, if◌then◌else◌, ◌<>◌}

-- A header that is not set reads as "".
pub record CatalogReply : Type 0 where
  pub status : ℕ
  pub etag : String
  pub cache_control : String
  pub body : String

abbrev refuse : ℕ → CatalogReply
refuse status = record { status = status; etag = ""; cache_control = ""; body = "" }

abbrev pub etag_of : String → String
etag_of hash = "\"" <> (hash <> "\"")

abbrev pub reply : ℕ → String → String → CatalogReply
reply status hash body = record {
  status = status;
  etag = etag_of hash;
  cache_control = "public, max-age=3600";
  body = body;
}

-- `method` and `match` are those of the request, its If-None-Match header.
unfoldable pub handle_catalog : Option (String × String × ℕ) → String → String → CatalogReply
handle_catalog bundle method match =
    if not (str_eq method "GET") && not (str_eq method "HEAD") then refuse 405 else elim bundle [
      | none ↦ refuse 500
      | some (body, hash, _) ↦
          if str_eq match (etag_of hash)
          then reply 304 hash ""
          else if str_eq method "HEAD"
          then reply 200 hash ""
          else reply 200 hash body
    ]
