-- ===== src/Server/Middleware/Tests.antt =====
-- A setting with two origins, and a client that sends a line break as its request id.
use c3x_pricing_api.Base.{
  ◌≡◌, ◌⊎◌, ◌↔◌, ℕ, Option, length, String, List, [], ◌∷◌, some, none, refl, ap, subst, arith,
}
use c3x_pricing_api.Base.Int.{pos}
use c3x_pricing_api.Server.Middleware.{
  values, CorsRequest, wrap_handler, Source, request_id_middleware, valid_request_id, all_id_chars,
  new_id, encode_to_string, digit,
}
use c3x_pricing_api.Server.Middleware.Origins.{Allows, allow_origin, wrap_handler-Allows_iff}
use c3x_pricing_api.Server.Middleware.RequestIds.{
  IsSource, IsSafe, AllBytes, request_id_middleware-IsSafe,
}

abbrev setting : String
setting = "https://a.example, https://b.example"

abbrev request : CorsRequest
request = record { method = "OPTIONS"; origin = "https://b.example" }

wrap_handler-Allows_iff_example :
    ((allow_origin (wrap_handler setting request) ≡ "https://b.example" ∷ [])
      ↔ Allows setting "https://b.example")
    × ((allow_origin (wrap_handler setting request) ≡ "https://b.example" ∷ [])
        ⊎ (allow_origin (wrap_handler setting request) ≡ []))
wrap_handler-Allows_iff_example = wrap_handler-Allows_iff setting request

abbrev random : List ℕ
random = 0 ∷ 17 ∷ 255 ∷ 3 ∷ 4 ∷ 5 ∷ 6 ∷ 7 ∷ []

abbrev source : Source
source = record { random = some random; unix_nano = pos 1 }

random-AllBytes : AllBytes random
random-AllBytes = ground arith

abbrev bytes_or : Option (List ℕ) → List ℕ → List ℕ
bytes_or none bytes = bytes
bytes_or (some bytes) _ = bytes

source-IsSource : IsSource source
source-IsSource bytes e =
    subst (λ l. (length l ≡ 8) × AllBytes l) (ap (λ o. bytes_or o random) e) (refl, random-AllBytes)

request_id_middleware-IsSafe_example :
    let t = request_id_middleware source "a\nb" [] in
    IsSafe t.logged
    × (values "X-Request-ID" t.header ≡ t.logged ∷ [])
    × (IsSafe "a\nb" → t.logged ≡ "a\nb")
request_id_middleware-IsSafe_example = request_id_middleware-IsSafe source "a\nb" [] source-IsSource

replaced : (request_id_middleware source "a\nb" []).logged ≡ "0011ff0304050607"
unfolding request_id_middleware valid_request_id all_id_chars new_id encode_to_string digit
replaced = refl
