-- ===== src/Server/Recovery/Tests.antt =====
-- A handler that panics after it wrote something.
use c3x_pricing_api.Base.{◌≡◌, ◌≢◌, ◌⊎◌, some, List, [], ◌∷◌, true, false}
use c3x_pricing_api.Server.Recovery.{
  Action, write_header, write_body, internal_error, recover_middleware, new_writer,
}
use c3x_pricing_api.Server.Recovery.Panics.{wire_of, no_wire, bytes_of, recover_middleware-wire_of}

abbrev half : List Action
half = write_header 200 ∷ write_body "[1," ∷ []

recover_middleware-wire_of_example :
    let w = recover_middleware (record { actions = half; panics = true }) new_writer in
    ((half ≡ []) → true ≡ true → w.wire ≡ record { sent = some 500; body = internal_error ∷ [] })
    × ((half ≢ []) ⊎ (true ≡ false) → w.wire ≡ wire_of half no_wire)
    × (w.bytes ≡ bytes_of w.wire.body)
recover_middleware-wire_of_example = recover_middleware-wire_of half true
