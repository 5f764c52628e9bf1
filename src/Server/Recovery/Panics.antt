-- ===== src/Server/Recovery/Panics.antt =====
-- What a client and the log see of a handler that panics.
use Prim.Native.String.{len}
use c3x_pricing_api.Base.{
  ℕ, ◌+◌, ◌≡◌, ◌≢◌, ◌⊎◌, inl, inr, ap, ◌∙◌, sym, subst, refl, String, none, some, List, [], ◌∷◌,
  ◌++◌, Bool, true, false, arith,
}
use c3x_pricing_api.Server.Recovery.{
  Action, write_header, write_body, Wire, send, send_body, StatusWriter, status_write,
  status_write_header, ResponseTracker, act, act_all, internal_error, recover, recover_middleware,
  new_writer,
}

-- What the handler's actions alone put on the wire.
abbrev pub wire_of : List Action → Wire → Wire
wire_of [] w = w
wire_of (write_header code ∷ actions) w = wire_of actions (send code w)
wire_of (write_body p ∷ actions) w = wire_of actions (send_body p w)

abbrev pub bytes_of : List String → ℕ
bytes_of [] = 0
bytes_of (p ∷ ps) = len p + bytes_of ps

act_all-wire_of :
    (actions : List Action) (rt : ResponseTracker)
    → (act_all actions rt).writer.wire ≡ wire_of actions rt.writer.wire
unfolding act_all act
act_all-wire_of [] rt = refl
act_all-wire_of (write_header code ∷ actions) rt =
    act_all-wire_of actions (act (write_header code) rt)
act_all-wire_of (write_body p ∷ actions) rt = act_all-wire_of actions (act (write_body p) rt)

act_all_written :
    (actions : List Action) (rt : ResponseTracker)
    → rt.header_written ≡ true
    → (act_all actions rt).header_written ≡ true
unfolding act_all act
act_all_written [] rt h = h
act_all_written (write_header code ∷ actions) rt h =
    act_all_written actions (act (write_header code) rt) refl
act_all_written (write_body p ∷ actions) rt h = act_all_written actions (act (write_body p) rt) refl

bytes_of-append : (ps : List String) (p : String) → bytes_of (ps ++ p ∷ []) ≡ bytes_of ps + len p
bytes_of-append [] p = omega arith
bytes_of-append (q ∷ ps) p = omega (arith, bytes_of-append ps p)

abbrev IsCounted : StatusWriter → Type 0
IsCounted w = w.bytes ≡ bytes_of w.wire.body

send-body : (code : ℕ) (w : Wire) → (send code w).body ≡ w.body
send-body code w = ground arith

status_write-IsCounted :
    (p : String) (w : StatusWriter) → IsCounted w → IsCounted (status_write p w)
status_write-IsCounted p w h =
    let same = send-body 200 w.wire in
    omega (arith, h, bytes_of-append (send 200 w.wire).body p, ap bytes_of same)

status_write_header-IsCounted :
    (code : ℕ) (w : StatusWriter) → IsCounted w → IsCounted (status_write_header code w)
status_write_header-IsCounted code w h = omega (arith, h, ap bytes_of (send-body code w.wire))

act_all-IsCounted :
    (actions : List Action) (rt : ResponseTracker)
    → IsCounted rt.writer
    → IsCounted (act_all actions rt).writer
unfolding act_all act
act_all-IsCounted [] rt h = h
act_all-IsCounted (write_header code ∷ actions) rt h =
    act_all-IsCounted actions (act (write_header code) rt)
      (status_write_header-IsCounted code rt.writer h)
act_all-IsCounted (write_body p ∷ actions) rt h =
    act_all-IsCounted actions (act (write_body p) rt) (status_write-IsCounted p rt.writer h)

abbrev pub no_wire : Wire
no_wire = record { sent = none; body = [] }

abbrev fresh : ResponseTracker
fresh = record { writer = new_writer; header_written = false }

recover-written : (rt : ResponseTracker) → rt.header_written ≡ true → recover rt ≡ rt.writer
unfolding recover
recover-written rt h = ground (arith, h)

recover_middleware_some :
    (a : Action) (actions : List Action) (panics : Bool)
    → recover_middleware (record { actions = a ∷ actions; panics = panics }) new_writer
      ≡ (act_all (a ∷ actions) fresh).writer
unfolding recover_middleware act_all act
recover_middleware_some a actions false = refl
recover_middleware_some (write_header code) actions true =
    recover-written _ (act_all_written actions (act (write_header code) fresh) refl)
recover_middleware_some (write_body p) actions true =
    recover-written _ (act_all_written actions (act (write_body p) fresh) refl)

-- The response of a handler that panics before it writes anything is a 500 with an error body; of any
-- other handler the client gets exactly what the handler wrote, without an error appended, also if
-- it panics later. The bytes counted are those of the body.
pub recover_middleware-wire_of :
    (actions : List Action) (panics : Bool)
    → let w = recover_middleware (record { actions = actions; panics = panics }) new_writer in
      ((actions ≡ [])
        → panics ≡ true
        → w.wire ≡ record { sent = some 500; body = internal_error ∷ [] })
      × ((actions ≢ []) ⊎ (panics ≡ false) → w.wire ≡ wire_of actions no_wire)
      × (w.bytes ≡ bytes_of w.wire.body)
unfolding recover_middleware recover act_all
recover_middleware-wire_of (a ∷ actions) panics =
    let e = recover_middleware_some a actions panics in
    (
      λ none' h. absurd (ground (arith, none')),
      λ h. ap (λ w. w.wire) e ∙ act_all-wire_of (a ∷ actions) fresh,
      subst IsCounted (sym e) (act_all-IsCounted (a ∷ actions) fresh refl),
    )
recover_middleware-wire_of [] true = (
  λ e h. refl,
  λ h. elim h [ inl full ↦ absurd (full refl) | inr e ↦ absurd (ground arith) ],
  omega arith,
)
recover_middleware-wire_of [] false = (λ e h. absurd (ground arith), λ h. refl, refl)
