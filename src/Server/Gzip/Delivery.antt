-- ===== src/Server/Gzip/Delivery.antt =====
-- The client receives what the handler wrote, in the encoding that the header names.
use text.Mathlib.TextLemmas.{nil-append, append_assoc, append-nil}
use Prim.Native.String.{len}
use c3x_pricing_api.Base.{
  ℕ, ◌≡◌, refl, sym, ap, subst, ◌∙◌, ◌⊎◌, inl, inr, String, List, [], ◌∷◌, ◌++◌, Bool, true, false,
  ltb, ◌<>◌, All, All-append, arith, Bool-cases,
}
use c3x_pricing_api.Server.Gzip.Accepted.{
  TakesAll, flushed, bailed, buffered, close_open, close_zipped,
}
use c3x_pricing_api.Server.Gzip.{
  zipped, Writer, body_forbidden, write_header_now, start_gzip, Connection, write, close, Event,
  set_encoding, set_length, body_part, step, run, opened,
}
use c3x_pricing_api.Server.Gzip.Phases.{
  contents_emit, write_passing, write_zipping, write_forbidden, write_waiting, renew,
  write_header_now-Passes, emit-Passes, opened_header-Passes, Passes, Holds, waiting, passing,
  zipping, contents, IsPlain, IsZipped, written,
}

bailed-Passes :
    (p text : String) (g : Writer)
    → g.compressing ≡ false
    → g.body ≡ []
    → g.buf ≡ text
    → Passes (text <> p) (bailed p g)
unfolding bailed
bailed-Passes p text g b body buf = emit-Passes p text _ (opened_header-Passes text g b body buf)

start_gzip_fresh :
    (g : Writer)
    → g.wrote_header ≡ false
    → ((start_gzip g).sent_encoding ≡ "gzip")
      × ((start_gzip g).pass_through ≡ g.pass_through)
      × ((start_gzip g).compressing ≡ true)
      × ((start_gzip g).body ≡ g.body)
unfolding start_gzip write_header_now
start_gzip_fresh g new = rw new (refl, refl, refl, refl)

buffered-Holds :
    (p text : String) (g : Writer)
    → g.pass_through ≡ false
    → g.compressing ≡ false
    → g.wrote_header ≡ false
    → g.body ≡ []
    → g.buf ≡ text
    → body_forbidden g.status ≡ false
    → Holds (text <> p) (buffered p g)
unfolding buffered
buffered-Holds p text g a b w body buf f = elim (Bool-cases (ltb (len (g.buf <> p)) g.min_size)) [
  | inl few ↦ rw few (
      waiting a b w body (ap (λ x. x <> p) buf)
        (λ forbidden. absurd (ground (arith, f, forbidden))))
  | inr many ↦
      let (encoding, pass, compressing, body') = start_gzip_fresh g w in
      let all = body' ∙ body in
      rw many (
        zipping (pass ∙ a) compressing refl
          (ap (λ ps. contents (ps ++ zipped (g.buf <> p) ∷ [])) all
            ∙ append-nil (g.buf <> p)
            ∙ ap (λ x. x <> p) buf)
          (subst (λ ps. All IsZipped (ps ++ zipped (g.buf <> p) ∷ [])) (sym all) (_, _)) encoding)
]

write-Holds :
    (conn : Connection) (all : TakesAll conn) (p text : String) (g : Writer)
    → Holds text g
    → Holds (text <> p) (write conn p g).0
write-Holds conn all p text g (passing h) =
    subst (λ (r : Writer × Bool). Holds (text <> p) r.0)
      (sym (write_passing conn all p g h.through))
      (passing (emit-Passes p text (write_header_now g) (write_header_now-Passes text g h)))
write-Holds conn all p text g (zipping a b c d e f) =
    subst (λ (r : Writer × Bool). Holds (text <> p) r.0) (sym (write_zipping conn all p g a b))
      (zipping a b c (contents_emit g.body (zipped p) text d)
        (All-append IsZipped g.body (zipped p ∷ []) e (_, _)) f)
write-Holds conn all p text g (waiting a b w body buf f) =
    elim (Bool-cases (body_forbidden g.status)) [
      | inl forbidden ↦
          let none' = f forbidden in
          let g' = record g { pass_through = true } in
          let start : Passes text g' = record {
            through = refl;
            uncompressed = b;
            unbuffered = buf ∙ none';
            delivered = ap contents body ∙ sym none';
            all_plain = subst (All IsPlain) (sym body) _;
          } in
          subst (λ (r : Writer × Bool). Holds (text <> p) r.0)
            (sym (write_forbidden conn all p g a b forbidden))
            (passing
              (emit-Passes p text (write_header_now g') (write_header_now-Passes text g' start)))
      | inr allowed ↦ elim (write_waiting conn all p g a b allowed) [
        | inl e ↦
            subst (λ (r : Writer × Bool). Holds (text <> p) r.0) (sym e)
              (passing (bailed-Passes p text g b body buf))
        | inr e ↦
            subst (λ (r : Writer × Bool). Holds (text <> p) r.0) (sym e)
              (buffered-Holds p text g a b w body buf allowed)
      ]
    ]

-- What the client is left with.
abbrev pub IsDelivered : String → Writer → Type 0
IsDelivered text g =
    (contents g.body ≡ text)
    × (((g.sent_encoding ≡ "gzip") × All IsZipped g.body) ⊎ All IsPlain g.body)

flushed_empty : (g : Writer) → g.buf ≡ "" → flushed g ≡ g
unfolding flushed
flushed_empty g h = rw h refl

flush_passed-Passes :
    (text : String) (g : Writer)
    → Passes text g
    → Passes text (flushed (write_header_now (record g { pass_through = true })))
flush_passed-Passes text g h =
    let g' = record g { pass_through = true } in
    let passed = write_header_now-Passes text g' (renew h (sym h.through, refl, refl, refl)) in
    subst (Passes text) (sym (flushed_empty (write_header_now g') passed.unbuffered)) passed

emptied-Passes : (text : String) (g : Writer) → Passes text g → Passes text (record g { buf = "" })
emptied-Passes text g h = renew h (refl, refl, sym h.unbuffered, refl)

Passes-IsDelivered : (text : String) (g : Writer) → Passes text g → IsDelivered text g
Passes-IsDelivered text g h = (h.delivered, inr h.all_plain)

close-IsDelivered :
    (conn : Connection) (all : TakesAll conn) (text : String) (g : Writer)
    → Holds text g
    → IsDelivered text (close conn g).0
close-IsDelivered conn all text g (waiting a b w body buf f) =
    subst (IsDelivered text) (sym (close_open conn all g b))
      (Passes-IsDelivered text _ (emptied-Passes text _ (opened_header-Passes text g b body buf)))
close-IsDelivered conn all text g (zipping a b c d e f) =
    subst (IsDelivered text) (sym (close_zipped conn all g b)) (d, inl (f, e))
close-IsDelivered conn all text g (passing h) =
    subst (IsDelivered text) (sym (close_open conn all g h.uncompressed))
      (Passes-IsDelivered text _ (emptied-Passes text _ (flush_passed-Passes text g h)))

run-IsDelivered :
    (conn : Connection) (all : TakesAll conn) (events : List Event) (text : String) (g : Writer)
    → Holds text g
    → IsDelivered (text <> written events) (run conn events g)
unfolding run step
run-IsDelivered conn all [] text g h =
    subst (λ t. IsDelivered t (close conn g).0) (sym (append-nil text))
      (close-IsDelivered conn all text g h)
run-IsDelivered conn all (body_part p ∷ events) text g h =
    subst (λ t. IsDelivered t (run conn events (write conn p g).0))
      (append_assoc text p (written events))
      (run-IsDelivered conn all events (text <> p) (write conn p g).0
        (write-Holds conn all p text g h))
run-IsDelivered conn all (set_encoding v ∷ events) text g (waiting a b c d e f) =
    run-IsDelivered conn all events text (record g { content_encoding = v }) (waiting a b c d e f)
run-IsDelivered conn all (set_encoding v ∷ events) text g (zipping a b c d e f) =
    run-IsDelivered conn all events text (record g { content_encoding = v }) (zipping a b c d e f)
run-IsDelivered conn all (set_encoding v ∷ events) text g (passing h) =
    run-IsDelivered conn all events text (record g { content_encoding = v })
      (passing (renew h (refl, refl, refl, refl)))
run-IsDelivered conn all (set_length v ∷ events) text g (waiting a b c d e f) =
    run-IsDelivered conn all events text (record g { content_length = v }) (waiting a b c d e f)
run-IsDelivered conn all (set_length v ∷ events) text g (zipping a b c d e f) =
    run-IsDelivered conn all events text (record g { content_length = v }) (zipping a b c d e f)
run-IsDelivered conn all (set_length v ∷ events) text g (passing h) =
    run-IsDelivered conn all events text (record g { content_length = v })
      (passing (renew h (refl, refl, refl, refl)))

-- Whatever a handler sets and writes after its status, if the connection takes every part that it is
-- given: once the response is closed the client has all that was written, in order and once, either
-- all of it as it is, or all of it compressed under a header that says gzip.
pub run-opened-IsDelivered :
    (conn : Connection) (min_size status : ℕ) (events : List Event)
    → TakesAll conn
    → IsDelivered (written events) (run conn events (opened min_size status))
run-opened-IsDelivered conn min_size status events all =
    subst (λ t. IsDelivered t (run conn events (opened min_size status)))
      (nil-append (written events))
      (run-IsDelivered conn all events "" (opened min_size status)
        (waiting refl refl refl refl refl (λ forbidden. refl)))
