-- ===== src/Server/Gzip/Phases.antt =====
-- What the writer has done with a text: buffered, passed on, or compressed it.
use text.Mathlib.TextLemmas.{nil-append, append_assoc, append-nil}
use c3x_pricing_api.Base.{
  ◌≡◌, refl, sym, ap, subst, ◌∙◌, ◌⊎◌, inl, inr, String, List, [], ◌∷◌, ◌++◌, true, false, not,
  str_eq, ◌&&◌, ◌||◌, ◌<>◌, is_empty, All, All-append, arith, Bool-cases,
}
use c3x_pricing_api.Server.Gzip.Accepted.{
  on_true, on_false, TakesAll, flushed, bailed, buffered, pass_on_lem, bail_out_lem, buffer_lem,
}
use c3x_pricing_api.Server.Gzip.{
  Part, plain, zipped, Writer, Connection, body_forbidden, write_header_now, write_open, skip_body,
  write, Event, set_encoding, set_length, body_part, emit,
}

abbrev pub content : Part → String
content (plain s) = s
content (zipped s) = s

-- The body after decompression.
abbrev pub contents : List Part → String
contents [] = ""
contents (p ∷ ps) = content p <> contents ps

abbrev pub IsPlain : Part → Type 0
IsPlain (plain s) = Unit
IsPlain (zipped s) = ⊥

abbrev pub IsZipped : Part → Type 0
IsZipped (plain s) = ⊥
IsZipped (zipped s) = Unit

-- What the handler wrote.
abbrev pub written : List Event → String
written [] = ""
written (body_part p ∷ events) = p <> written events
written (set_encoding v ∷ events) = written events
written (set_length v ∷ events) = written events

-- All of the text written so far has been passed on.
pub record Passes (text : String) (g : Writer) : Type 0 where
  pub through : g.pass_through ≡ true
  pub uncompressed : g.compressing ≡ false
  pub unbuffered : g.buf ≡ ""
  pub delivered : contents g.body ≡ text
  pub all_plain : All IsPlain g.body

-- What the writer has done with the text written so far: it buffers all of it, has passed all of it
-- on, or has compressed all of it, under a header that says so.
pub data Holds (text : String) (g : Writer) : Type 0 where
  waiting :
      g.pass_through ≡ false
      → g.compressing ≡ false
      → g.wrote_header ≡ false
      → g.body ≡ []
      → g.buf ≡ text
      → (body_forbidden g.status ≡ true → text ≡ "")
      → Holds text g
  passing : Passes text g → Holds text g
  zipping :
      g.pass_through ≡ false
      → g.compressing ≡ true
      → g.buf ≡ ""
      → contents g.body ≡ text
      → All IsZipped g.body
      → g.sent_encoding ≡ "gzip"
      → Holds text g

contents-append : (ps : List Part) (p : Part) → contents (ps ++ p ∷ []) ≡ contents ps <> content p
contents-append [] p = append-nil (content p) ∙ sym (nil-append (content p))
contents-append (q ∷ ps) p =
    ap (λ x. content q <> x) (contents-append ps p)
    ∙ sym (append_assoc (content q) (contents ps) (content p))

pub contents_emit :
    (ps : List Part) (p : Part) (text : String)
    → contents ps ≡ text
    → contents (ps ++ p ∷ []) ≡ text <> content p
contents_emit ps p text e = contents-append ps p ∙ ap (λ x. x <> content p) e

skip_body-keeps :
    (g : Writer)
    → not g.pass_through && not g.compressing && body_forbidden g.status ≡ false
    → skip_body g ≡ g
unfolding skip_body
skip_body-keeps g h = on_false _ _ h

skip_body-skips :
    (g : Writer)
    → not g.pass_through && not g.compressing && body_forbidden g.status ≡ true
    → skip_body g ≡ record g { pass_through = true }
unfolding skip_body
skip_body-skips g h = on_true _ _ h

module _ (conn : Connection) (all : TakesAll conn) (p : String) (g : Writer) where
  pub write_passing :
      g.pass_through ≡ true → write conn p g ≡ (emit (plain p) (write_header_now g), true)
  unfolding write write_open
  write_passing h =
      ap (write_open conn p) (skip_body-keeps g (rw h refl))
      ∙ on_true _ _ h
      ∙ pass_on_lem conn all (plain p) (write_header_now g)

  pub write_zipping :
      g.pass_through ≡ false → g.compressing ≡ true → write conn p g ≡ (emit (zipped p) g, true)
  unfolding write write_open
  write_zipping h k =
      ap (write_open conn p) (skip_body-keeps g (rw (h, k) refl))
      ∙ on_false _ _ h
      ∙ on_true _ _ k
      ∙ pass_on_lem conn all (zipped p) g

  pub write_forbidden :
      g.pass_through ≡ false
      → g.compressing ≡ false
      → body_forbidden g.status ≡ true
      → write conn p g
        ≡ (emit (plain p) (write_header_now (record g { pass_through = true })), true)
  unfolding write write_open
  write_forbidden h k f =
      ap (write_open conn p) (skip_body-skips g (rw (h, k, f) refl))
      ∙ pass_on_lem conn all (plain p) (write_header_now (record g { pass_through = true }))

  pub write_waiting :
      g.pass_through ≡ false
      → g.compressing ≡ false
      → body_forbidden g.status ≡ false
      → (write conn p g ≡ (bailed p g, true)) ⊎ (write conn p g ≡ (buffered p g, true))
  unfolding write write_open
  write_waiting h k f =
      let start =
        ap (write_open conn p) (skip_body-keeps g (rw (h, k, f) refl))
        ∙ on_false _ _ h
        ∙ on_false _ _ k in
      elim (Bool-cases
        (not (str_eq g.content_encoding "") || conn.is_small g.min_size g.content_length)) [
          | inl bail ↦ inl (start ∙ on_true _ _ bail ∙ bail_out_lem conn all p g)
          | inr go ↦ inr (start ∙ on_false _ _ go ∙ buffer_lem conn all p g)
        ]

-- Sending the header changes nothing else.
write_header_now_keeps :
    (g : Writer)
    → ((write_header_now g).pass_through ≡ g.pass_through)
      × ((write_header_now g).compressing ≡ g.compressing)
      × ((write_header_now g).buf ≡ g.buf)
      × ((write_header_now g).body ≡ g.body)
unfolding write_header_now
write_header_now_keeps g = elim (Bool-cases g.wrote_header) [
  | inl sent ↦ rw sent (refl, refl, refl, refl)
  | inr new ↦ rw new (refl, refl, refl, refl)
]

-- A writer with other headers.
pub renew :
    {text : String} {g g' : Writer}
    → Passes text g
    → (g'.pass_through ≡ g.pass_through)
      × (g'.compressing ≡ g.compressing)
      × (g'.buf ≡ g.buf)
      × (g'.body ≡ g.body)
    → Passes text g'
renew h (pass, compressing, buf, body) = record {
  through = pass ∙ h.through;
  uncompressed = compressing ∙ h.uncompressed;
  unbuffered = buf ∙ h.unbuffered;
  delivered = ap contents body ∙ h.delivered;
  all_plain = subst (All IsPlain) (sym body) h.all_plain;
}

pub write_header_now-Passes :
    (text : String) (g : Writer) → Passes text g → Passes text (write_header_now g)
write_header_now-Passes text g h = renew h (write_header_now_keeps g)

pub emit-Passes :
    (p text : String) (g : Writer) → Passes text g → Passes (text <> p) (emit (plain p) g)
emit-Passes p text g h = record {
  through = h.through;
  uncompressed = h.uncompressed;
  unbuffered = h.unbuffered;
  delivered = contents_emit g.body (plain p) text h.delivered;
  all_plain = All-append IsPlain g.body (plain p ∷ []) h.all_plain (_, _);
}

is_empty-eq : (s : String) → is_empty s ≡ true → s ≡ ""
is_empty-eq String.[] h = refl
is_empty-eq (String.◌∷◌ c s) h = absurd (ground arith)

flushed-Passes :
    (text : String) (g : Writer)
    → g.pass_through ≡ true
    → g.compressing ≡ false
    → g.body ≡ []
    → g.buf ≡ text
    → Passes text (flushed g)
unfolding flushed
flushed-Passes text g a b body buf = elim (Bool-cases (is_empty g.buf)) [
  | inl blank ↦ rw blank (record {
    through = a;
    uncompressed = b;
    unbuffered = is_empty-eq g.buf blank;
    delivered = ap contents body ∙ sym (is_empty-eq g.buf blank) ∙ buf;
    all_plain = subst (All IsPlain) (sym body) _;
  })
  | inr full ↦ rw full (record {
    through = a;
    uncompressed = b;
    unbuffered = refl;
    delivered = ap (λ ps. contents (ps ++ plain g.buf ∷ [])) body ∙ append-nil g.buf ∙ buf;
    all_plain = subst (λ ps. All IsPlain (ps ++ plain g.buf ∷ [])) (sym body) (_, _);
  })
]

pub opened_header-Passes :
    (text : String) (g : Writer)
    → g.compressing ≡ false
    → g.body ≡ []
    → g.buf ≡ text
    → Passes text (flushed (write_header_now (record g { pass_through = true })))
opened_header-Passes text g b body buf =
    let g' = record g { pass_through = true } in
    let (pass, compressing, buf', body') = write_header_now_keeps g' in
    flushed-Passes text (write_header_now g') pass (compressing ∙ b) (body' ∙ body) (buf' ∙ buf)
