-- ===== src/Server/Gzip/Accepted.antt =====
-- What the writer does on a connection that takes every part.
use Prim.Native.String.{len}
use c3x_pricing_api.Base.{
  ◌≡◌, refl, ap, ◌∙◌, String, List, Bool, true, false, ltb, ◌<>◌, is_empty, if◌then◌else◌,
}
use c3x_pricing_api.Server.Gzip.{
  Part, plain, zipped, Writer, Connection, emit, pass_on, write_header_now, start_gzip, flush_buf,
  bail_out, buffer, close,
}

pub on_true {ℓ} : {A : Type ℓ} {b : Bool} (x y : A) → b ≡ true → (if b then x else y) ≡ x
on_true x y h = ap (λ b. if b then x else y) h

pub on_false {ℓ} : {A : Type ℓ} {b : Bool} (x y : A) → b ≡ false → (if b then x else y) ≡ y
on_false x y h = ap (λ b. if b then x else y) h

abbrev pub TakesAll : Connection → Type 0
TakesAll conn = (ps : List Part) (p : Part) → conn.takes ps p ≡ true

unfoldable pub flushed : Writer → Writer
flushed g = if is_empty g.buf then g else record (emit (plain g.buf) g) { buf = "" }

unfoldable pub bailed : String → Writer → Writer
bailed p g = emit (plain p) (flushed (write_header_now (record g { pass_through = true })))

unfoldable pub buffered : String → Writer → Writer
buffered p g =
    let buf = g.buf <> p in
    if ltb (len buf) g.min_size
    then record g { buf = buf }
    else record (emit (zipped buf) (start_gzip g)) { buf = "" }

module _ (conn : Connection) (all : TakesAll conn) where
  pub pass_on_lem : (part : Part) (g : Writer) → pass_on conn part g ≡ (emit part g, true)
  unfolding pass_on
  pass_on_lem part g = rw (all g.body part) refl

  flush_buf-cases :
      (g : Writer) (b : Bool) → is_empty g.buf ≡ b → flush_buf conn g ≡ (flushed g, true)
  unfolding flush_buf flushed pass_on
  flush_buf-cases g true e = rw e refl
  flush_buf-cases g false e = rw (e, all g.body (plain g.buf)) refl

  pub flush_buf_lem : (g : Writer) → flush_buf conn g ≡ (flushed g, true)
  flush_buf_lem g = flush_buf-cases g (is_empty g.buf) refl

  pub bail_out_lem : (p : String) (g : Writer) → bail_out conn p g ≡ (bailed p g, true)
  unfolding bail_out bailed
  bail_out_lem p g =
      let g' = write_header_now (record g { pass_through = true }) in
      ap (λ (r : Writer × Bool). if r.1 then pass_on conn (plain p) r.0 else (r.0, false))
        (flush_buf_lem g')
      ∙ pass_on_lem (plain p) (flushed g')

  buffer-cases :
      (p : String) (g : Writer) (b : Bool)
      → ltb (len (g.buf <> p)) g.min_size ≡ b
      → buffer conn p g ≡ (buffered p g, true)
  unfolding buffer buffered
  buffer-cases p g true e = rw e refl
  buffer-cases p g false e = rw e (
      ap (λ (r : Writer × Bool). (record (r.0) { buf = "" }, r.1))
        (pass_on_lem (zipped (g.buf <> p)) (start_gzip g)))

  pub buffer_lem : (p : String) (g : Writer) → buffer conn p g ≡ (buffered p g, true)
  buffer_lem p g = buffer-cases p g (ltb (len (g.buf <> p)) g.min_size) refl

  pub close_open :
      (g : Writer)
      → g.compressing ≡ false
      → (close conn g).0
        ≡ record (flushed (write_header_now (record g { pass_through = true }))) { buf = "" }
  unfolding close
  close_open g h =
      ap (λ (r : Writer × Bool). r.0) (on_false _ _ h)
      ∙ ap (λ (r : Writer × Bool). record (r.0) { buf = "" })
          (flush_buf_lem (write_header_now (record g { pass_through = true })))

  pub close_zipped :
      (g : Writer) → g.compressing ≡ true → (close conn g).0 ≡ record g { compressing = false }
  unfolding close
  close_zipped g h = ap (λ (r : Writer × Bool). r.0) (on_true _ _ h)
