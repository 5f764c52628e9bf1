-- ===== src/Server/Gzip.antt =====
-- internal/server/gzip.go: gzipResponseWriter, as the state machine that it is. The status is set
-- before the first write. A write to the connection may fail, also because the status forbids a
-- body; a gzip stream is what goes into it.
pub mod Accepts
pub mod Accepted
pub mod Phases
pub mod Delivery
use Prim.Native.String.{len}
use c3x_pricing_api.Base.{
  ℕ, String, List, [], ◌∷◌, ◌++◌, Bool, true, false, not, ltb, leb, ◌==◌, str_eq, ◌&&◌, ◌||◌,
  if◌then◌else◌, ◌<>◌, is_empty,
}

-- What goes to the connection, directly or through the compressor.
pub data Part : Type 0 where
  plain zipped : String → Part

-- `content_encoding` and `content_length` are headers of the response, and the `sent` fields
-- are those that went out; `compressing` tells whether there is a compressor.
pub record Writer : Type 0 where
  pub min_size : ℕ
  pub status : ℕ
  pub wrote_header : Bool
  pub buf : String
  pub pass_through : Bool
  pub compressing : Bool
  pub content_encoding : String
  pub content_length : String
  pub sent_status : ℕ
  pub sent_encoding : String
  pub body : List Part

abbrev pub body_forbidden : ℕ → Bool
body_forbidden status = status == 204 || status == 304 || (leb 100 status && ltb status 200)

-- What the writer meets: whether Content-Length is a number below the minimum, whether the connection
-- takes a part after those that it took, and whether the compressor can be closed.
pub record Connection : Type 0 where
  pub is_small : ℕ → String → Bool
  pub takes : List Part → Part → Bool
  pub closes : List Part → Bool

abbrev pub emit : Part → Writer → Writer
emit part g = record g { body = g.body ++ part ∷ [] }

-- A write; false is an error, and then nothing went out.
unfoldable pub pass_on : Connection → Part → Writer → Writer × Bool
pass_on conn part g = if conn.takes g.body part then (emit part g, true) else (g, false)

unfoldable pub write_header_now : Writer → Writer
write_header_now g = if g.wrote_header then g else record g {
  wrote_header = true;
  sent_status = if g.status == 0 then 200 else g.status;
  sent_encoding = g.content_encoding;
}

unfoldable pub start_gzip : Writer → Writer
start_gzip g =
    record (write_header_now (record g { content_encoding = "gzip"; content_length = "" })) {
      compressing = true;
    }

-- After an error the buffer stays as it is.
unfoldable pub flush_buf : Connection → Writer → Writer × Bool
flush_buf conn g =
    if is_empty g.buf
    then (g, true)
    else (let (g', done) = pass_on conn (plain g.buf) g in
        ((if done then record g' { buf = "" } else g'), done))

-- Gives up compressing: what is buffered goes out first.
unfoldable pub bail_out : Connection → String → Writer → Writer × Bool
bail_out conn p g =
    let (g', done) = flush_buf conn (write_header_now (record g { pass_through = true })) in
    if done then pass_on conn (plain p) g' else (g', false)

-- The compressor's error does not keep the buffer.
unfoldable pub buffer : Connection → String → Writer → Writer × Bool
buffer conn p g =
    let buf = g.buf <> p in
    if ltb (len buf) g.min_size
    then (record g { buf = buf }, true)
    else (let (g', done) = pass_on conn (zipped buf) (start_gzip g) in
        (record g' { buf = "" }, done))

unfoldable pub write_open : Connection → String → Writer → Writer × Bool
write_open conn p g =
    if g.pass_through
    then pass_on conn (plain p) (write_header_now g)
    else if g.compressing
    then pass_on conn (zipped p) g
    else if not (str_eq g.content_encoding "") || conn.is_small g.min_size g.content_length
    then bail_out conn p g
    else buffer conn p g

-- False is the error that the handler sees.
-- A status that forbids a body ends the buffering before it begins.
unfoldable pub skip_body : Writer → Writer
skip_body g =
    if not g.pass_through && not g.compressing && body_forbidden g.status
    then record g { pass_through = true }
    else g

-- False is the error that the handler sees.
unfoldable pub write : Connection → String → Writer → Writer × Bool
write conn p g = write_open conn p (skip_body g)

unfoldable pub close : Connection → Writer → Writer × Bool
close conn g =
    if g.compressing
    then (record g { compressing = false }, conn.closes g.body)
    else (let (g', done) = flush_buf conn (write_header_now (record g { pass_through = true })) in
        (record g' { buf = "" }, done))

-- What a handler does to a response, once its status is set.
pub data Event : Type 0 where
  set_encoding set_length body_part : String → Event

-- Handlers go on after an error.
unfoldable pub step : Connection → Event → Writer → Writer
step conn (set_encoding v) g = record g { content_encoding = v }
step conn (set_length v) g = record g { content_length = v }
step conn (body_part p) g = (write conn p g).0

unfoldable pub run : Connection → List Event → Writer → Writer
run conn [] g = (close conn g).0
run conn (e ∷ events) g = run conn events (step conn e g)

abbrev pub opened : ℕ → ℕ → Writer
opened min_size status = record {
  min_size = min_size;
  status = status;
  wrote_header = false;
  buf = "";
  pass_through = false;
  compressing = false;
  content_encoding = "";
  content_length = "";
  sent_status = 0;
  sent_encoding = "";
  body = [];
}
