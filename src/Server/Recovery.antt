-- ===== src/Server/Recovery.antt =====
-- internal/server/server.go: `recoverMiddleware` with its responseTracker, and the statusWriter that
-- logs and metrics read. A handler is what it does to the response until it returns or panics.
pub mod Panics
mod Tests
use Prim.Native.String.{len}
use c3x_pricing_api.Base.{
  ℕ, ◌+◌, String, Option, none, some, List, [], ◌∷◌, ◌++◌, Bool, true, false, not, ◌&&◌,
  if◌then◌else◌,
}

pub data Action : Type 0 where
  write_header : ℕ → Action
  write_body : String → Action

pub record Handler : Type 0 where
  pub actions : List Action
  pub panics : Bool

-- The response of net/http: the first header counts, and a write without one sends 200.
pub record Wire : Type 0 where
  pub sent : Option ℕ
  pub body : List String

abbrev pub send : ℕ → Wire → Wire
send code w = elim w.sent [ none ↦ record w { sent = some code } | some first ↦ w ]

abbrev pub send_body : String → Wire → Wire
send_body p w = let w' = send 200 w in record w' { body = w'.body ++ p ∷ [] }

-- statusWriter over the response.
pub record StatusWriter : Type 0 where
  pub wire : Wire
  pub status : ℕ
  pub bytes : ℕ

abbrev pub status_write_header : ℕ → StatusWriter → StatusWriter
status_write_header code w = record w { wire = send code w.wire; status = code }

abbrev pub status_write : String → StatusWriter → StatusWriter
status_write p w = record w { wire = send_body p w.wire; bytes = w.bytes + len p }

-- responseTracker over the statusWriter.
pub record ResponseTracker : Type 0 where
  pub writer : StatusWriter
  pub header_written : Bool

unfoldable pub act : Action → ResponseTracker → ResponseTracker
act (write_header code) rt = record {
  writer = status_write_header code rt.writer;
  header_written = true;
}
act (write_body p) rt = record { writer = status_write p rt.writer; header_written = true }

unfoldable pub act_all : List Action → ResponseTracker → ResponseTracker
act_all [] rt = rt
act_all (a ∷ actions) rt = act_all actions (act a rt)

abbrev pub internal_error : String
internal_error = "{\"error\":\"internal server error\",\"error_code\":\"internal_error\"}"

-- The deferred function, after a panic.
recover : ResponseTracker → StatusWriter
recover rt =
    if rt.header_written
    then rt.writer
    else status_write internal_error (status_write_header 500 rt.writer)

-- A panic does not leave the middleware: it always returns.
unfoldable pub recover_middleware : Handler → StatusWriter → StatusWriter
unfolding recover
recover_middleware next w =
    let rt = act_all next.actions (record { writer = w; header_written = false }) in
    if next.panics then recover rt else rt.writer

abbrev pub new_writer : StatusWriter
new_writer = record { wire = record { sent = none; body = [] }; status = 200; bytes = 0 }
