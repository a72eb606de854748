-- ===== src/Serial.antt =====
-- transport/serial.go: the transport over a serial port. The port, its scanner, the clock and the
-- other goroutines are a world `W`; `closed` reads whether `done` is closed.
mod Shared
pub mod Reading
pub mod Reader
pub mod Lines
pub mod Objects
pub mod Recovery
pub mod Roundtrip
pub mod Contract
pub mod Handshake
pub mod Regained
mod Tests
unfoldable pub use Shared.*
use bramble_go.Prelude.{
  ℕ, zero, suc, Bool, true, false, List, [], ◌∷◌, ◌++◌, Option, none, some, Bytes, codes, Result,
  ok, err, if◌then◌else◌, is_empty,
}
use bramble_go.Text.{cut_prefix, trim_space}
use bramble_go.Json.{Json}
use bramble_go.Transport.Request.{build_auth_request}
use bramble_go.Transport.{
  Refusal, not_connected, closed, reconnecting, AuthResponse, AuthError, validate_auth_response,
}
use bramble_go.Scanner.{ScanError, Scanned, token, stopped}
use bramble_go.Backoff.{Outcome, up, shut, out_of_fuel, retry}

-- A line that starts with a brace, trimmed; any other line is a log line or a prompt.
unfoldable pub json_line : Bytes → Option Bytes
json_line text =
    let line = trim_space text in
    elim (cut_prefix line (codes "{")) [ none ↦ none | some s ↦ some line ]

module _ {C : Type 0} where
  -- what `reconnect` does before its loop
  unfoldable pub lose : Serial C → Serial C
  lose s = record s { conn = none; is_reconnecting = true; called = s.called ++ on_disconnect ∷ [] }

  -- a line for `recvCh`, unless it is skipped
  unfoldable pub keep : Option Bytes → Serial C → Serial C
  keep none s = s
  keep (some line) s = record s { recv = s.recv ++ line ∷ [] }

module _ {W C : Type 0} where
  -- what `reconnect` does behind its loop
  unfoldable pub recovered : Serial C → Outcome C × W → Outcome (Unit {0}) × (Serial C × W)
  recovered s (up c, w) = (
    up tt,
    (
      record s { conn = some c; is_reconnecting = false; called = s.called ++ on_reconnect ∷ [] },
      w,
    ),
  )
  recovered s (shut, w) = (shut, (record s { is_reconnecting = false }, w))
  recovered s (out_of_fuel, w) = (out_of_fuel, (s, w))

module _ {F W C : Type 0} (port : Port W C) (marshal : Json F → Option Bytes)
    (unmarshal : Bytes → Option AuthResponse) where
  open port use {open_port, write, close_port, new_scanner, scan, sleep, is_closed, takes_line}

  sent_auth : Result Bytes (Unit {0}) × W → Result Error (Unit {0}) × W
  sent_auth (ok u, w) = (ok tt, w)
  sent_auth (err e, w) = (err (auth_write_failed e), w)

  -- `sendAuth`, on what `buildAuthRequest` returns
  send_auth : C → Option Bytes → W → Result Error (Unit {0}) × W
  unfolding sent_auth
  send_auth c none w = (err marshal_failed, w)
  send_auth c (some req) w = sent_auth (write c (req ++ 0x0a ∷ []) w)

  auth_answer : Result AuthError (Unit {0}) → Result Error (Unit {0})
  auth_answer (ok u) = ok tt
  auth_answer (err e) = err (auth_invalid e)

  -- a line of the answer; `rest` reads the lines behind it
  auth_line : (W → Result Error (Unit {0}) × W) → Option Bytes → W → Result Error (Unit {0}) × W
  unfolding auth_answer
  auth_line rest none w = rest w
  auth_line rest (some line) w = (auth_answer (validate_auth_response (unmarshal line)), w)

  auth_scanned : (W → Result Error (Unit {0}) × W) → Scanned × W → Result Error (Unit {0}) × W
  unfolding auth_line
  auth_scanned rest (token text, w) = auth_line rest (json_line text) w
  auth_scanned rest (stopped none, w) = (err auth_empty, w)
  auth_scanned rest (stopped (some e), w) = (err (auth_read_failed e), w)

  -- `readAuthResponse`: how many lines come before the answer is up to the node, so that the loop
  -- is on fuel.
  unfoldable pub read_auth_response : ℕ → W → Result Error (Unit {0}) × W
  unfolding auth_scanned
  read_auth_response zero w = (err auth_pending, w)
  read_auth_response (suc fuel) w = auth_scanned (read_auth_response fuel) (scan w)

  auth_sent : ℕ → Result Error (Unit {0}) × W → Result Error (Unit {0}) × W
  auth_sent fuel (ok u, w) = read_auth_response fuel w
  auth_sent fuel (err e, w) = (err e, w)

  unfoldable pub authenticate : ℕ → Bytes → C → W → Result Error (Unit {0}) × W
  unfolding auth_sent send_auth
  authenticate fuel auth_token c w =
      if is_empty auth_token
      then (ok tt, w)
      else auth_sent fuel (send_auth c (build_auth_request marshal auth_token) w)

  -- What `Connect` does behind `authenticate`. The reader is `reader` in Serial/Reading.
  connect_authenticated :
      C → Serial C → Result Error (Unit {0}) × W → Result Error (Unit {0}) × (Serial C × W)
  connect_authenticated c s (ok u, w) = (ok tt, (record s { conn = some c }, w))
  connect_authenticated c s (err e, w) = (err e, (record s { conn = none }, close_port c w))

  connect_opened : ℕ → Serial C → Option C × W → Result Error (Unit {0}) × (Serial C × W)
  unfolding connect_authenticated
  connect_opened fuel s (none, w) = (err open_failed, (s, w))
  connect_opened fuel s (some c, w) =
      connect_authenticated c s (authenticate fuel s.auth_token c (new_scanner c w))

  unfoldable pub connect : ℕ → Serial C → W → Result Error (Unit {0}) × (Serial C × W)
  unfolding connect_opened
  connect fuel s w = connect_opened fuel s (open_port (serial_mode s.baud) w)

  -- An attempt of `reconnect`: a connection that does not pass the handshake is closed again.
  attempt_authenticated : C → Result Error (Unit {0}) × W → Option C × W
  attempt_authenticated c (ok u, w) = (some c, w)
  attempt_authenticated c (err e, w) = (none, close_port c w)

  attempt_opened : ℕ → Bytes → Option C × W → Option C × W
  unfolding attempt_authenticated
  attempt_opened fuel auth_token (none, w) = (none, w)
  attempt_opened fuel auth_token (some c, w) =
      attempt_authenticated c (authenticate fuel auth_token c (new_scanner c w))

  unfoldable pub attempt : ℕ → Serial C → W → Option C × W
  unfolding attempt_opened
  attempt fuel s w = attempt_opened fuel s.auth_token (open_port (serial_mode s.baud) w)

  pub close_conn : Option C → W → W
  close_conn none w = w
  close_conn (some c) w = close_port c w

  -- `reconnect`, which returns nil (`up`) or `ErrClosed` (`shut`); only the reader calls it, so
  -- that `is_reconnecting` is false at its start. `fuel` bounds the attempts, `lines` the lines of
  -- a handshake.
  unfoldable pub reconnect : ℕ → ℕ → Serial C → W → Outcome (Unit {0}) × (Serial C × W)
  unfolding lose recovered close_conn
  reconnect fuel lines s w =
      if s.is_reconnecting
      then (up tt, (s, w))
      else recovered (lose s)
          (retry is_closed sleep (attempt lines (lose s)) fuel 1 (close_conn s.conn w))

  wrote : Result Bytes (Unit {0}) × W → Result Error (Unit {0}) × W
  wrote (ok u, w) = (ok tt, w)
  wrote (err e, w) = (err (write_failed e), w)

  unfoldable pub send_to : Option C → Bytes → W → Result Error (Unit {0}) × W
  unfolding wrote
  send_to none text w = (err (refused not_connected), w)
  send_to (some c) text w = wrote (write c (text ++ 0x0a ∷ []) w)

  unfoldable pub send : Serial C → Bytes → W → Result Error (Unit {0}) × W
  unfolding send_to
  send s text w =
      if s.is_reconnecting then (err (refused reconnecting), w) else send_to s.conn text w

  -- `Close`, the first time; `done` is closed in the world.
  unfoldable pub close : (W → W) → Serial C → W → W
  unfolding close_conn
  close close_done s w = close_conn s.conn (close_done w)

-- The case of `Receive`'s `select` that is ready.
pub data Ready : Type 0 where
  line_ready : Bytes → Ready
  fault_ready : Error → Ready
  context_ready done_ready : Ready

pub receive : Ready → Result Error Bytes
receive (line_ready text) = ok text
receive (fault_ready e) = err e
receive context_ready = err context_ended
receive done_ready = err (refused closed)
