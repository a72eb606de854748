-- ===== src/WebSocket.antt =====
-- transport/websocket.go: the transport over a WebSocket. Dialling, reading, writing and the clock
-- are a world `W`; `closed` reads whether `done` is closed.
pub mod Loops
pub mod Recovery
pub mod Contract
mod Tests
use bramble_go.Prelude.{
  ℕ, ◌*◌, zero, suc, Bool, true, false, not, ◌&&◌, ◌||◌, List, [], ◌∷◌, ◌++◌, Option, none, some,
  Bytes, codes, ℤ, negsuc, eq_int, Result, ok, err, if◌then◌else◌, is_empty,
}
use bramble_go.Prelude.Maybe
use bramble_go.Text.{to_lower, search}
use bramble_go.Transport.{Refusal, not_connected, closed, reconnecting}
use bramble_go.Backoff.{Outcome, up, shut, out_of_fuel, retry}

-- An error of the third-party package: whether it is `net.ErrClosed`, its `CloseStatus`, and its
-- text.
pub record SocketError : Type 0 where
  pub net_closed : Bool
  pub close_status : ℤ
  pub text : Bytes

pub data Error : Type 0 where
  dial_failed write_failed : SocketError → Error
  refused : Refusal → Error
  reconnect_failed : Refusal → Error
  context_ended : Error

pub data Callback : Type 0 where
  on_disconnect on_reconnect : Callback

abbrev pub read_limit : ℕ
read_limit = 512 * 1024

-- `DialOptions`: the header that is sent
abbrev pub dial_options : Bytes → List (Bytes × Bytes)
dial_options auth_token =
    if is_empty auth_token then [] else (codes "Authorization", codes "Bearer " ++ auth_token) ∷ []

unfoldable pub should_reconnect_write_err : SocketError → Bool
unfolding to_lower search
should_reconnect_write_err e =
    let s = to_lower e.text in
    e.net_closed
    || not (eq_int e.close_status (negsuc 0))
    || search s (codes "closed network connection")
    || search s (codes "broken pipe")
    || search s (codes "connection reset by peer")

-- `WebSocket`; `called` lists the calls of the callbacks.
pub record WebSocket (C : Type 0) : Type 0 where
  pub url : Bytes
  pub auth_token : Bytes
  pub conn : Option C
  pub is_reconnecting : Bool
  pub called : List Callback

-- `NewWebSocket` with a token
abbrev pub new_web_socket : {C : Type 0} → Bytes → Bytes → WebSocket C
new_web_socket url auth_token = record {
  url = url;
  auth_token = auth_token;
  conn = none;
  is_reconnecting = false;
  called = [];
}

-- `SetAuthToken`
abbrev pub set_auth_token : {C : Type 0} → Bytes → WebSocket C → WebSocket C
set_auth_token token s = record s { auth_token = token }

-- `Info`
abbrev pub info : {C : Type 0} → WebSocket C → Bytes
info s = codes "websocket:" ++ s.url

-- The third-party package. A dialled connection has its read limit set.
pub record Socket (W C : Type 0) : Type 0 where
  pub dial : Bytes → List (Bytes × Bytes) → W → Result SocketError C × W
  pub set_read_limit : C → ℕ → W → W
  pub write : C → Bytes → W → Result SocketError (Unit {0}) × W
  pub read : C → W → Result SocketError Bytes × W
  pub close_conn : C → W → W
  pub sleep : ℕ → W → W
  pub is_closed : W → Bool
  -- whether the context of the call has ended
  pub is_cancelled : W → Bool

module _ {C : Type 0} where
  -- the critical section at the start of `reconnect`, with the callback behind it
  unfoldable pub lose : WebSocket C → WebSocket C
  lose s = record s { is_reconnecting = true; called = s.called ++ on_disconnect ∷ [] }

  -- the one behind a dial that succeeded
  unfoldable pub regain : C → WebSocket C → WebSocket C
  regain c s = record s {
    conn = some c;
    is_reconnecting = false;
    called = s.called ++ on_reconnect ∷ [];
  }

  -- the one of a loop that finds `done` closed
  unfoldable pub give_up : WebSocket C → WebSocket C
  give_up s = record s { is_reconnecting = false }

module _ {W C : Type 0} (socket : Socket W C) where
  open socket use {dial, set_read_limit, write, read, close_conn, sleep, is_closed, is_cancelled}

  connected : WebSocket C → Result SocketError C × W → Result Error (Unit {0}) × (WebSocket C × W)
  connected s (err e, w) = (err (dial_failed e), (s, w))
  connected s (ok c, w) = (ok tt, (record s { conn = some c }, set_read_limit c read_limit w))

  unfoldable pub connect : WebSocket C → W → Result Error (Unit {0}) × (WebSocket C × W)
  unfolding connected
  connect s w = connected s (dial s.url (dial_options s.auth_token) w)

  -- What `Send` does behind its write; the Boolean is whether it has started a goroutine that
  -- runs `reconnect`.
  wrote : Result SocketError (Unit {0}) × W → Result Error (Unit {0}) × (Bool × W)
  unfolding should_reconnect_write_err
  wrote (ok u, w) = (ok tt, (false, w))
  wrote (err e, w) =
      if should_reconnect_write_err e
      then (err (refused reconnecting), (true, w))
      else (err (write_failed e), (false, w))

  unfoldable pub send_to : Option C → Bytes → W → Result Error (Unit {0}) × (Bool × W)
  unfolding wrote
  send_to none text w = (err (refused not_connected), (false, w))
  send_to (some c) text w = wrote (write c text w)

  unfoldable pub send : WebSocket C → Bytes → W → Result Error (Unit {0}) × (Bool × W)
  unfolding send_to
  send s text w =
      if s.is_reconnecting then (err (refused reconnecting), (false, w)) else send_to s.conn text w

  -- an attempt of `reconnect`
  dialled : Result SocketError C × W → Option C × W
  dialled (err e, w) = (none, w)
  dialled (ok c, w) = (some c, set_read_limit c read_limit w)

  unfoldable pub attempt : WebSocket C → W → Option C × W
  unfolding dialled
  attempt s w = dialled (dial s.url (dial_options s.auth_token) w)

  unfoldable pub recovered : WebSocket C → Outcome C × W → Outcome (Unit {0}) × (WebSocket C × W)
  unfolding regain give_up
  recovered s (up c, w) = (up tt, (regain c s, w))
  recovered s (shut, w) = (shut, (give_up s, w))
  recovered s (out_of_fuel, w) = (out_of_fuel, (s, w))

  -- `reconnect`, which returns nil (`up`) or `ErrClosed` (`shut`); `fuel` bounds the attempts.
  unfoldable pub reconnect : ℕ → WebSocket C → W → Outcome (Unit {0}) × (WebSocket C × W)
  unfolding lose recovered
  reconnect fuel s w =
      if s.is_reconnecting
      then (up tt, (s, w))
      else recovered (lose s) (retry is_closed sleep (attempt s) fuel 1 w)

  -- what `Receive` returns behind `reconnect`; `none` is a reconnect that has not ended
  after_reconnect :
      Outcome (Unit {0}) × (WebSocket C × W) → Option (Result Error Bytes) × (WebSocket C × W)
  after_reconnect (up u, r) = (some (err (refused reconnecting)), r)
  after_reconnect (shut, r) = (some (err (reconnect_failed closed)), r)
  after_reconnect (out_of_fuel, r) = (none, r)

  received :
      ℕ
      → WebSocket C
      → Result SocketError Bytes × W
      → Option (Result Error Bytes) × (WebSocket C × W)
  unfolding after_reconnect
  received fuel s (ok text, w) = (some (ok text), (s, w))
  received fuel s (err e, w) =
      if is_closed w
      then (some (err (refused closed)), (s, w))
      else if is_cancelled w
      then (some (err context_ended), (s, w))
      else after_reconnect (reconnect fuel s w)

  receive_from : ℕ → WebSocket C → Option C → W → Option (Result Error Bytes) × (WebSocket C × W)
  unfolding received
  receive_from fuel s none w = (some (err (refused not_connected)), (s, w))
  receive_from fuel s (some c) w = received fuel s (read c w)

  unfoldable pub receive : ℕ → WebSocket C → W → Option (Result Error Bytes) × (WebSocket C × W)
  unfolding receive_from
  receive fuel s w = receive_from fuel s s.conn w

  close_open : Option C → W → W
  close_open none w = w
  close_open (some c) w = close_conn c w

  -- `Close`, the first time; `close_done` closes `done`.
  unfoldable pub close : (W → W) → WebSocket C → W → W
  unfolding close_open
  close close_done s w = close_open s.conn (close_done w)
