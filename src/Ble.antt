-- ===== src/Ble.antt =====
-- transport/ble.go: framing, chunked writes and the token handshake over the Nordic UART Service.
-- The device and the clock are a world `W`: what a GATT write, a wait and a `select` come to in it
-- are parameters.
pub mod Frames
pub mod Split
pub mod Auth
pub mod Retry
pub mod Roundtrip
pub mod Recovery
pub mod Link
pub mod Contract
pub mod Connect
mod Tests
use bramble_go.Prelude.{
  ◌&&◌, ℕ, ◌+◌, ◌*◌, zero, suc, Bool, true, false, ◌||◌, List, [], ◌∷◌, ◌++◌, Option, none, some,
  Bytes, codes, Result, ok, err, if◌then◌else◌, is_empty, not, ltb, leb, ◌==◌, length, take, drop,
}
use bramble_go.Text.{to_lower, search}
use bramble_go.Transport.{has_error}

-- The fields of `BLE` that sending and receiving use.
pub record Ble : Type 0 where
  pub auth_token : Bytes
  pub connected : Bool
  pub reconnecting : Bool

pub data Error : Type 0 where
  reconnecting not_connected closed : Error
  -- "bramble/transport/ble: write: %w" and the text of bluez
  write_failed : Bytes → Error
  -- the context's error
  context_ended : Error
  auth_write auth_receive auth_validate : Error → Error
  invalid_ack missing_ok : Error
  auth_failed : Bytes → Error

-- the text of an error; only the texts of the errors that `Send` returns are searched
abbrev pub message : Error → Bytes
message reconnecting = codes "bramble/transport: reconnecting"
message not_connected = codes "bramble/transport: not connected"
message closed = codes "bramble/transport: transport closed"
message (write_failed text) = codes "bramble/transport/ble: write: " ++ text
message context_ended = codes "context canceled"
message (auth_write e) = codes "bramble/transport/ble: auth write: " ++ message e
message (auth_receive e) = codes "bramble/transport/ble: auth receive: " ++ message e
message (auth_validate e) = codes "bramble/transport/ble: auth validate: " ++ message e
message invalid_ack = codes "invalid auth ack"
message missing_ok = codes "auth ack missing result.ok"
message (auth_failed text) = codes "auth failed: " ++ text

unfoldable pub is_transient_ble_write_error : Error → Bool
unfolding to_lower search
is_transient_ble_write_error e = search (to_lower (message e)) (codes "in progress")

abbrev pub ble_chunk_size : ℕ
ble_chunk_size = 240

abbrev pub ble_auth_write_retries : ℕ
ble_auth_write_retries = 5

unfoldable pub ble_auth_attempts : Bytes → ℕ
ble_auth_attempts token =
    if ltb ble_chunk_size (length token + 1) then 1 else ble_auth_write_retries

-- The lines from the device: what stands behind the last line break, and the channel `recvCh`.
pub record Lines : Type 0 where
  pub line_buf : Bytes
  pub recv : List Bytes

abbrev pub recv_capacity : ℕ
recv_capacity = 32

-- the send to `recvCh`, or its `default`; an empty line is none
abbrev pub keep_line : Bytes → List Bytes → List Bytes
keep_line line recv =
    if is_empty line
    then recv
    else if ltb (length recv) recv_capacity
    then recv ++ line ∷ []
    else recv

abbrev pub on_byte : ℕ → Lines → Lines
on_byte c s =
    if c == 0x0a
    then record { line_buf = []; recv = keep_line s.line_buf s.recv }
    else record s { line_buf = s.line_buf ++ c ∷ [] }

unfoldable pub on_notification : Bytes → Lines → Lines
on_notification [] s = s
on_notification (c ∷ text) s = on_notification text (on_byte c s)

-- The case of `Receive`'s `select` that is ready.
pub data Ready : Type 0 where
  message_ready : Bytes → Ready
  close_ready : Ready
  context_ready : Ready

-- The members of an auth ack.
pub record Ack : Type 0 where
  pub result : Option Bool
  pub error : Bytes

unfoldable pub check_result : Option Bool → Result Error (Unit {0})
check_result (some true) = ok tt
check_result _ = err missing_ok

unfoldable pub check_ack : Option Ack → Result Error (Unit {0})
unfolding check_result
check_ack none = err invalid_ack
check_ack (some a) = if has_error a.error then err (auth_failed a.error) else check_result a.result

-- `receive` of a ready case
unfoldable pub receive : Ready → Result Error Bytes
receive (message_ready m) = ok m
receive close_ready = err closed
receive context_ready = err context_ended

module _ {W : Type 0} (write : Bytes → W → Result Bytes (Unit {0}) × W) where
  -- a write, and the loop behind it
  unfoldable pub written :
      (W → Result Error (Unit {0}) × W) → Result Bytes (Unit {0}) × W → Result Error (Unit {0}) × W
  written rest (ok u, w) = rest w
  written rest (err text, w) = (err (write_failed text), w)

  -- The loop over chunks. Each round takes a byte at least, so that the length of the payload is
  -- enough fuel.
  unfoldable pub write_chunks : ℕ → Bytes → W → Result Error (Unit {0}) × W
  unfolding written
  write_chunks zero payload w = (ok tt, w)
  write_chunks (suc fuel) [] w = (ok tt, w)
  write_chunks (suc fuel) (c ∷ payload) w =
      written (write_chunks fuel (drop ble_chunk_size (c ∷ payload)))
        (write (take ble_chunk_size (c ∷ payload)) w)

  unfoldable pub send : Ble → Bytes → W → Result Error (Unit {0}) × W
  unfolding write_chunks
  send b text w =
      let payload = text ++ 0x0a ∷ [] in
      if b.reconnecting
      then (err reconnecting, w)
      else if not b.connected
      then (err not_connected, w)
      else write_chunks (length payload) payload w

module _ {W : Type 0} (wait : W → Result Error (Unit {0}) × W) where
  unfoldable pub waited :
      (W → Result Error (Unit {0}) × W) → Result Error (Unit {0}) × W → Result Error (Unit {0}) × W
  waited rest (ok u, w) = rest w
  waited rest (err e, w) = (err e, w)

  unfoldable pub retried :
      (W → Result Error (Unit {0}) × W) → Result Error (Unit {0}) × W → Result Error (Unit {0}) × W
  unfolding is_transient_ble_write_error waited
  retried rest (ok u, w) = (ok u, w)
  retried rest (err e, w) =
      if is_transient_ble_write_error e then waited rest (wait w) else (err e, w)

  unfoldable pub retry_send :
      (W → Result Error (Unit {0}) × W) → ℕ → W → Result Error (Unit {0}) × W
  unfolding retried
  retry_send send zero w = (ok tt, w)
  retry_send send (suc zero) w = send w
  retry_send send (suc (suc attempts)) w = retried (retry_send send (suc attempts)) (send w)

module _ {W : Type 0} (write : Bytes → W → Result Bytes (Unit {0}) × W)
    (wait : W → Result Error (Unit {0}) × W) (select : W → Ready × W)
    (unmarshal : Bytes → Option Ack) where
  -- what follows the write of the token
  unfoldable pub acknowledged : Result Error Bytes → Result Error (Unit {0})
  acknowledged (err e) = err (auth_receive e)
  acknowledged (ok text) = elim (check_ack (unmarshal text)) [
    | ok u ↦ ok u
    | err e ↦ err (auth_validate e)
  ]

  unfoldable pub answered : Ready × W → Result Error (Unit {0}) × W
  answered (r, w) = (acknowledged (receive r), w)

  unfoldable pub token_written : Result Error (Unit {0}) × W → Result Error (Unit {0}) × W
  unfolding acknowledged answered
  token_written (err e, w) = (err (auth_write e), w)
  token_written (ok u, w) = answered (select w)

  unfoldable pub authenticate : Ble → W → Result Error (Unit {0}) × W
  unfolding token_written
  authenticate b w =
      if is_empty b.auth_token
      then (ok tt, w)
      else token_written
          (retry_send wait (send write b b.auth_token) (ble_auth_attempts b.auth_token) w)
