-- ===== src/Serial/Shared.antt =====
-- transport/serial.go: the transport's own data, and the port.
use bramble_go.Prelude.{ℕ, Bool, false, List, [], Option, none, Bytes, Result}
use bramble_go.Transport.{Refusal, AuthError}
use bramble_go.Scanner.{ScanError, Scanned}

-- `serialMode`
pub record Mode : Type 0 where
  pub baud_rate : ℕ
  pub data_bits : ℕ
  pub parity : Bool
  pub two_stop_bits : Bool
  pub dtr : Bool
  pub rts : Bool

abbrev pub default_baud_rate : ℕ
default_baud_rate = 115200

abbrev pub serial_mode : ℕ → Mode
serial_mode baud = record {
  baud_rate = baud;
  data_bits = 8;
  parity = false;
  two_stop_bits = false;
  dtr = false;
  rts = false;
}

pub data Callback : Type 0 where
  on_disconnect on_reconnect : Callback

pub data Error : Type 0 where
  open_failed marshal_failed : Error
  auth_write_failed write_failed : Bytes → Error
  auth_invalid : AuthError → Error
  auth_read_failed : ScanError → Error
  auth_empty : Error
  refused : Refusal → Error
  reconnect_failed : Refusal → Error
  context_ended : Error
  -- the fuel of the model
  auth_pending : Error

-- `Serial`: `recv` is what the reader has sent to `recvCh`, `fault` what is in `errCh`, and
-- `called` lists the calls of the callbacks.
pub record Serial (C : Type 0) : Type 0 where
  pub baud : ℕ
  pub auth_token : Bytes
  pub conn : Option C
  pub is_reconnecting : Bool
  pub recv : List Bytes
  pub fault : Option Error
  pub called : List Callback

-- `NewSerial` with a baud rate and a token
abbrev pub new_serial : {C : Type 0} → ℕ → Bytes → Serial C
new_serial baud auth_token = record {
  baud = baud;
  auth_token = auth_token;
  conn = none;
  is_reconnecting = false;
  recv = [];
  fault = none;
  called = [];
}

-- `SetAuthToken`
abbrev pub set_auth_token : {C : Type 0} → Bytes → Serial C → Serial C
set_auth_token secret s = record s { auth_token = secret }

-- The port `C` of the third-party package, with the scanner that stands on it.
pub record Port (W C : Type 0) : Type 0 where
  pub open_port : Mode → W → Option C × W
  pub write : C → Bytes → W → Result Bytes (Unit {0}) × W
  pub close_port : C → W → W
  pub new_scanner : C → W → W
  pub scan : W → Scanned × W
  pub sleep : ℕ → W → W
  pub is_closed : W → Bool
  -- whether `recvCh`, which holds 32 lines, takes one more before `done` is closed
  pub takes_line : W → Bool
