-- ===== src/Ble/Contract.antt =====
-- transport/ble.go: the BLE transport as `Protocol` uses it.
use bramble_go.Prelude.{Bool, true, false, Bytes, Result}
use bramble_go.Protocol.{Sent}
use bramble_go.Transport.Contract.{Contract, report}
use bramble_go.Ble.{Ble, Error, send, message}

abbrev is_reconnecting : Error → Bool
is_reconnecting Error.reconnecting = true
is_reconnecting _ = false

module _ {W : Type 0} (write : Bytes → W → Result Bytes (Unit {0}) × W) where
  unfoldable pub told : Ble → Result Error (Unit {0}) × W → Sent × (Ble × W)
  told b (r, w) = (report is_reconnecting message r, (b, w))

  unfoldable pub contract : Contract (Ble × W)
  unfolding told send
  contract = record {
    send = λ line (b, w). told b (send write b line w);
    is_reconnecting = λ (b, w). b.reconnecting;
    is_connected = λ (b, w). b.connected;
    not_connected_text = message Error.not_connected;
    send-reconnecting = λ line (b, w) h. rw h;
    send-idle = λ line (b, w) r h. rw (r, h);
  }
