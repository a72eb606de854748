-- ===== src/Serial/Contract.antt =====
-- transport/serial.go: the serial transport as `Protocol` uses it.
use bramble_go.Json.{Json}
use bramble_go.Prelude.{
  ap, ◌∙◌, err, ◌≡◌, refl, ap, ◌∙◌, Bool, true, false, Option, none, some, Bytes, Result,
  if◌then◌else◌,
}
use bramble_go.Protocol.{Sent}
use bramble_go.Transport.{AuthResponse, not_connected, reconnecting}
use bramble_go.Transport.Contract.{Contract, report, has_conn}
use bramble_go.Serial.{Serial, Port, Error, refused, send, send_to}

abbrev is_reconnecting : Error → Bool
is_reconnecting (refused reconnecting) = true
is_reconnecting _ = false

-- `text` is `err.Error()`.
module _ {F W C : Type 0} (port : Port W C) (marshal : Json F → Option Bytes)
    (unmarshal : Bytes → Option AuthResponse) (text : Error → Bytes) where
  unfoldable pub told : Serial C → Result Error (Unit {0}) × W → Sent × (Serial C × W)
  told s (r, w) = (report is_reconnecting text r, (s, w))

  unfoldable pub send_as : Bytes → Serial C × W → Sent × (Serial C × W)
  unfolding told
  send_as line (s, w) = told s (send port marshal unmarshal s line w)

  pub send_idle :
      (c : Option C) (line : Bytes) (s : Serial C) (w : W)
      → has_conn c ≡ false
      → told s (send_to port marshal unmarshal c line w)
        ≡ (Sent.failed (text (refused not_connected)), (s, w))
  unfolding told send_to
  send_idle none line s w h = refl
  send_idle (some c) line s w h = absurd (cc h)

  unfoldable pub contract : Contract (Serial C × W)
  unfolding send_as send
  contract = record {
    send = send_as;
    is_reconnecting = λ (s, w). s.is_reconnecting;
    is_connected = λ (s, w). has_conn s.conn;
    not_connected_text = text (refused not_connected);
    send-reconnecting = λ line (s, w) h. rw h;
    send-idle = λ line (s, w) r h.
        ap
          (λ b. told s (
            if b
            then (err (refused reconnecting), w)
            else send_to port marshal unmarshal s.conn line w))
          r
        ∙ send_idle s.conn line s w h;
  }
