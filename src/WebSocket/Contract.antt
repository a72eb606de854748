-- ===== src/WebSocket/Contract.antt =====
-- transport/websocket.go: the WebSocket transport as `Protocol` uses it. The state counts the
-- goroutines that `Send` has started to reconnect.
use bramble_go.Prelude.{
  ap, ◌∙◌, err, ◌≡◌, refl, ap, ◌∙◌, ℕ, suc, Bool, true, false, Option, none, some, Bytes, Result,
  if◌then◌else◌,
}
use bramble_go.Protocol.{Sent}
use bramble_go.Transport.{not_connected, reconnecting}
use bramble_go.Transport.Contract.{Contract, report, has_conn}
use bramble_go.WebSocket.{WebSocket, Socket, Error, refused, send, send_to}

abbrev is_reconnecting : Error → Bool
is_reconnecting (refused reconnecting) = true
is_reconnecting _ = false

-- `text` is `err.Error()`.
module _ {W C : Type 0} (socket : Socket W C) (text : Error → Bytes) where
  unfoldable pub told :
      WebSocket C → ℕ → Result Error (Unit {0}) × (Bool × W) → Sent × (WebSocket C × (ℕ × W))
  told s n (r, (starts, w)) = (report is_reconnecting text r, (s, (if starts then suc n else n, w)))

  unfoldable pub send_as : Bytes → WebSocket C × (ℕ × W) → Sent × (WebSocket C × (ℕ × W))
  unfolding told
  send_as line (s, (n, w)) = told s n (send socket s line w)

  pub send_idle :
      (c : Option C) (line : Bytes) (s : WebSocket C) (n : ℕ) (w : W)
      → has_conn c ≡ false
      → told s n (send_to socket c line w)
        ≡ (Sent.failed (text (refused not_connected)), (s, (n, w)))
  unfolding told send_to
  send_idle none line s n w h = refl
  send_idle (some c) line s n w h = absurd (cc h)

  unfoldable pub contract : Contract (WebSocket C × (ℕ × W))
  unfolding send_as send
  contract = record {
    send = send_as;
    is_reconnecting = λ (s, w). s.is_reconnecting;
    is_connected = λ (s, w). has_conn s.conn;
    not_connected_text = text (refused not_connected);
    send-reconnecting = λ line (s, (n, w)) h. rw h;
    send-idle = λ line (s, (n, w)) r h.
        ap
          (λ b.
            told s n (
              if b then (err (refused reconnecting), (false, w)) else send_to socket s.conn line w))
          r
        ∙ send_idle s.conn line s n w h;
  }
