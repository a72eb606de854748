-- ===== src/Mock/Contract.antt =====
-- transport/transporttest/mock.go: the mock as `Protocol` uses it. It never reconnects.
use bramble_go.Prelude.{false, Bytes, Result}
use bramble_go.Protocol.{Sent}
use bramble_go.Transport.{Refusal, not_connected}
use bramble_go.Transport.Contract.{Contract, report}
use bramble_go.Mock.{Mock, send}

-- `text` is `err.Error()`.
module _ (text : Refusal → Bytes) where
  unfoldable pub told : Result Refusal (Unit {0}) × Mock → Sent × Mock
  told (r, m) = (report (λ e. false) text r, m)

  unfoldable pub contract : Contract Mock
  unfolding told send
  contract = record {
    send = λ line m. told (send line m);
    is_reconnecting = λ m. false;
    is_connected = λ m. m.connected;
    not_connected_text = text not_connected;
    send-reconnecting = λ line m h. absurd (cc h);
    send-idle = λ line m r h. rw h;
  }
