-- ===== src/Transport/Contract.antt =====
-- transport/transport.go: what `Protocol.Call` relies on when it sends through a transport.
use bramble_go.Prelude.{
  ◌≡◌, Option, none, some, Bool, true, false, Bytes, Result, ok, err, if◌then◌else◌,
}
use bramble_go.Protocol.{Sent, sent, reconnecting, failed}

-- A transport in the states `S`, which hold its world as well.
pub record Contract (S : Type 0) : Type 0 where
  pub send : Bytes → S → Sent × S
  pub is_reconnecting : S → Bool
  pub is_connected : S → Bool
  -- the text of `ErrNotConnected`, as the transport returns it
  pub not_connected_text : Bytes
  -- While it reconnects, a transport refuses a message with `ErrReconnecting`, and nothing happens.
  pub send-reconnecting :
      (text : Bytes) (s : S) → is_reconnecting s ≡ true → send text s ≡ (reconnecting, s)
  -- A transport that has no connection refuses it with `ErrNotConnected`.
  pub send-idle :
      (text : Bytes) (s : S)
      → is_reconnecting s ≡ false
      → is_connected s ≡ false
      → send text s ≡ (failed not_connected_text, s)

-- What `Call` tells apart: no error, an error that is `ErrReconnecting`, and any other, of which
-- its own error has the text.
abbrev pub report : {E : Type 0} → (E → Bool) → (E → Bytes) → Result E (Unit {0}) → Sent
report is_reconnecting text (ok u) = sent
report is_reconnecting text (err e) = if is_reconnecting e then reconnecting else failed (text e)

-- `conn != nil`
abbrev pub has_conn : {C : Type 0} → Option C → Bool
has_conn none = false
has_conn (some c) = true
