-- ===== src/Ble/Recovery.antt =====
-- transport/ble.go: `reconnectLoop` with its delays.
pub mod Refused
pub mod Schedule
mod Tests
use bramble_go.Prelude.{
  ℕ, zero, suc, ◌-◌, ◌++◌, true, false, [], ◌∷◌, Bytes, Option, none, some, Result, ok, err,
  if◌then◌else◌,
}
use bramble_go.Backoff.{next_delay, Outcome, up, shut, out_of_fuel}
use bramble_go.Ble.{Ack}
use bramble_go.Ble.Link.{Link, on_reconnect}
use bramble_go.Ble.Connect.{Adapter, Peer, ConnectError, connect_peer}

-- the returns of `reconnectLoop`: it sees `closing`, or it has connected
unfoldable pub loop_ended : {D C : Type 0} → Peer D C → Peer D C
loop_ended p = record p { link = record p.link { reconnecting = false; loops = p.link.loops - 1 } }

unfoldable pub loop_succeeded : {D C : Type 0} → Peer D C → Peer D C
loop_succeeded p = record p {
  link = record p.link {
    reconnecting = false;
    loops = p.link.loops - 1;
    called = p.link.called ++ on_reconnect ∷ [];
  };
}

-- `sleep` is `bleSleep`, with what other goroutines do to the transport in the meantime.
module _ {W A D S C : Type 0} (adapter : Adapter W A D S C) (unmarshal : Bytes → Option Ack)
    (sleep : ℕ → Peer D C × W → Peer D C × W) where
  -- what a round does behind its `connect`; `again` is the rounds that follow
  unfoldable pub tried :
      (Peer D C × W → Outcome (Unit {0}) × (Peer D C × W))
      → Result ConnectError (Unit {0}) × (Peer D C × W)
      → Outcome (Unit {0}) × (Peer D C × W)
  unfolding loop_succeeded
  tried again (ok u, (p, w)) = (up tt, (loop_succeeded p, w))
  tried again (err e, s) = again s

  -- The loop, on fuel: it ends only by its conditions.
  unfoldable pub reconnect_loop : ℕ → ℕ → Peer D C × W → Outcome (Unit {0}) × (Peer D C × W)
  unfolding tried loop_ended
  reconnect_loop zero delay s = (out_of_fuel, s)
  reconnect_loop (suc fuel) delay (p, w) =
      let round =
        tried (λ s. reconnect_loop fuel (next_delay delay) (sleep delay s))
          (connect_peer adapter unmarshal p w) in
      if p.link.closing then (shut, (loop_ended p, w)) else round
