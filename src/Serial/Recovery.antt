-- ===== src/Serial/Recovery.antt =====
-- transport/serial.go: what `reconnect` leaves behind.
use bramble_go.Prelude.{
  ◌≡◌, ap, ◌∙◌, ◌<◌, ◌++◌, ℕ, false, [], ◌∷◌, Option, some, Bytes, append_assoc, arith,
}
use bramble_go.Json.{Json}
use bramble_go.Transport.{AuthResponse}
use bramble_go.Backoff.{up, retry}
use bramble_go.Backoff.Schedule.{backoff, after, Fail, retry-up}
use bramble_go.Serial.{
  Serial, Port, on_disconnect, on_reconnect, attempt, close_conn, lose, recovered, reconnect,
}

module _ {F W C : Type 0} (port : Port W C) (marshal : Json F → Option Bytes)
    (unmarshal : Bytes → Option AuthResponse) where
  abbrev pub trying : ℕ → Serial C → W → Option C × W
  trying lines s = attempt port marshal unmarshal lines (lose s)

  -- the world in which the loop starts, and the one behind `k` attempts
  abbrev pub started : Serial C → W → W
  started s w = close_conn port marshal unmarshal s.conn w

  abbrev pub behind : ℕ → ℕ → Serial C → W → W
  behind k lines s w = after port.is_closed port.sleep (trying lines s) k 0 (started s w)

  abbrev pub AllFail : ℕ → ℕ → Serial C → W → Type 0
  AllFail k lines s w = Fail port.is_closed port.sleep (trying lines s) k 0 (started s w)

  pub reconnect_loop :
      (fuel lines : ℕ) (s : Serial C) (w : W)
      → s.is_reconnecting ≡ false
      → reconnect port marshal unmarshal fuel lines s w
        ≡ recovered (lose s) (retry port.is_closed port.sleep (trying lines s) fuel 1 (started s w))
  unfolding reconnect
  reconnect_loop fuel lines s w h = rw h

  -- The port is lost, `k` attempts fail, and the next one opens a connection that passes the
  -- handshake, before `Close` is called. Then `reconnect` returns nil within `k + 1` rounds, after
  -- waits of 1, 2, 4, 8, 16 and then 30 seconds. The new connection stands in the transport, which
  -- sends again, and each callback was called once; nothing else has changed.
  pub reconnect_recovers :
      (k fuel lines : ℕ) (s : Serial C) (w w' : W) (c : C)
      → s.is_reconnecting ≡ false
      → k < fuel
      → AllFail k lines s w
      → port.is_closed (behind k lines s w) ≡ false
      → trying lines s (port.sleep (backoff k) (behind k lines s w)) ≡ (some c, w')
      → reconnect port marshal unmarshal fuel lines s w ≡ (
        up tt,
        (
          record s {
            conn = some c;
            is_reconnecting = false;
            called = s.called ++ on_disconnect ∷ on_reconnect ∷ [];
          },
          w',
        ),
      )
  unfolding recovered lose
  reconnect_recovers k fuel lines s w w' c h l f o e =
      reconnect_loop fuel lines s w h
      ∙ ap (recovered (lose s)) (
          retry-up port.is_closed port.sleep (trying lines s) k fuel 0 k (started s w) w' c l
            (omega arith) f o e)
      ∙ ap (λ l. (up tt, (record s { conn = some c; is_reconnecting = false; called = l }, w')))
          (append_assoc s.called (on_disconnect ∷ []) (on_reconnect ∷ []))
