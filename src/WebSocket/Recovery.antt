-- ===== src/WebSocket/Recovery.antt =====
-- transport/websocket.go: what `reconnect` leaves behind.
use bramble_go.Prelude.{
  if◌then◌else◌, ◌≡◌, ap, ◌∙◌, ◌<◌, ◌++◌, ℕ, zero, suc, ◌*◌, false, [], ◌∷◌, Option, some, ok, err,
  append_assoc, arith, if◌then◌else◌,
}
use bramble_go.Backoff.{up, retry, attempted}
use bramble_go.Backoff.Schedule.{backoff, retry_round}
use bramble_go.WebSocket.{
  WebSocket, Socket, SocketError, dial_options, dialled, on_disconnect, on_reconnect, attempt, lose,
  regain, recovered, reconnect,
}

module _ {W C : Type 0} (socket : Socket W C) where
  abbrev pub trying : WebSocket C → W → Option C × W
  trying s = attempt socket s

  reconnect_loop :
      (fuel : ℕ) (s : WebSocket C) (w : W)
      → s.is_reconnecting ≡ false
      → reconnect socket fuel s w
        ≡ recovered socket (lose s) (retry socket.is_closed socket.sleep (trying s) fuel 1 w)
  unfolding reconnect
  reconnect_loop fuel s w h =
      ap
        (λ b.
          if b
          then (up tt, (s, w))
          else recovered socket (lose s) (retry socket.is_closed socket.sleep (trying s) fuel 1 w))
        h

  -- From the world `w`, in which attempt `i` is next, `k` dials fail and the one behind them gives
  -- `c`, each behind its wait, and `done` is open before each.
  abbrev pub DialsAgain : ℕ → ℕ → WebSocket C → W → C → W → Type 0
  DialsAgain zero i s w c u =
      (socket.is_closed w ≡ false)
      × (socket.dial s.url (dial_options s.auth_token) (socket.sleep (backoff i) w) ≡ (ok c, u))
  DialsAgain (suc k) i s w c u =
      (socket.is_closed w ≡ false)
      × (e : SocketError) × (v : W) × (socket.dial s.url (dial_options s.auth_token)
            (socket.sleep (backoff i) w)
          ≡ (err e, v))
      × DialsAgain k (suc i) s v c u

  -- what the loop does with a world from which the dials are known
  redials_up :
      (k fuel i : ℕ) (s : WebSocket C) (w u : W) (c : C)
      → k < fuel
      → DialsAgain k i s w c u
      → retry socket.is_closed socket.sleep (trying s) fuel (backoff i) w
        ≡ (up c, socket.set_read_limit c (512 * 1024) u)
  unfolding attempt dialled attempted
  redials_up k zero i s w u c l r = absurd (omega (arith, l))
  redials_up zero (suc fuel) i s w u c l (o, d) =
      retry_round socket.is_closed socket.sleep (trying s) fuel i w o
      ∙ ap
          (λ x.
            attempted socket.is_closed socket.sleep (trying s)
              (retry socket.is_closed socket.sleep (trying s) fuel (backoff (suc i)))
              (dialled socket x))
          d
  redials_up (suc k) (suc fuel) i s w u c l (o, e, v, d, more) =
      retry_round socket.is_closed socket.sleep (trying s) fuel i w o
      ∙ ap
          (λ x.
            attempted socket.is_closed socket.sleep (trying s)
              (retry socket.is_closed socket.sleep (trying s) fuel (backoff (suc i)))
              (dialled socket x))
          d
      ∙ redials_up k fuel (suc i) s v u c (omega (arith, l)) more

  -- The connection is lost, `k` dials fail, and the next one gives a connection, before `Close` is
  -- called. Then `reconnect` returns nil within `k + 1` rounds, after waits of 1, 2, 4, 8, 16 and
  -- then 30 seconds: the new connection, with its read limit set to 512 KiB behind the dial, stands
  -- in the transport, which sends again, and each callback was called once.
  pub reconnect_redials :
      (k fuel : ℕ) (s : WebSocket C) (w u : W) (c : C)
      → s.is_reconnecting ≡ false
      → k < fuel
      → DialsAgain k 0 s w c u
      → reconnect socket fuel s w ≡ (
        up tt,
        (
          record s {
            conn = some c;
            is_reconnecting = false;
            called = s.called ++ on_disconnect ∷ on_reconnect ∷ [];
          },
          socket.set_read_limit c (512 * 1024) u,
        ),
      )
  unfolding recovered lose regain
  reconnect_redials k fuel s w u c h l r =
      reconnect_loop fuel s w h
      ∙ ap (recovered socket (lose s)) (redials_up k fuel 0 s w u c l r)
      ∙ ap
          (λ l. (
            up tt,
            (
              record s { conn = some c; is_reconnecting = false; called = l },
              socket.set_read_limit c (512 * 1024) u,
            ),
          ))
          (append_assoc s.called (on_disconnect ∷ []) (on_reconnect ∷ []))
