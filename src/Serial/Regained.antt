-- ===== src/Serial/Regained.antt =====
-- transport/serial.go: what a `reconnect` that returns nil has written and read.
use mathlib.Core.Path.{subst}
use bramble_go.Prelude.{
  ◌≡◌, refl, ap, sym, ◌∙◌, ◌++◌, ℕ, false, [], ◌∷◌, Option, none, some, Bytes, Result, ok, err,
}
use bramble_go.Json.{Json}
use bramble_go.Transport.{AuthResponse}
use bramble_go.Backoff.{Outcome, up, shut, out_of_fuel}
use bramble_go.Backoff.Schedule.{retry_up}
use bramble_go.Serial.{
  Serial, Port, Error, serial_mode, on_disconnect, on_reconnect, lose, recovered, attempt,
  attempt_authenticated, attempt_opened, reconnect,
}
use bramble_go.Serial.Recovery.{trying, started, reconnect_loop}
use bramble_go.Serial.Handshake.{Passes, authenticate_iff}

recovered_up :
    {W C : Type 0} (s t : Serial C) (r : Outcome C × W) (w : W)
    → recovered (lose s) r ≡ (up tt, (t, w))
    → (c : C) × (r ≡ (up c, w))
      × (t ≡ record s {
        conn = some c;
        is_reconnecting = false;
        called = (s.called ++ on_disconnect ∷ []) ++ on_reconnect ∷ [];
      })
unfolding recovered lose
recovered_up s t (up c, v) w h = (c, ap (λ x. (up c, x.1.1)) h, sym (ap (λ x. x.1.0) h))
recovered_up s t (shut, v) w h = cc h
recovered_up s t (out_of_fuel, v) w h = cc h

module _ {F W C : Type 0} (port : Port W C) (marshal : Json F → Option Bytes)
    (unmarshal : Bytes → Option AuthResponse) where
  open port use {open_port, new_scanner}

  attempt_authenticated_ok :
      (c d : C) (r : Result Error (Unit {0}) × W) (w : W)
      → attempt_authenticated port marshal unmarshal c r ≡ (some d, w)
      → (c ≡ d) × (r ≡ (ok tt, w))
  unfolding attempt_authenticated
  attempt_authenticated_ok c d (ok u, v) w h = (cc h, ap (λ x. (ok tt, x.1)) h)
  attempt_authenticated_ok c d (err e, v) w h = cc h

  -- the connection `c`, opened in the world `v`, has passed the handshake
  abbrev pub IsPassed : ℕ → Serial C → C → W → W → Type 0
  IsPassed lines s c v w =
      (u : W) × (open_port (serial_mode s.baud) v ≡ (some c, u))
      × Passes port marshal unmarshal lines s.auth_token c (new_scanner c u) w

  opened-IsPassed :
      (lines : ℕ) (s : Serial C) (c : C) (r : Option C × W) (v w : W)
      → open_port (serial_mode s.baud) v ≡ r
      → attempt_opened port marshal unmarshal lines s.auth_token r ≡ (some c, w)
      → IsPassed lines s c v w
  unfolding attempt_opened
  opened-IsPassed lines s c (none, u) v w e h = cc h
  opened-IsPassed lines s c (some d, u) v w e h =
      let (same, a) = attempt_authenticated_ok d c _ w h in
      subst (λ x. IsPassed lines s x v w) same
        (
          u,
          e,
          (authenticate_iff port marshal unmarshal lines s.auth_token d (new_scanner d u) w).0 a,
        )

  -- A `reconnect` that returns nil has, in some world, opened the port and passed the handshake, as
  -- `Connect` has to. The transport has that connection, and each callback was called once.
  pub reconnect-IsPassed :
      (fuel lines : ℕ) (s t : Serial C) (w w' : W)
      → s.is_reconnecting ≡ false
      → reconnect port marshal unmarshal fuel lines s w ≡ (up tt, (t, w'))
      → (c : C) × (t ≡ record s {
        conn = some c;
        is_reconnecting = false;
        called = (s.called ++ on_disconnect ∷ []) ++ on_reconnect ∷ [];
      })
        × (v : W) × IsPassed lines s c v w'
  unfolding attempt lose
  reconnect-IsPassed fuel lines s t w w' h r =
      let (c, up_with, state) =
        recovered_up s t _ w' (sym (reconnect_loop port marshal unmarshal fuel lines s w h) ∙ r) in
      let (v, e) =
        retry_up port.is_closed port.sleep (trying port marshal unmarshal lines s) fuel 1 c
          (started port marshal unmarshal s w) w' up_with in
      (c, state, v, opened-IsPassed lines s c _ v w' refl e)
