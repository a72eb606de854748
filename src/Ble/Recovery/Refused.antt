-- ===== src/Ble/Recovery/Refused.antt =====
-- transport/ble.go: the attempts of `reconnectLoop` with a token.
use bramble_go.Prelude.{
  ◌≡◌, ◌≢◌, refl, sym, Bool, true, false, not, ◌&&◌, List, [], ◌∷◌, Option, none, some, Bytes,
  Result, ok, err, is_empty, ℕ, zero, suc, length, ltb, if◌then◌else◌,
}
use mathlib.Core.Path.{subst}
use bramble_go.Backoff.{next_delay, Outcome, up, shut}
use bramble_go.Ble.{Ack, Error}
use bramble_go.Ble.Auth.{authenticate_reconnecting}
use bramble_go.Ble.Link.{link_down, drop_link, connect_done}
use bramble_go.Ble.Connect.{
  Advert, Adapter, Peer, ConnectError, scan_timeout, authenticated, set_up, ble_of, enabled_all,
  enable_all, characteristics, services_again, waited, services, device_connected, scanned,
  first_wanted, enabled, connect_peer,
}
use bramble_go.Ble.Recovery.{reconnect_loop, tried}

-- reconnecting, with a token
abbrev pub IsHeld : {D C : Type 0} → Peer D C → Type 0
IsHeld p = (p.link.reconnecting ≡ true) × (is_empty p.auth_token ≡ false)

still : (starts b : Bool) → b ≡ true → (if starts then true else b) ≡ true
still true b h = refl
still false b h = h

module _ {W A D S C : Type 0} (adapter : Adapter W A D S C) (unmarshal : Bytes → Option Ack) where
  -- The attempt has failed, and the transport reconnects still.
  abbrev pub IsRefused : Result ConnectError (Unit {0}) × (Peer D C × W) → Type 0
  IsRefused (ok u, s) = ⊥
  IsRefused (err e, (p, w)) = IsHeld p

  set_up-IsRefused :
      (d : D) (c : Option C) (p : Peer D C) (w : W)
      → IsHeld p
      → IsRefused (set_up adapter unmarshal d c p w)
  unfolding set_up authenticated link_down drop_link connect_done
  set_up-IsRefused d c p w (r, t) =
      let q : Peer D C = record p { device = some d; tx_char = c; link = connect_done p.link } in
      subst (λ x. IsRefused (authenticated adapter unmarshal d q x))
        (sym (
          authenticate_reconnecting (adapter.write c) adapter.wait adapter.select unmarshal
            (ble_of adapter unmarshal q) w r t))
        (still (not p.link.closing && not p.link.reconnecting) p.link.reconnecting r, t)

  enabled_all-IsRefused :
      (d : D) (p : Peer D C) (r : Result Bytes (Option C) × W)
      → IsHeld p
      → IsRefused (enabled_all adapter unmarshal d p r)
  unfolding enabled_all
  enabled_all-IsRefused d p (ok c, w) h = set_up-IsRefused d c p w h
  enabled_all-IsRefused d p (err e, w) h = h

  some_characteristics :
      (few : Bool) (d : D) (p : Peer D C) (cs : List C) (w : W) (e : ConnectError)
      → IsHeld p
      → IsRefused (
          if few
          then (err e, (p, adapter.disconnect d w))
          else enabled_all adapter unmarshal d p (enable_all adapter unmarshal cs none w))
  some_characteristics true d p cs w e h = h
  some_characteristics false d p cs w e h =
      enabled_all-IsRefused d p (enable_all adapter unmarshal cs none w) h

  characteristics-IsRefused :
      (d : D) (p : Peer D C) (r : Result Bytes (List C) × W)
      → IsHeld p
      → IsRefused (characteristics adapter unmarshal d p r)
  unfolding characteristics
  characteristics-IsRefused d p (ok cs, w) h = some_characteristics (ltb (length cs) 2) d p cs w _ h
  characteristics-IsRefused d p (err e, w) h = h

  again-IsRefused :
      (d : D) (p : Peer D C) (r : Result Bytes (List S) × W)
      → IsHeld p
      → IsRefused (services_again adapter unmarshal d p r)
  unfolding services_again
  again-IsRefused d p (ok [], w) h = h
  again-IsRefused d p (ok (s ∷ ss), w) h =
      characteristics-IsRefused d p (adapter.discover_characteristics s w) h
  again-IsRefused d p (err e, w) h = h

  waited-IsRefused :
      (d : D) (p : Peer D C) (r : Result Error (Unit {0}) × W)
      → IsHeld p
      → IsRefused (waited adapter unmarshal d p r)
  unfolding waited
  waited-IsRefused d p (ok u, w) h = again-IsRefused d p (adapter.discover_services d w) h
  waited-IsRefused d p (err e, w) h = h

  services-IsRefused :
      (d : D) (p : Peer D C) (r : Result Bytes (List S) × W)
      → IsHeld p
      → IsRefused (services adapter unmarshal d p r)
  unfolding services
  services-IsRefused d p (ok [], w) h = waited-IsRefused d p (adapter.wait w) h
  services-IsRefused d p (ok (s ∷ ss), w) h =
      characteristics-IsRefused d p (adapter.discover_characteristics s w) h
  services-IsRefused d p (err e, w) h = waited-IsRefused d p (adapter.wait w) h

  device-IsRefused :
      (p : Peer D C) (r : Result Bytes D × W)
      → IsHeld p
      → IsRefused (device_connected adapter unmarshal p r)
  unfolding device_connected
  device-IsRefused p (ok d, w) h = services-IsRefused d p (adapter.discover_services d w) h
  device-IsRefused p (err e, w) h = h

  chosen-IsRefused :
      (o : Option (Advert A)) (p : Peer D C) (w : W)
      → IsHeld p
      → IsRefused (elim o [
        | none ↦ (err scan_timeout, (p, w))
        | some r ↦ device_connected adapter unmarshal p (adapter.connect_device r.address w)
      ])
  chosen-IsRefused none p w h = h
  chosen-IsRefused (some r) p w h = device-IsRefused p (adapter.connect_device r.address w) h

  scanned-IsRefused :
      (p : Peer D C) (r : List (Advert A) × W)
      → IsHeld p
      → IsRefused (scanned adapter unmarshal p r)
  unfolding scanned
  scanned-IsRefused p (rs, w) h = chosen-IsRefused (first_wanted p.device_name rs) p w h

  enabled-IsRefused :
      (p : Peer D C) (r : Result Bytes (Unit {0}) × W)
      → IsHeld p
      → IsRefused (enabled adapter unmarshal p r)
  unfolding enabled
  enabled-IsRefused p (ok u, w) h = scanned-IsRefused p (adapter.scan p.scan_timeout w) h
  enabled-IsRefused p (err e, w) h = h

  connect_peer-IsRefused :
      (p : Peer D C) (w : W) → IsHeld p → IsRefused (connect_peer adapter unmarshal p w)
  unfolding connect_peer
  connect_peer-IsRefused p w h = enabled-IsRefused p (adapter.enable w) h

  module _ (sleep : ℕ → Peer D C × W → Peer D C × W) where
    -- Nobody resets `reconnecting` or the token while the loop sleeps.
    abbrev pub LeavesHeld : Type 0
    LeavesHeld = (delay : ℕ) (s : Peer D C × W) → IsHeld s.0 → IsHeld (sleep delay s).0

    NeverUp : Outcome (Unit {0}) × (Peer D C × W) → Type 0
    NeverUp (o, s) = o ≢ up tt

    tried-NeverUp :
        (again : Peer D C × W → Outcome (Unit {0}) × (Peer D C × W))
        (r : Result ConnectError (Unit {0}) × (Peer D C × W))
        → IsRefused r
        → ((s : Peer D C × W) → IsHeld s.0 → NeverUp (again s))
        → NeverUp (tried adapter unmarshal sleep again r)
    unfolding tried
    tried-NeverUp again (ok u, s) h more = absurd h
    tried-NeverUp again (err e, (p, w)) h more = more (p, w) h

    round-NeverUp :
        (closing : Bool) (q : Peer D C) (w : W) (round : Outcome (Unit {0}) × (Peer D C × W))
        → NeverUp round
        → NeverUp (if closing then (shut, (q, w)) else round)
    unfolding NeverUp
    round-NeverUp true q w round h = λ e. cc
    round-NeverUp false q w round h = h

    -- With a token set, `reconnectLoop` never reconnects, whatever the adapter and the node do and
    -- however many attempts it makes, as long as nobody resets `reconnecting` or the token: the
    -- handshake of each attempt is refused by the transport's own `Send`.
    pub reconnect_loop_held :
        (fuel delay : ℕ) (s : Peer D C × W)
        → LeavesHeld
        → IsHeld s.0
        → (reconnect_loop adapter unmarshal sleep fuel delay s).0 ≢ up tt
    unfolding reconnect_loop NeverUp
    reconnect_loop_held zero delay s k h = λ e. cc
    reconnect_loop_held (suc fuel) delay (p, w) k h = round-NeverUp p.link.closing _ w _ (
        tried-NeverUp
          (λ s. reconnect_loop adapter unmarshal sleep fuel (next_delay delay) (sleep delay s))
          (connect_peer adapter unmarshal p w) (connect_peer-IsRefused p w h)
          (λ s g. reconnect_loop_held fuel (next_delay delay) (sleep delay s) k (k delay s g)))
