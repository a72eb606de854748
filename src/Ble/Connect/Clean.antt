-- ===== src/Ble/Connect/Clean.antt =====
-- transport/ble.go: what a `Connect` leaves open, on every path.
use mathlib.Core.Path.{subst}
use bramble_go.Prelude.{
  if◌then◌else◌, ◌≡◌, refl, sym, ap, ◌∙◌, ℕ, suc, false, List, [], ◌∷◌, Option, none, some, Bytes,
  Result, ok, err,
}
use bramble_go.Ble.{Error, Ack}
use bramble_go.Ble.Link.{Link, connect_start}
use bramble_go.Ble.Connect.{
  Advert, Adapter, Peer, ConnectError, discovery_cancelled, service_not_found, characteristics,
  services_again, waited, services, device_connected, scanned, first_wanted, enabled, connect_peer,
  connect,
}
use bramble_go.Ble.Connect.Devices.{Counts, IsClean, fail-IsClean, characteristics-IsClean}

module _ {W A D S C : Type 0} (adapter : Adapter W A D S C) (opened : W → ℕ)
    (counts : Counts adapter opened) (unmarshal : Bytes → Option Ack) where
  found-IsClean :
      (n : ℕ) (d : D) (p : Peer D C) (s : S) (w : W)
      → opened w ≡ suc n
      → p.link.connected ≡ false
      → IsClean adapter opened counts unmarshal n
          (characteristics adapter unmarshal d p (adapter.discover_characteristics s w))
  found-IsClean n d p s w h x =
      characteristics-IsClean adapter opened counts unmarshal n d p
        (adapter.discover_characteristics s w) (counts.on_characteristics s w ∙ h) x

  again-IsClean :
      (n : ℕ) (d : D) (p : Peer D C) (r : Result Bytes (List S) × W)
      → opened r.1 ≡ suc n
      → p.link.connected ≡ false
      → IsClean adapter opened counts unmarshal n (services_again adapter unmarshal d p r)
  unfolding services_again
  again-IsClean n d p (ok [], w) h x =
      fail-IsClean adapter opened counts unmarshal n d service_not_found p w h x
  again-IsClean n d p (ok (s ∷ ss), w) h x = found-IsClean n d p s w h x
  again-IsClean n d p (err text, w) h x =
      fail-IsClean adapter opened counts unmarshal n d service_not_found p w h x

  waited-IsClean :
      (n : ℕ) (d : D) (p : Peer D C) (r : Result Error (Unit {0}) × W)
      → opened r.1 ≡ suc n
      → p.link.connected ≡ false
      → IsClean adapter opened counts unmarshal n (waited adapter unmarshal d p r)
  unfolding waited
  waited-IsClean n d p (ok u, w) h x =
      again-IsClean n d p (adapter.discover_services d w) (counts.on_services d w ∙ h) x
  waited-IsClean n d p (err e, w) h x =
      fail-IsClean adapter opened counts unmarshal n d (discovery_cancelled e) p w h x

  services-IsClean :
      (n : ℕ) (d : D) (p : Peer D C) (r : Result Bytes (List S) × W)
      → opened r.1 ≡ suc n
      → p.link.connected ≡ false
      → IsClean adapter opened counts unmarshal n (services adapter unmarshal d p r)
  unfolding services
  services-IsClean n d p (ok [], w) h x =
      waited-IsClean n d p (adapter.wait w) (counts.on_wait w ∙ h) x
  services-IsClean n d p (ok (s ∷ ss), w) h x = found-IsClean n d p s w h x
  services-IsClean n d p (err text, w) h x =
      waited-IsClean n d p (adapter.wait w) (counts.on_wait w ∙ h) x

  -- `Keeps` or one more: what the adapter's `Connect` has come to
  connected-IsClean :
      (a : A) (p : Peer D C) (v : W) (r : Result Bytes D × W)
      → adapter.connect_device a v ≡ r
      → p.link.connected ≡ false
      → IsClean adapter opened counts unmarshal (opened v) (device_connected adapter unmarshal p r)
  unfolding device_connected
  connected-IsClean a p v (ok d, w) e x =
      services-IsClean (opened v) d p (adapter.discover_services d w)
        (counts.on_services d w ∙ counts.on_connect a d v w e) x
  connected-IsClean a p v (err text, w) e x = (counts.on_refusal a text v w e, x)

  chosen-IsClean :
      (o : Option (Advert A)) (p : Peer D C) (w : W)
      → p.link.connected ≡ false
      → IsClean adapter opened counts unmarshal (opened w) (elim o [
        | none ↦ (err ConnectError.scan_timeout, (p, w))
        | some r ↦ device_connected adapter unmarshal p (adapter.connect_device r.address w)
      ])
  chosen-IsClean none p w x = (refl, x)
  chosen-IsClean (some r) p w x =
      connected-IsClean r.address p w (adapter.connect_device r.address w) refl x

  scanned-IsClean :
      (n : ℕ) (p : Peer D C) (r : List (Advert A) × W)
      → opened r.1 ≡ n
      → p.link.connected ≡ false
      → IsClean adapter opened counts unmarshal n (scanned adapter unmarshal p r)
  unfolding scanned
  scanned-IsClean n p (rs, w) h x =
      subst (λ k. IsClean adapter opened counts unmarshal k (scanned adapter unmarshal p (rs, w))) h
        (chosen-IsClean (first_wanted p.device_name rs) p w x)

  enabled-IsClean :
      (n : ℕ) (p : Peer D C) (r : Result Bytes (Unit {0}) × W)
      → opened r.1 ≡ n
      → p.link.connected ≡ false
      → IsClean adapter opened counts unmarshal n (enabled adapter unmarshal p r)
  unfolding enabled
  enabled-IsClean n p (ok u, w) h x =
      scanned-IsClean n p (adapter.scan p.scan_timeout w) (counts.on_scan p.scan_timeout w ∙ h) x
  enabled-IsClean n p (err text, w) h x = (h, x)

  -- `Connect` on a transport that is not connected ends in one of two ways: with the transport
  -- connected and one device more open than before, or with an error, the transport not connected
  -- and no device more than before, whether the adapter, the scan, the discovery, the subscription
  -- or the handshake has failed.
  pub connect-IsClean :
      (p : Peer D C) (w : W)
      → p.link.connected ≡ false
      → IsClean adapter opened counts unmarshal (opened w) (connect adapter unmarshal p w)
  unfolding connect connect_peer connect_start
  connect-IsClean p w x =
      let l : Link = record p.link { closing = false } in
      let start : connect_start p.link ≡ some l =
        ap (λ b. if b then none else some (record p.link { closing = false })) x in
      subst
        (λ o. IsClean adapter opened counts unmarshal (opened w) (elim o [
          | none ↦ (err ConnectError.already_connected, (p, w))
          | some k ↦ connect_peer adapter unmarshal (record p { link = k }) w
        ]))
        (sym start)
        (enabled-IsClean (opened w) (record p { link = l }) (adapter.enable w) (counts.on_enable w)
          x)
