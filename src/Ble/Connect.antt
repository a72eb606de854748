-- ===== src/Ble/Connect.antt =====
-- transport/ble.go: `Connect`, from the scan to the handshake. The adapter of the third-party
-- package, the devices and the clock are a world `W`.
mod Scan
pub mod Handshake
pub mod Devices
pub mod Clean
mod Tests
unfoldable pub use Scan.*
use bramble_go.Prelude.{
  ℕ, Bool, true, false, not, ◌||◌, List, [], ◌∷◌, Option, none, some, Bytes, codes, ◌++◌, Result,
  ok, err, if◌then◌else◌, is_empty, length, ltb,
}
use bramble_go.Text.{to_lower, search, equal}
use bramble_go.Ble.{Ble, Error, Ready, Ack, authenticate}
use bramble_go.Ble.Link.{Link, new_link, connect_start, connect_done, link_down}

-- The adapter: addresses `A`, devices `D`, services `S` and characteristics `C`. `scan` gives the
-- devices that are seen before a timeout in seconds, `wait` is `bleWait`, `select` the `select` of
-- `Receive`. A write goes to the TX characteristic, where one was found.
pub record Adapter (W A D S C : Type 0) : Type 0 where
  pub enable : W → Result Bytes (Unit {0}) × W
  pub scan : ℕ → W → List (Advert A) × W
  pub connect_device : A → W → Result Bytes D × W
  pub discover_services : D → W → Result Bytes (List S) × W
  pub discover_characteristics : S → W → Result Bytes (List C) × W
  pub uuid : C → Bytes
  pub enable_notifications : C → W → Result Bytes (Unit {0}) × W
  pub write : Option C → Bytes → W → Result Bytes (Unit {0}) × W
  pub disconnect : D → W → W
  pub wait : W → Result Error (Unit {0}) × W
  pub select : W → Ready × W

pub data ConnectError : Type 0 where
  already_connected scan_timeout service_not_found : ConnectError
  enable_failed connect_failed notifications_failed : Bytes → ConnectError
  discovery_cancelled handshake_failed : Error → ConnectError
  characteristics_not_found : ℕ → ConnectError

-- The fields of `BLE` that `connect` uses; those of the connection's state are a `Link`.
pub record Peer (D C : Type 0) : Type 0 where
  pub device_name : Bytes
  pub auth_token : Bytes
  pub scan_timeout : ℕ
  pub device : Option D
  pub tx_char : Option C
  pub link : Link

-- `NewBLE` without options
abbrev pub new_peer : {D C : Type 0} → Bytes → Peer D C
new_peer device_name = record {
  device_name = device_name;
  auth_token = [];
  scan_timeout = 10;
  device = none;
  tx_char = none;
  link = new_link;
}

-- `SetAuthToken`
abbrev pub set_auth_token : {D C : Type 0} → Bytes → Peer D C → Peer D C
set_auth_token token p = record p { auth_token = token }

-- `Info`
abbrev pub info : {D C : Type 0} → Peer D C → Bytes
info p = if is_empty p.device_name then codes "ble:auto-scan" else codes "ble:" ++ p.device_name

-- what a characteristic is for
pub data Role : Type 0 where
  tx rx unused : Role

unfoldable pub role : Bytes → Role
role uuid = if equal uuid nus_tx_uuid then tx else if equal uuid nus_rx_uuid then rx else unused

module _ {W A D S C : Type 0} (adapter : Adapter W A D S C) (unmarshal : Bytes → Option Ack) where
  open adapter use {
    enable, scan, connect_device, discover_services, discover_characteristics, uuid,
    enable_notifications, write, disconnect, wait, select,
  }

  abbrev pub Returned : Type 0
  Returned = Result ConnectError (Unit {0}) × (Peer D C × W)

  -- a return that gives the device up
  abbrev pub fail : D → ConnectError → Peer D C → W → Returned
  fail d e p w = (err e, (p, disconnect d w))

  unfoldable pub authenticated : D → Peer D C → Result Error (Unit {0}) × W → Returned
  unfolding link_down
  authenticated d p (ok u, w) = (ok tt, (p, w))
  authenticated d p (err e, w) =
      fail d (handshake_failed e) (record p { link = link_down p.link }) w

  abbrev pub ble_of : Peer D C → Ble
  ble_of p = record {
    auth_token = p.auth_token;
    connected = p.link.connected;
    reconnecting = p.link.reconnecting;
  }

  -- the flags are set, and the handshake follows
  unfoldable pub set_up : D → Option C → Peer D C → W → Returned
  unfolding authenticated connect_done
  set_up d c p w =
      let q : Peer D C = record p { device = some d; tx_char = c; link = connect_done p.link } in
      authenticated d q (authenticate (write c) wait select unmarshal (ble_of q) w)

  unfoldable pub notified :
      (W → Result Bytes (Option C) × W) → Result Bytes (Unit {0}) × W → Result Bytes (Option C) × W
  notified rest (ok u, w) = rest w
  notified rest (err text, w) = (err text, w)

  unfoldable pub enable_one :
      (Option C → W → Result Bytes (Option C) × W)
      → Role
      → C
      → Option C
      → W
      → Result Bytes (Option C) × W
  unfolding notified
  enable_one rest tx c found w = rest (some c) w
  enable_one rest rx c found w = notified (rest found) (enable_notifications c w)
  enable_one rest unused c found w = rest found w

  -- the loop over the characteristics; `found` is the TX characteristic so far
  unfoldable pub enable_all : List C → Option C → W → Result Bytes (Option C) × W
  unfolding enable_one role
  enable_all [] found w = (ok found, w)
  enable_all (c ∷ cs) found w = enable_one (enable_all cs) (role (uuid c)) c found w

  unfoldable pub enabled_all : D → Peer D C → Result Bytes (Option C) × W → Returned
  unfolding set_up
  enabled_all d p (ok c, w) = set_up d c p w
  enabled_all d p (err text, w) = fail d (notifications_failed text) p w

  unfoldable pub characteristics : D → Peer D C → Result Bytes (List C) × W → Returned
  unfolding enabled_all enable_all
  characteristics d p (err text, w) = fail d (characteristics_not_found 0) p w
  characteristics d p (ok cs, w) =
      if ltb (length cs) 2
      then fail d (characteristics_not_found (length cs)) p w
      else enabled_all d p (enable_all cs none w)

  -- `svcs[0]`, where the discovery has found a service
  abbrev pub first_service : Result Bytes (List S) → Option S
  first_service (ok (s ∷ ss)) = some s
  first_service _ = none

  unfoldable pub services_again : D → Peer D C → Result Bytes (List S) × W → Returned
  unfolding characteristics
  services_again d p (r, w) = elim (first_service r) [
    | none ↦ fail d service_not_found p w
    | some s ↦ characteristics d p (discover_characteristics s w)
  ]

  unfoldable pub waited : D → Peer D C → Result Error (Unit {0}) × W → Returned
  unfolding services_again
  waited d p (ok u, w) = services_again d p (discover_services d w)
  waited d p (err e, w) = fail d (discovery_cancelled e) p w

  unfoldable pub services : D → Peer D C → Result Bytes (List S) × W → Returned
  unfolding waited
  services d p (r, w) = elim (first_service r) [
    | none ↦ waited d p (wait w)
    | some s ↦ characteristics d p (discover_characteristics s w)
  ]

  unfoldable pub device_connected : Peer D C → Result Bytes D × W → Returned
  unfolding services
  device_connected p (err text, w) = (err (connect_failed text), (p, w))
  device_connected p (ok d, w) = services d p (discover_services d w)

  unfoldable pub scanned : Peer D C → List (Advert A) × W → Returned
  unfolding device_connected first_wanted
  scanned p (rs, w) = elim (first_wanted p.device_name rs) [
    | none ↦ (err scan_timeout, (p, w))
    | some r ↦ device_connected p (connect_device r.address w)
  ]

  unfoldable pub enabled : Peer D C → Result Bytes (Unit {0}) × W → Returned
  unfolding scanned
  enabled p (err text, w) = (err (enable_failed text), (p, w))
  enabled p (ok u, w) = scanned p (scan p.scan_timeout w)

  -- `connect`, which `reconnectLoop` calls as well
  unfoldable pub connect_peer : Peer D C → W → Returned
  unfolding enabled
  connect_peer p w = enabled p (enable w)

  -- `Connect`
  unfoldable pub connect : Peer D C → W → Returned
  unfolding connect_peer connect_start
  connect p w = elim (connect_start p.link) [
    | none ↦ (err already_connected, (p, w))
    | some l ↦ connect_peer (record p { link = l }) w
  ]
