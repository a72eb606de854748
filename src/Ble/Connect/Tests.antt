-- ===== src/Ble/Connect/Tests.antt =====
-- transport/ble.go: a node whose handshake is not answered in time.
use bramble_go.Prelude.{refl, ◌-◌, ℕ, suc, [], ◌∷◌, Option, none, Bytes, codes, ok}
use bramble_go.Ble.{Ack, context_ready}
use bramble_go.Ble.Connect.{Adapter, Peer, new_peer, nus_uuid, connect}
use bramble_go.Ble.Connect.Devices.{Counts, IsClean}
use bramble_go.Ble.Connect.Clean.{connect-IsClean}

-- The world is the number of devices that are connected.
abbrev adapter : Adapter ℕ ℕ ℕ ℕ ℕ
adapter = record {
  enable = λ w. (ok tt, w);
  scan = λ timeout w. (
    record { local_name = codes "Bramble-7"; service_uuids = nus_uuid 1 ∷ []; address = 7 } ∷ [],
    w,
  );
  connect_device = λ a w. (ok a, suc w);
  discover_services = λ d w. (ok (1 ∷ []), w);
  discover_characteristics = λ s w. (ok (2 ∷ 3 ∷ []), w);
  uuid = nus_uuid;
  enable_notifications = λ c w. (ok tt, w);
  write = λ c text w. (ok tt, w);
  disconnect = λ d w. w - 1;
  wait = λ w. (ok tt, w);
  select = λ w. (context_ready, w);
}

counts : Counts adapter (λ w. w)
counts = record {
  on_enable = λ w. refl;
  on_scan = λ timeout w. refl;
  on_connect = λ a d w u e. cc e;
  on_refusal = λ a text w u e. cc e;
  on_services = λ d w. refl;
  on_characteristics = λ s w. refl;
  on_notifications = λ c w. refl;
  on_write = λ c text w. refl;
  on_disconnect = λ d w. refl;
  on_wait = λ w. refl;
  on_select = λ w. refl;
}

abbrev unmarshal : Bytes → Option Ack
unmarshal text = none

abbrev peer : Peer ℕ ℕ
peer = record (new_peer (codes "bramble")) { auth_token = codes "secret" }

connect-IsClean_example :
    IsClean adapter (λ w. w) counts unmarshal 5 (connect adapter unmarshal peer 5)
connect-IsClean_example = connect-IsClean adapter (λ w. w) counts unmarshal peer 5 refl
