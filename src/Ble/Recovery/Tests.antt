-- ===== src/Ble/Recovery/Tests.antt =====
-- transport/ble.go: `reconnectLoop` with a node that is back after a second.
use bramble_go.Prelude.{
  ◌≡◌, ◌≢◌, refl, ℕ, zero, suc, ◌+◌, List, [], ◌∷◌, Option, none, some, Bytes, codes, ok, inr,
  arith, true,
}
use bramble_go.Text.{cut_prefix, equal}
use bramble_go.Backoff.{up}
use bramble_go.Ble.{Ack, context_ready, authenticate}
use bramble_go.Ble.Link.{new_link, on_reconnect}
use bramble_go.Ble.Connect.{Advert, Adapter, Peer, new_peer, nus_uuid, scan_timeout, connect_peer}
use bramble_go.Ble.Recovery.{reconnect_loop, loop_succeeded, loop_ended}
use bramble_go.Ble.Recovery.Refused.{reconnect_loop_held}
use bramble_go.Ble.Recovery.Schedule.{reconnect_loop_ends}

-- The world is the seconds that have gone by.
abbrev heard : ℕ → List (Advert ℕ)
heard zero = []
heard (suc n) =
    record { local_name = codes "bramble"; service_uuids = nus_uuid 1 ∷ []; address = 7 } ∷ []

abbrev adapter : Adapter ℕ ℕ ℕ ℕ ℕ
adapter = record {
  enable = λ w. (ok tt, w);
  scan = λ timeout w. (heard w, w);
  connect_device = λ a w. (ok a, w);
  discover_services = λ d w. (ok (1 ∷ []), w);
  discover_characteristics = λ s w. (ok (2 ∷ 3 ∷ []), w);
  uuid = nus_uuid;
  enable_notifications = λ c w. (ok tt, w);
  write = λ c text w. (ok tt, w);
  disconnect = λ d w. w;
  wait = λ w. (ok tt, w);
  select = λ w. (context_ready, w);
}

abbrev unmarshal : Bytes → Option Ack
unmarshal text = none

abbrev sleep : ℕ → Peer ℕ ℕ × ℕ → Peer ℕ ℕ × ℕ
sleep delay (p, w) = (p, w + delay)

abbrev lost : Peer ℕ ℕ
lost = record (new_peer (codes "bramble")) {
  link = record new_link { reconnecting = true; loops = 1 };
}

abbrev found : Peer ℕ ℕ
found = record lost {
  device = some 7;
  tx_char = some 2;
  link = record new_link { connected = true; called = on_reconnect ∷ [] };
}

reconnect_loop_ends_example :
    reconnect_loop adapter unmarshal sleep 2 1 (lost, 0) ≡ (up tt, (found, 1))
unfolding connect_peer loop_succeeded loop_ended cut_prefix equal authenticate
reconnect_loop_ends_example =
    reconnect_loop_ends adapter unmarshal sleep 1 2 (lost, 0) (ok tt)
      (record lost {
        device = some 7;
        tx_char = some 2;
        link = record new_link { connected = true; reconnecting = true; loops = 1 };
      })
      1 (omega arith) (refl, (scan_timeout, refl), tt) refl (inr refl)

reconnect_loop_held_example :
    (reconnect_loop adapter unmarshal sleep 100 1
      (record lost { auth_token = codes "secret" }, 0)).0
    ≢ up tt
reconnect_loop_held_example =
    reconnect_loop_held adapter unmarshal sleep 100 1
      (record lost { auth_token = codes "secret" }, 0) (λ delay s h. h) (refl, refl)
