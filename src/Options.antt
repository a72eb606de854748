-- ===== src/Options.antt =====
-- transport/options.go: the options of the transports' constructors, and those constructors with
-- them.
use bramble_go.Prelude.{ℕ, List, [], ◌∷◌, Option, none, some, Bytes}
use bramble_go.Serial.{Serial, new_serial}
use bramble_go.WebSocket.{WebSocket, new_web_socket}
use bramble_go.Ble.Connect.{Peer, new_peer}

-- `option`: what it does to each transport, if anything; the transports have connections `P` and
-- `S`, and a device `D` with characteristics `C`.
pub record TransportOption (P S D C : Type 0) : Type 0 where
  pub serial : Option (Serial P → Serial P)
  pub web_socket : Option (WebSocket S → WebSocket S)
  pub ble : Option (Peer D C → Peer D C)

-- `applySerial` and its kin
abbrev pub apply : {X : Type 0} → Option (X → X) → X → X
apply none x = x
apply (some f) x = f x

module _ {P S D C : Type 0} where
  abbrev pub with_baud_rate : ℕ → TransportOption P S D C
  with_baud_rate baud = record {
    serial = some (λ s. record s { baud = baud });
    web_socket = none;
    ble = none;
  }

  abbrev pub with_auth_token : Bytes → TransportOption P S D C
  with_auth_token token = record {
    serial = some (λ s. record s { auth_token = token });
    web_socket = some (λ w. record w { auth_token = token });
    ble = some (λ b. record b { auth_token = token });
  }

  abbrev pub with_ble_scan_timeout : ℕ → TransportOption P S D C
  with_ble_scan_timeout d = record {
    serial = none;
    web_socket = none;
    ble = some (λ b. record b { scan_timeout = d });
  }

  abbrev pub apply_all :
      {X : Type 0}
      → (TransportOption P S D C → Option (X → X))
      → List (TransportOption P S D C)
      → X
      → X
  apply_all of [] x = x
  apply_all of (o ∷ os) x = apply_all of os (apply (of o) x)

  -- `NewSerial`, `NewWebSocket` and `NewBLE`
  unfoldable pub serial_with : List (TransportOption P S D C) → Serial P
  serial_with opts = apply_all (λ o. o.serial) opts (new_serial 115200 [])

  unfoldable pub web_socket_with : Bytes → List (TransportOption P S D C) → WebSocket S
  web_socket_with url opts = apply_all (λ o. o.web_socket) opts (new_web_socket url [])

  unfoldable pub ble_with : Bytes → List (TransportOption P S D C) → Peer D C
  ble_with device_name opts = apply_all (λ o. o.ble) opts (new_peer device_name)
