-- ===== src/Serial/Handshake/Tests.antt =====
-- transport/serial.go on a port that gives one line after another and keeps what is written.
use bramble_go.Text.{cut_prefix, trim_space}
use bramble_go.Prelude.{
  ◌≡◌, ◌↔◌, refl, ℕ, ◌++◌, false, List, [], ◌∷◌, Option, none, some, Bytes, codes, pos, ok, true,
}
use bramble_go.Json.{Json}
use bramble_go.Transport.{AuthResponse, validate_auth_response}
use bramble_go.Transport.Request.{build_auth_request}
use bramble_go.Scanner.{Scanned, token, stopped}
use bramble_go.Backoff.{up, retry}
use bramble_go.Serial.{
  Serial, new_serial, Port, serial_mode, on_disconnect, on_reconnect, json_line, close_conn, lose,
  attempt, authenticate, read_auth_response, connect, reconnect,
}
use bramble_go.Serial.Handshake.{Passes, connect_passed_iff}
use bramble_go.Serial.Regained.{IsPassed, reconnect-IsPassed}

-- the lines to come, and what was written
abbrev World : Type 0
World = List Bytes × Bytes

abbrev next_line : World → Scanned × World
next_line ([], log) = (stopped none, ([], log))
next_line (l ∷ ls, log) = (token l, (ls, log))

abbrev port : Port World (Unit {0})
port = record {
  open_port = λ m w. (some tt, w);
  write = λ c text (ls, log). (ok tt, (ls, log ++ text));
  close_port = λ c w. w;
  new_scanner = λ c w. w;
  scan = next_line;
  sleep = λ delay w. w;
  is_closed = λ w. false;
  takes_line = λ w. true;
}

abbrev marshal : Json ℕ → Option Bytes
marshal j = some (codes "{}")

abbrev unmarshal : Bytes → Option AuthResponse
unmarshal line = some (record { id = some (pos 0); error = [] })

abbrev idle : Serial (Unit {0})
idle = new_serial 115200 (codes "secret")

-- a log line and an answer
abbrev boot : World
boot = (codes "I (312) boot" ∷ codes "{\"id\":0}" ∷ [], [])

abbrev greeted : World
greeted = ([], codes "{}" ++ 0x0a ∷ [])

connected :
    connect port marshal unmarshal 2 idle boot ≡ (ok tt, (record idle { conn = some tt }, greeted))
unfolding build_auth_request connect authenticate read_auth_response json_line trim_space cut_prefix
    validate_auth_response
connected = refl

connect_passed_iff_example :
    (connect port marshal unmarshal 2 idle boot
      ≡ (ok tt, (record idle { conn = some tt }, greeted)))
    ↔ ((c : Unit {0}) × (u : World) × (record idle { conn = some tt }
          ≡ record idle { conn = some c })
        × (port.open_port (serial_mode 115200) boot ≡ (some c, u))
        × Passes port marshal unmarshal 2 (codes "secret") c u greeted)
connect_passed_iff_example =
    connect_passed_iff port marshal unmarshal 2 idle (record idle { conn = some tt }) boot greeted

abbrev regained : Serial (Unit {0})
regained = record idle { conn = some tt; called = on_disconnect ∷ on_reconnect ∷ [] }

reconnected : reconnect port marshal unmarshal 1 2 idle boot ≡ (up tt, (regained, greeted))
unfolding build_auth_request reconnect retry attempt lose close_conn authenticate read_auth_response
    json_line trim_space cut_prefix validate_auth_response
reconnected = refl

reconnect-IsPassed_example :
    (c : Unit {0}) × (regained ≡ record regained { conn = some c })
    × (v : World) × IsPassed port marshal unmarshal 2 idle c v greeted
reconnect-IsPassed_example =
    reconnect-IsPassed port marshal unmarshal 1 2 idle regained boot greeted refl reconnected
