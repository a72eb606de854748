-- ===== src/Serial/Reading.antt =====
-- transport/serial.go: the goroutine that reads.
use bramble_go.Json.{Json}
use bramble_go.Prelude.{ℕ, zero, suc, Option, none, some, Bytes, if◌then◌else◌}
use bramble_go.Transport.{closed, AuthResponse}
use bramble_go.Scanner.{Scanned, token, stopped}
use bramble_go.Backoff.{Outcome, up, shut, out_of_fuel}
use bramble_go.Serial.{Serial, Port, reconnect_failed, json_line, keep, reconnect}

module _ {F W C : Type 0} (port : Port W C) (marshal : Json F → Option Bytes)
    (unmarshal : Bytes → Option AuthResponse) where
  open port use {new_scanner, scan, is_closed, takes_line}

  unfoldable pub after_reconnect :
      (Serial C → W → Serial C × W) → Outcome (Unit {0}) × (Serial C × W) → Serial C × W
  after_reconnect rest (up u, (s, w)) = rest s w
  after_reconnect rest (shut, (s, w)) = (record s { fault = some (reconnect_failed closed) }, w)
  after_reconnect rest (out_of_fuel, (s, w)) = (s, w)

  unfoldable pub new_scan : (Serial C → W → Serial C × W) → Serial C → Option C → W → Serial C × W
  new_scan rest s none w = rest s w
  new_scan rest s (some c) w = rest s (new_scanner c w)

  -- what the reader does with a line; `again` is the rounds that follow
  unfoldable pub offered :
      (Serial C → W → Serial C × W) → Option Bytes → Serial C → W → Serial C × W
  unfolding keep
  offered again none s w = again s w
  offered again (some line) s w = if takes_line w then again (keep (some line) s) w else (s, w)

  -- A round of `reader`, behind its `Scan`: `again` is the rounds that follow, and `regain` is
  -- `reconnect`.
  unfoldable pub read_scanned :
      (Serial C → W → Serial C × W)
      → (Serial C → W → Outcome (Unit {0}) × (Serial C × W))
      → Serial C
      → Scanned × W
      → Serial C × W
  unfolding after_reconnect new_scan offered
  read_scanned again regain s (token text, w) = offered again (json_line text) s w
  read_scanned again regain s (stopped none, w) =
      if is_closed w then (s, w) else new_scan again s s.conn w
  read_scanned again regain s (stopped (some e), w) =
      if is_closed w then (s, w) else after_reconnect again (regain s w)

  -- `reader`, for `fuel` rounds: it ends only with `done`.
  unfoldable pub reader : ℕ → ℕ → ℕ → Serial C → W → Serial C × W
  unfolding read_scanned
  reader zero tries lines s w = (s, w)
  reader (suc fuel) tries lines s w =
      let round =
        read_scanned (reader fuel tries lines) (reconnect port marshal unmarshal tries lines) s
          (scan w) in
      if is_closed w then (s, w) else round
