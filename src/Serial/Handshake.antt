-- ===== src/Serial/Handshake.antt =====
-- transport/serial.go: what a `Connect` that returns nil has written and read.
mod Tests
use bramble_go.Prelude.{
  ◌≡◌, ◌↔◌, refl, ap, sym, ◌∙◌, ◌<◌, ◌++◌, ℕ, zero, suc, [], ◌∷◌, Option, none, some, Bytes, Result,
  ok, err, arith,
}
use bramble_go.Json.{Json}
use bramble_go.Transport.{AuthResponse, AuthError, validate_auth_response}
use bramble_go.Scanner.{Scanned, token, stopped}
use bramble_go.Serial.{
  Serial, Port, Error, serial_mode, json_line, authenticate, auth_answer, auth_line, auth_scanned,
  auth_sent, sent_auth, send_auth, read_auth_response, connect_authenticated, connect_opened,
  connect,
}
use bramble_go.Transport.Handshake.{
  request, build_auth_request-request, IsAccepting, validate_auth_response_iff,
}

module _ {F W C : Type 0} (port : Port W C) (marshal : Json F → Option Bytes)
    (unmarshal : Bytes → Option AuthResponse) where
  open port use {open_port, write, new_scanner, scan}

  -- In the world `w` the scanner gives `n` lines that are no JSON, and then an accepting answer,
  -- with which the world is `w'`.
  abbrev pub IsAnsweredAfter : ℕ → W → W → Type 0
  IsAnsweredAfter zero w w' =
      (line : Bytes) × (json : Bytes) × (scan w ≡ (token line, w'))
      × (json_line line ≡ some json)
      × (r : AuthResponse) × (unmarshal json ≡ some r)
      × IsAccepting r
  IsAnsweredAfter (suc n) w w' =
      (line : Bytes) × (u : W) × (scan w ≡ (token line, u))
      × (json_line line ≡ none)
      × IsAnsweredAfter n u w'

  -- within `fuel` lines
  abbrev pub IsAnswered : ℕ → W → W → Type 0
  IsAnswered fuel w w' = (n : ℕ) × (n < fuel) × IsAnsweredAfter n w w'

  -- What passes the handshake on the connection `c`: nothing without a token; with one, the
  -- request is written as a line, and an accepting answer comes within `fuel` lines.
  abbrev pub Passes : ℕ → Bytes → C → W → W → Type 0
  Passes fuel [] c w w' = w ≡ w'
  Passes fuel (b ∷ t) c w w' =
      (line : Bytes) × (marshal (request (b ∷ t)) ≡ some line)
      × (u : W) × (write c (line ++ 0x0a ∷ []) w ≡ (ok tt, u))
      × (n : ℕ) × (n < fuel)
      × IsAnsweredAfter n u w'

  reading : ℕ → W → Result Error (Unit {0}) × W
  reading fuel w = read_auth_response port marshal unmarshal fuel w

  auth_answer_ok :
      (r : Result AuthError (Unit {0})) → auth_answer port marshal unmarshal r ≡ ok tt → r ≡ ok tt
  unfolding auth_answer
  auth_answer_ok (ok u) h = refl
  auth_answer_ok (err e) h = cc h

  line_ok :
      (fuel : ℕ) (line : Bytes) (o : Option Bytes) (w u w' : W)
      → scan w ≡ (token line, u)
      → json_line line ≡ o
      → (reading fuel u ≡ (ok tt, w') → IsAnswered fuel u w')
      → auth_line port marshal unmarshal (reading fuel) o u ≡ (ok tt, w')
      → IsAnswered (suc fuel) w w'
  unfolding auth_line
  line_ok fuel line none w u w' e j more h =
      let (n, l, a) = more h in (suc n, omega (arith, l), (line, u, e, j, a))
  line_ok fuel line (some json) w u w' e j more h =
      let there : u ≡ w' = ap (λ x. x.1) h in
      let (r, m, a) =
        (validate_auth_response_iff (unmarshal json)).0
          (auth_answer_ok (validate_auth_response (unmarshal json)) (ap (λ x. x.0) h)) in
      (0, omega arith, (line, json, e ∙ ap (λ x. (token line, x)) there, j, r, m, a))

  scanned_ok :
      (fuel : ℕ) (r : Scanned × W) (w w' : W)
      → scan w ≡ r
      → ((u : W) → reading fuel u ≡ (ok tt, w') → IsAnswered fuel u w')
      → auth_scanned port marshal unmarshal (reading fuel) r ≡ (ok tt, w')
      → IsAnswered (suc fuel) w w'
  unfolding auth_scanned
  scanned_ok fuel (token line, u) w w' e more h =
      line_ok fuel line (json_line line) w u w' e refl (more u) h
  scanned_ok fuel (stopped none, u) w w' e more h = cc h
  scanned_ok fuel (stopped (some x), u) w w' e more h = cc h

  read_auth_response_ok :
      (fuel : ℕ) (w w' : W) → reading fuel w ≡ (ok tt, w') → IsAnswered fuel w w'
  unfolding read_auth_response reading
  read_auth_response_ok zero w w' h = cc h
  read_auth_response_ok (suc fuel) w w' h =
      scanned_ok fuel (scan w) w w' refl (λ u. read_auth_response_ok fuel u w') h

  answered_ok :
      (n fuel : ℕ) (w w' : W) → n < fuel → IsAnsweredAfter n w w' → reading fuel w ≡ (ok tt, w')
  unfolding read_auth_response reading auth_scanned auth_line auth_answer
  answered_ok n zero w w' l a = absurd (omega (arith, l))
  answered_ok zero (suc fuel) w w' l (line, json, e, j, r, m, a) =
      ap (auth_scanned port marshal unmarshal (reading fuel)) e
      ∙ ap (λ o. auth_line port marshal unmarshal (reading fuel) o w') j
      ∙ ap (λ x. (auth_answer port marshal unmarshal x, w'))
          ((validate_auth_response_iff (unmarshal json)).1 (r, m, a))
  answered_ok (suc n) (suc fuel) w w' l (line, u, e, j, a) =
      ap (auth_scanned port marshal unmarshal (reading fuel)) e
      ∙ ap (λ o. auth_line port marshal unmarshal (reading fuel) o u) j
      ∙ answered_ok n fuel u w' (omega (arith, l)) a

  sent_auth_ok :
      (r : Result Bytes (Unit {0}) × W) (u : W)
      → sent_auth port marshal unmarshal r ≡ (ok tt, u)
      → r ≡ (ok tt, u)
  unfolding sent_auth
  sent_auth_ok (ok x, w) u h = ap (λ x. (ok tt, x)) (ap (λ x. x.1) h)
  sent_auth_ok (err e, w) u h = cc h

  send_auth_ok :
      (c : C) (o : Option Bytes) (w u : W)
      → send_auth port marshal unmarshal c o w ≡ (ok tt, u)
      → (line : Bytes) × (o ≡ some line) × (write c (line ++ 0x0a ∷ []) w ≡ (ok tt, u))
  unfolding send_auth
  send_auth_ok c none w u h = cc h
  send_auth_ok c (some line) w u h = (line, refl, sent_auth_ok (write c (line ++ 0x0a ∷ []) w) u h)

  auth_sent_ok :
      (fuel : ℕ) (r : Result Error (Unit {0}) × W) (w' : W)
      → auth_sent port marshal unmarshal fuel r ≡ (ok tt, w')
      → (u : W) × (r ≡ (ok tt, u)) × IsAnswered fuel u w'
  unfolding auth_sent reading
  auth_sent_ok fuel (ok x, u) w' h = (u, refl, read_auth_response_ok fuel u w' h)
  auth_sent_ok fuel (err e, u) w' h = cc h

  pub authenticate_iff :
      (fuel : ℕ) (secret : Bytes) (c : C) (w w' : W)
      → (authenticate port marshal unmarshal fuel secret c w ≡ (ok tt, w'))
        ↔ Passes fuel secret c w w'
  unfolding authenticate auth_sent send_auth sent_auth reading
  authenticate_iff fuel [] c w w' = ((λ h. ap (λ x. x.1) h), (λ h. ap (λ x. (ok tt, x)) h))
  authenticate_iff fuel (b ∷ t) c w w' = (
    (λ h.
        let (u, e, (n, l, a)) = auth_sent_ok fuel _ w' h in
        let (line, m, s) = send_auth_ok c _ w u e in
        (line, sym (build_auth_request-request marshal (b ∷ t)) ∙ m, u, s, n, l, a)),
    (λ (line, m, u, s, n, l, a).
        ap (λ o. auth_sent port marshal unmarshal fuel (send_auth port marshal unmarshal c o w))
          (build_auth_request-request marshal (b ∷ t) ∙ m)
        ∙ ap (λ r. auth_sent port marshal unmarshal fuel (sent_auth port marshal unmarshal r)) s
        ∙ answered_ok n fuel u w' l a),
  )

  connect_authenticated_ok :
      (c : C) (s t : Serial C) (r : Result Error (Unit {0}) × W) (w' : W)
      → connect_authenticated port marshal unmarshal c s r ≡ (ok tt, (t, w'))
      → (t ≡ record s { conn = some c }) × (r ≡ (ok tt, w'))
  unfolding connect_authenticated
  connect_authenticated_ok c s t (ok u, w) w' h =
      (sym (ap (λ x. x.1.0) h), ap (λ x. (ok tt, x.1.1)) h)
  connect_authenticated_ok c s t (err e, w) w' h = cc h

  opened_ok :
      (fuel : ℕ) (s t : Serial C) (r : Option C × W) (w' : W)
      → connect_opened port marshal unmarshal fuel s r ≡ (ok tt, (t, w'))
      → (c : C) × (u : W) × (t ≡ record s { conn = some c })
        × (r ≡ (some c, u))
        × Passes fuel s.auth_token c (new_scanner c u) w'
  unfolding connect_opened
  opened_ok fuel s t (none, w) w' h = cc h
  opened_ok fuel s t (some c, w) w' h =
      let (e, a) = connect_authenticated_ok c s t _ w' h in
      (c, w, e, refl, (authenticate_iff fuel s.auth_token c (new_scanner c w) w').0 a)

  -- `Connect` returns nil exactly if the port opens and, where a token is set, the JSON-RPC request
  -- `bramble.auth` with the token is marshalled and written as a line, and within `fuel` lines the
  -- first one that starts with a brace is an answer to the id 0 without an error. The transport
  -- then has the connection and is as before otherwise.
  pub connect_passed_iff :
      (fuel : ℕ) (s t : Serial C) (w w' : W)
      → (connect port marshal unmarshal fuel s w ≡ (ok tt, (t, w'))) ↔ (
          (c : C) × (u : W) × (t ≡ record s { conn = some c })
          × (open_port (serial_mode s.baud) w ≡ (some c, u))
          × Passes fuel s.auth_token c (new_scanner c u) w')
  unfolding connect connect_opened connect_authenticated
  connect_passed_iff fuel s t w w' = (
    opened_ok fuel s t (open_port (serial_mode s.baud) w) w',
    (λ (c, u, e, o, p).
        ap (connect_opened port marshal unmarshal fuel s) o
        ∙ ap (connect_authenticated port marshal unmarshal c s)
            ((authenticate_iff fuel s.auth_token c (new_scanner c u) w').1 p)
        ∙ ap (λ x. (ok tt, (x, w'))) (sym e)),
  )
