-- ===== src/Ble/Auth.antt =====
-- transport/ble.go: the token handshake.
use bramble_go.Prelude.{
  ◌<◌, ◌≡◌, refl, ap, sym, ◌∙◌, ◌+◌, ℕ, zero, suc, Bool, true, false, Option, none, some, Bytes,
  Result, ok, err, length, ltb, is_empty, if◌then◌else◌,
}
use bramble_go.Transport.{has_error}
use bramble_go.Ble.{
  auth_failed, auth_validate, close_ready, context_ready, Ble, Error, auth_write, reconnecting,
  send, ble_chunk_size, ble_auth_attempts, is_transient_ble_write_error, retried, retry_send, Ready,
  message_ready, Ack, check_ack, check_result, authenticate, token_written, answered, acknowledged,
  receive,
}
use bramble_go.Ble.Retry.{count_suc, attempts, IsWrittenAfter, token_attempts}
use bramble_go.Text.{cut_prefix, to_lower, search}

attempts_suc : (token : Bytes) → (n : ℕ) × (ble_auth_attempts token ≡ suc n)
unfolding ble_auth_attempts
attempts_suc token = count_suc (ltb ble_chunk_size (length token + 1))

module _ {W : Type 0} (write : Bytes → W → Result Bytes (Unit {0}) × W)
    (wait : W → Result Error (Unit {0}) × W) (select : W → Ready × W)
    (unmarshal : Bytes → Option Ack) where
  retry_send_fails :
      (try : W → Result Error (Unit {0}) × W) (n : ℕ) (e : Error) (w : W)
      → try w ≡ (err e, w)
      → is_transient_ble_write_error e ≡ false
      → retry_send wait try (suc n) w ≡ (err e, w)
  unfolding retry_send retried
  retry_send_fails try zero e w h t = h
  retry_send_fails try (suc n) e w h t = ap (retried wait (retry_send wait try (suc n))) h ∙ rw t

  send_reconnecting :
      (b : Ble) (text : Bytes) (w : W)
      → b.reconnecting ≡ true
      → send write b text w ≡ (err reconnecting, w)
  unfolding send
  send_reconnecting b text w h = rw h

  authenticate_token :
      (b : Ble) (w : W)
      → is_empty b.auth_token ≡ false
      → authenticate write wait select unmarshal b w
        ≡ token_written write wait select unmarshal
            (retry_send wait (send write b b.auth_token) (ble_auth_attempts b.auth_token) w)
  unfolding authenticate
  authenticate_token b w t = rw t

  reconnecting_final : is_transient_ble_write_error reconnecting ≡ false
  unfolding is_transient_ble_write_error to_lower search cut_prefix
  reconnecting_final = refl

  -- While the transport reconnects, the handshake of a token fails in every world: its write is
  -- refused, nothing reaches the device, and it is not tried again.
  pub authenticate_reconnecting :
      (b : Ble) (w : W)
      → b.reconnecting ≡ true
      → is_empty b.auth_token ≡ false
      → authenticate write wait select unmarshal b w ≡ (err (auth_write reconnecting), w)
  unfolding authenticate token_written
  authenticate_reconnecting b w h t =
      let (n, e) = attempts_suc b.auth_token in
      authenticate_token b w t
      ∙ ap
          (λ k.
            token_written write wait select unmarshal
              (retry_send wait (send write b b.auth_token) k w))
          e
      ∙ ap (token_written write wait select unmarshal) (
          retry_send_fails (send write b b.auth_token) n reconnecting w
            (send_reconnecting b b.auth_token w h) reconnecting_final)

  -- what an accepted handshake has read
  Acknowledged : W → W → Type 0
  Acknowledged w w' =
      (raw : Bytes) × (a : Ack) × (select w ≡ (message_ready raw, w'))
      × (unmarshal raw ≡ some a)
      × (a.result ≡ some true)

  check_result-true : (o : Option Bool) → check_result o ≡ ok tt → o ≡ some true
  unfolding check_result
  check_result-true (some true) h = refl
  check_result-true (some false) h = cc
  check_result-true none h = cc

  chosen_true :
      (t : Bool) (e : Error) (o : Option Bool)
      → (if t then err e else check_result o) ≡ ok tt
      → o ≡ some true
  chosen_true true e o h = cc
  chosen_true false e o h = check_result-true o h

  check_ack-true :
      (o : Option Ack) → check_ack o ≡ ok tt → (a : Ack) × (o ≡ some a) × (a.result ≡ some true)
  unfolding check_ack
  check_ack-true none h = cc
  check_ack-true (some a) h =
      (a, refl, chosen_true (has_error a.error) (auth_failed a.error) a.result h)

  validated :
      (r : Result Error (Unit {0}))
      → elim r as (λ x. Result Error (Unit {0})) [ ok u ↦ ok u | err e ↦ err (auth_validate e) ]
        ≡ ok tt
      → r ≡ ok tt
  validated (ok tt) h = refl
  validated (err e) h = cc

  answered-true :
      (r : Ready) (w w' : W)
      → answered write wait select unmarshal (r, w) ≡ (ok tt, w')
      → (raw : Bytes) × (a : Ack) × (◌≡◌ {A = Ready × W} (r, w) (message_ready raw, w'))
        × (unmarshal raw ≡ some a)
        × (a.result ≡ some true)
  unfolding answered acknowledged receive
  answered-true (message_ready raw) w w' h =
      let (a, e, t) =
        check_ack-true (unmarshal raw) (validated (check_ack (unmarshal raw)) (ap (λ p. p.0) h)) in
      (raw, a, ap (λ v. (message_ready raw, v)) (ap (λ p. p.1) h), e, t)
  answered-true close_ready w w' h = cc
  answered-true context_ready w w' h = cc

  token_written_true :
      (r : Result Error (Unit {0}) × W) (w' : W)
      → token_written write wait select unmarshal r ≡ (ok tt, w')
      → (w₁ : W) × (r ≡ (ok tt, w₁)) × Acknowledged w₁ w'
  unfolding token_written Acknowledged
  token_written_true (ok tt, w) w' h =
      let (raw, a, e, u, t) = answered-true (select w).0 (select w).1 w' h in
      (w, refl, (raw, a, e, u, t))
  token_written_true (err e, w) w' h = cc

  -- A handshake of a token that succeeds has written the token, within 5 writes, or with the first
  -- if the token does not fit in a chunk, the writes before it having failed with an error that may
  -- pass, and has read behind it an answer of the device whose result has `ok` true.
  pub authenticate_acknowledged :
      (b : Ble) (w w' : W)
      → is_empty b.auth_token ≡ false
      → authenticate write wait select unmarshal b w ≡ (ok tt, w')
      → (w₁ : W) × (n : ℕ) × (n < attempts b.auth_token)
        × IsWrittenAfter write wait n b w w₁
        × (raw : Bytes) × (a : Ack) × (select w₁ ≡ (message_ready raw, w'))
        × (unmarshal raw ≡ some a)
        × (a.result ≡ some true)
  unfolding Acknowledged
  authenticate_acknowledged b w w' t h =
      let (w₁, e, (raw, a, r, u, k)) =
        token_written_true _ w' (sym (authenticate_token b w t) ∙ h) in
      let (n, l, written) = token_attempts write wait b w w₁ e in
      (w₁, n, l, written, raw, a, r, u, k)
