-- ===== src/Ble/Retry.antt =====
-- transport/ble.go: what a `retrySend` of the token that returns nil has done.
use mathlib.Core.Path.{subst}
use bramble_go.Prelude.{
  ◌<◌, arith, ◌≡◌, refl, ap, sym, ◌∙◌, ◌+◌, ℕ, zero, suc, Bool, true, false, Bytes, Result, ok, err,
  length, ltb, if◌then◌else◌,
}
use bramble_go.Ble.{
  Ble, Error, send, ble_auth_attempts, is_transient_ble_write_error, waited, retried, retry_send,
}

pub count_suc : (b : Bool) → (n : ℕ) × ((if b then 1 else 5) ≡ suc n)
count_suc true = (0, refl)
count_suc false = (4, refl)

-- at most 5 writes, and one of a token that does not fit in a chunk
abbrev pub attempts : Bytes → ℕ
attempts token = if ltb 240 (length token + 1) then 1 else 5

module _ {W : Type 0} (write : Bytes → W → Result Bytes (Unit {0}) × W)
    (wait : W → Result Error (Unit {0}) × W) where
  -- From the world `w`, `n` writes of the token fail with an error that may pass, each with a pause
  -- behind it, and the next one goes through.
  abbrev pub IsWrittenAfter : ℕ → Ble → W → W → Type 0
  IsWrittenAfter zero b w w₁ = send write b b.auth_token w ≡ (ok tt, w₁)
  IsWrittenAfter (suc n) b w w₁ =
      (e : Error) × (u : W) × (v : W) × (send write b b.auth_token w ≡ (err e, u))
      × (is_transient_ble_write_error e ≡ true)
      × (wait u ≡ (ok tt, v))
      × IsWrittenAfter n b v w₁

  abbrev IsWritten : ℕ → Ble → W → W → Type 0
  IsWritten attempts b w w₁ = (n : ℕ) × (n < attempts) × IsWrittenAfter n b w w₁

  waited_ok :
      (m : ℕ) (b : Ble) (e : Error) (w u w₁ : W) (r : Result Error (Unit {0}) × W)
      → send write b b.auth_token w ≡ (err e, u)
      → is_transient_ble_write_error e ≡ true
      → wait u ≡ r
      → ((v : W)
          → retry_send wait (send write b b.auth_token) m v ≡ (ok tt, w₁)
          → IsWritten m b v w₁)
      → waited wait (retry_send wait (send write b b.auth_token) m) r ≡ (ok tt, w₁)
      → IsWritten (suc m) b w w₁
  unfolding waited
  waited_ok m b e w u w₁ (ok x, v) sent t p more h =
      let (n, l, a) = more v h in (suc n, omega (arith, l), (e, u, v, sent, t, p, a))
  waited_ok m b e w u w₁ (err x, v) sent t p more h = cc h

  transient_ok :
      (m : ℕ) (b : Ble) (t : Bool) (e : Error) (w u w₁ : W)
      → send write b b.auth_token w ≡ (err e, u)
      → is_transient_ble_write_error e ≡ t
      → ((v : W)
          → retry_send wait (send write b b.auth_token) m v ≡ (ok tt, w₁)
          → IsWritten m b v w₁)
      → (if t
          then waited wait (retry_send wait (send write b b.auth_token) m) (wait u)
          else (err e, u))
        ≡ (ok tt, w₁)
      → IsWritten (suc m) b w w₁
  transient_ok m b true e w u w₁ sent t more h = waited_ok m b e w u w₁ (wait u) sent t refl more h
  transient_ok m b false e w u w₁ sent t more h = cc h

  retried_ok :
      (m : ℕ) (b : Ble) (r : Result Error (Unit {0}) × W) (w w₁ : W)
      → send write b b.auth_token w ≡ r
      → ((v : W)
          → retry_send wait (send write b b.auth_token) m v ≡ (ok tt, w₁)
          → IsWritten m b v w₁)
      → retried wait (retry_send wait (send write b b.auth_token) m) r ≡ (ok tt, w₁)
      → IsWritten (suc m) b w w₁
  unfolding retried
  retried_ok m b (ok x, u) w w₁ sent more h = (0, omega arith, sent ∙ h)
  retried_ok m b (err e, u) w w₁ sent more h =
      transient_ok m b (is_transient_ble_write_error e) e w u w₁ sent refl more h

  retry_send-IsWritten :
      (m : ℕ) (b : Ble) (w w₁ : W)
      → retry_send wait (send write b b.auth_token) (suc m) w ≡ (ok tt, w₁)
      → IsWritten (suc m) b w w₁
  unfolding retry_send
  retry_send-IsWritten zero b w w₁ h = (0, omega arith, h)
  retry_send-IsWritten (suc m) b w w₁ h =
      retried_ok (suc m) b (send write b b.auth_token w) w w₁ refl
        (λ v k. retry_send-IsWritten m b v w₁ k) h

  pub token_attempts :
      (b : Ble) (w w₁ : W)
      → retry_send wait (send write b b.auth_token) (ble_auth_attempts b.auth_token) w ≡ (ok tt, w₁)
      → IsWritten (attempts b.auth_token) b w w₁
  unfolding ble_auth_attempts
  token_attempts b w w₁ h =
      let (m, e) = count_suc (ltb 240 (length b.auth_token + 1)) in
      subst (λ k. IsWritten k b w w₁) (sym e)
        (retry_send-IsWritten m b w w₁
          (sym (ap (λ k. retry_send wait (send write b b.auth_token) k w) e) ∙ h))
