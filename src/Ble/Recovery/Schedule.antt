-- ===== src/Ble/Recovery/Schedule.antt =====
-- transport/ble.go: how `reconnectLoop` ends, and after which waits.
use bramble_go.Prelude.{
  ◌≡◌, refl, ap, sym, ◌∙◌, ◌<◌, ℕ, zero, suc, true, false, Bytes, Option, Bool-cases, ◌⊎◌, inl, inr,
  Result, ok, err, if◌then◌else◌, arith,
}
use bramble_go.Backoff.{next_delay, Outcome, up, shut}
use bramble_go.Backoff.Schedule.{backoff, next_delay-backoff}
use bramble_go.Ble.{Ack}
use bramble_go.Ble.Connect.{Adapter, Peer, ConnectError, connect_peer}
use bramble_go.Ble.Recovery.{reconnect_loop, tried, loop_succeeded, loop_ended}

module _ {W A D S C : Type 0} (adapter : Adapter W A D S C) (unmarshal : Bytes → Option Ack)
    (sleep : ℕ → Peer D C × W → Peer D C × W) where
  abbrev pub trial : Peer D C × W → Result ConnectError (Unit {0}) × (Peer D C × W)
  trial s = connect_peer adapter unmarshal s.0 s.1

  -- the state behind attempt `i` and its delay
  abbrev pub slept : ℕ → Peer D C × W → Peer D C × W
  slept i s = sleep (backoff i) (trial s).1

  -- the state behind `k` attempts from attempt `i` on
  abbrev pub behind : ℕ → ℕ → Peer D C × W → Peer D C × W
  behind zero i s = s
  behind (suc k) i s = behind k (suc i) (slept i s)

  -- Each of these attempts fails, and none finds `closing`.
  abbrev pub AllFail : ℕ → ℕ → Peer D C × W → Type 0
  AllFail zero i s = Unit
  AllFail (suc k) i s =
      (s.0.link.closing ≡ false)
      × ((e : ConnectError) × ((trial s).0 ≡ err e))
      × AllFail k (suc i) (slept i s)

  abbrev loop : ℕ → ℕ → Peer D C × W → Outcome (Unit {0}) × (Peer D C × W)
  loop fuel i s = reconnect_loop adapter unmarshal sleep fuel (backoff i) s

  -- a round that does not find `closing`
  loop_round :
      (fuel i : ℕ) (s : Peer D C × W)
      → s.0.link.closing ≡ false
      → loop (suc fuel) i s
        ≡ tried adapter unmarshal sleep (λ t. loop fuel (suc i) (sleep (backoff i) t)) (trial s)
  unfolding reconnect_loop
  loop_round fuel i (p, w) h =
      ap
        (λ b.
          if b
          then (shut, (loop_ended p, w))
          else tried adapter unmarshal sleep
              (λ t.
                reconnect_loop adapter unmarshal sleep fuel (next_delay (backoff i))
                  (sleep (backoff i) t))
              (trial (p, w)))
        h
      ∙ ap
          (λ d.
            tried adapter unmarshal sleep
              (λ t. reconnect_loop adapter unmarshal sleep fuel d (sleep (backoff i) t))
              (trial (p, w)))
          (next_delay-backoff i)

  tried_err :
      (again : Peer D C × W → Outcome (Unit {0}) × (Peer D C × W))
      (r : Result ConnectError (Unit {0}) × (Peer D C × W)) (e : ConnectError)
      → r.0 ≡ err e
      → tried adapter unmarshal sleep again r ≡ again r.1
  unfolding tried
  tried_err again (ok u, s) e h = cc
  tried_err again (err x, s) e h = refl

  loop_fails :
      (fuel i : ℕ) (s : Peer D C × W) (e : ConnectError)
      → s.0.link.closing ≡ false
      → (trial s).0 ≡ err e
      → loop (suc fuel) i s ≡ loop fuel (suc i) (slept i s)
  loop_fails fuel i s e h f =
      loop_round fuel i s h ∙ tried_err (λ t. loop fuel (suc i) (sleep (backoff i) t)) (trial s) e f

  loop-up :
      (k fuel i : ℕ) (s : Peer D C × W) (q : Peer D C) (v : W)
      → k < fuel
      → AllFail k i s
      → (behind k i s).0.link.closing ≡ false
      → trial (behind k i s) ≡ (ok tt, (q, v))
      → loop fuel i s ≡ (up tt, (loop_succeeded q, v))
  unfolding tried
  loop-up k zero i s q v l f o e = absurd (omega arith)
  loop-up zero (suc fuel) i s q v l f o e =
      loop_round fuel i s o
      ∙ ap (tried adapter unmarshal sleep (λ t. loop fuel (suc i) (sleep (backoff i) t))) e
  loop-up (suc k) (suc fuel) i s q v l (c, (x, failed), more) o e =
      loop_fails fuel i s x c failed ∙ loop-up k fuel (suc i) (slept i s) q v (omega arith) more o e

  loop-shut :
      (k fuel i : ℕ) (s : Peer D C × W)
      → k < fuel
      → AllFail k i s
      → (behind k i s).0.link.closing ≡ true
      → loop fuel i s ≡ (shut, (loop_ended (behind k i s).0, (behind k i s).1))
  unfolding reconnect_loop
  loop-shut k zero i s l f o = absurd (omega arith)
  loop-shut zero (suc fuel) i (p, w) l f o = rw o
  loop-shut (suc k) (suc fuel) i s l (c, (x, failed), more) o =
      loop_fails fuel i s x c failed ∙ loop-shut k fuel (suc i) (slept i s) (omega arith) more o

  -- `k` attempts to connect fail, with waits of 1, 2, 4, 8, 16 and then 30 seconds behind them. If
  -- the next one finds `closing`, `reconnectLoop` returns there without another attempt. If it
  -- connects instead, the loop returns connected and not reconnecting any more, and `OnReconnect`
  -- is called.
  pub reconnect_loop_ends :
      (k fuel : ℕ) (s : Peer D C × W) (r : Result ConnectError (Unit {0})) (q : Peer D C) (v : W)
      → k < fuel
      → AllFail k 0 s
      → trial (behind k 0 s) ≡ (r, (q, v))
      → ((behind k 0 s).0.link.closing ≡ true) ⊎ (r ≡ ok tt)
      → reconnect_loop adapter unmarshal sleep fuel 1 s ≡ (
          if (behind k 0 s).0.link.closing
          then (shut, (loop_ended (behind k 0 s).0, (behind k 0 s).1))
          else (up tt, (loop_succeeded q, v)))
  reconnect_loop_ends k fuel s r q v l f e h = elim (Bool-cases (behind k 0 s).0.link.closing) [
    | inl c ↦ rw c (loop-shut k fuel 0 s l f c)
    | inr o ↦ elim h [
      | inl c ↦ let clash : true ≡ false = sym c ∙ o in absurd (cc clash)
      | inr t ↦ rw o (loop-up k fuel 0 s q v l f o (e ∙ ap (λ x. (x, (q, v))) t))
    ]
  ]
