-- ===== src/Backoff/Schedule.antt =====
-- transport/serial.go and transport/websocket.go: how long the loop waits, and that it ends.
use bramble_go.Prelude.{
  ◌≡◌, refl, ap, sym, ◌∙◌, ◌<◌, ◌+◌, ◌*◌, ◌^◌, min, ℕ, zero, suc, Bool, true, false, Option, none,
  some, if◌then◌else◌, arith,
}
use bramble_go.Backoff.{next_delay, Outcome, up, shut, attempted, retry}

-- the seconds before attempt `i`: 1, 2, 4, 8, 16, and then 30
abbrev pub backoff : ℕ → ℕ
backoff i = min (2 ^ i) 30

next_delay-min : (m : ℕ) → next_delay (min m 30) ≡ min (2 * m) 30
unfolding next_delay
next_delay-min m = ground arith

pub next_delay-backoff : (i : ℕ) → next_delay (backoff i) ≡ backoff (suc i)
next_delay-backoff i = next_delay-min (2 ^ i) ∙ ap (λ m. min m 30) (omega arith)

module _ {W C : Type 0} (closed : W → Bool) (sleep : ℕ → W → W) (attempt : W → Option C × W) where
  -- the world behind attempt `i`
  abbrev pub tried : ℕ → W → W
  tried i w = (attempt (sleep (backoff i) w)).1

  -- the world behind the `k` attempts from attempt `i` on
  abbrev pub after : ℕ → ℕ → W → W
  after zero i w = w
  after (suc k) i w = after k (suc i) (tried i w)

  -- Each of these attempts fails, and `Close` is not called before the last of them.
  abbrev pub Fail : ℕ → ℕ → W → Type 0
  Fail zero i w = Unit
  Fail (suc k) i w =
      (closed w ≡ false) × ((attempt (sleep (backoff i) w)).0 ≡ none) × Fail k (suc i) (tried i w)

  attempted-none :
      (rest : W → Outcome C × W) (p : Option C × W)
      → p.0 ≡ none
      → attempted closed sleep attempt rest p ≡ rest p.1
  unfolding attempted
  attempted-none rest (none, w) h = refl
  attempted-none rest (some c, w) h = cc

  -- a round while `done` is open
  pub retry_round :
      (fuel i : ℕ) (w : W)
      → closed w ≡ false
      → retry closed sleep attempt (suc fuel) (backoff i) w
        ≡ attempted closed sleep attempt
            (retry closed sleep attempt fuel (backoff (suc i)))
            (attempt (sleep (backoff i) w))
  unfolding retry
  retry_round fuel i w h =
      ap
        (λ b.
          if b
          then (shut, w)
          else attempted closed sleep attempt
              (retry closed sleep attempt fuel (next_delay (backoff i)))
              (attempt (sleep (backoff i) w)))
        h
      ∙ ap
          (λ d.
            attempted closed sleep attempt (retry closed sleep attempt fuel d)
              (attempt (sleep (backoff i) w)))
          (next_delay-backoff i)

  retry_fails :
      (fuel i : ℕ) (w : W)
      → closed w ≡ false
      → (attempt (sleep (backoff i) w)).0 ≡ none
      → retry closed sleep attempt (suc fuel) (backoff i) w
        ≡ retry closed sleep attempt fuel (backoff (suc i)) (tried i w)
  retry_fails fuel i w unclosed none_yet =
      retry_round fuel i w unclosed
      ∙ attempted-none (retry closed sleep attempt fuel (backoff (suc i)))
          (attempt (sleep (backoff i) w)) none_yet

  -- The loop returns the connection of the first attempt that succeeds.
  pub retry-up :
      (k fuel i j : ℕ) (w w' : W) (c : C)
      → k < fuel
      → j ≡ i + k
      → Fail k i w
      → closed (after k i w) ≡ false
      → attempt (sleep (backoff j) (after k i w)) ≡ (some c, w')
      → retry closed sleep attempt fuel (backoff i) w ≡ (up c, w')
  unfolding attempted
  retry-up k zero i j w w' c l e f o s = absurd (omega arith)
  retry-up zero (suc fuel) i j w w' c l e f o s =
      let same : j ≡ i = omega arith in
      retry_round fuel i w o
      ∙ ap (attempted closed sleep attempt (retry closed sleep attempt fuel (backoff (suc i))))
          (ap (λ n. attempt (sleep (backoff n) w)) (sym same) ∙ s)
  retry-up (suc k) (suc fuel) i j w w' c l e (unclosed, fails, more) o s =
      retry_fails fuel i w unclosed fails
      ∙ retry-up k fuel (suc i) j (tried i w) w' c (omega arith) (omega arith) more o s

  -- The loop ends without a connection at the first round that finds `done` closed.
  pub retry-shut :
      (k fuel i : ℕ) (w : W)
      → k < fuel
      → Fail k i w
      → closed (after k i w) ≡ true
      → retry closed sleep attempt fuel (backoff i) w ≡ (shut, after k i w)
  unfolding retry
  retry-shut k zero i w l f o = absurd (omega arith)
  retry-shut zero (suc fuel) i w l f o = rw o
  retry-shut (suc k) (suc fuel) i w l (unclosed, fails, more) o =
      retry_fails fuel i w unclosed fails
      ∙ retry-shut k fuel (suc i) (tried i w) (omega arith) more o

  attempted_up :
      (rest : W → Outcome C × W) (p : Option C × W) (c : C) (v w : W)
      → attempt v ≡ p
      → (rest p.1 ≡ (up c, w) → (u : W) × (attempt u ≡ (some c, w)))
      → attempted closed sleep attempt rest p ≡ (up c, w)
      → (u : W) × (attempt u ≡ (some c, w))
  unfolding attempted
  attempted_up rest (some d, x) c v w e more h = (v, e ∙ cc)
  attempted_up rest (none, x) c v w e more h = more h

  unclosed :
      (b : Bool) (c : C) (v w : W) (round : Outcome C × W)
      → (if b then (shut, v) else round) ≡ (up c, w)
      → round ≡ (up c, w)
  unclosed true c v w round h = cc h
  unclosed false c v w round h = h

  -- The loop comes up only with what an attempt has opened.
  pub retry_up :
      (fuel delay : ℕ) (c : C) (w w' : W)
      → retry closed sleep attempt fuel delay w ≡ (up c, w')
      → (u : W) × (attempt u ≡ (some c, w'))
  unfolding retry
  retry_up zero delay c w w' h = cc h
  retry_up (suc fuel) delay c w w' h =
      attempted_up (retry closed sleep attempt fuel (next_delay delay)) (attempt (sleep delay w)) c
        (sleep delay w) w' refl (retry_up fuel (next_delay delay) c (attempt (sleep delay w)).1 w')
        (unclosed (closed w) c w w' _ h)
