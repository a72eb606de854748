-- ===== src/Backoff.antt =====
-- transport/serial.go and transport/websocket.go: the loop that both transports reconnect in. The
-- world `W` has the clock, the device and the other goroutines; `closed` reads whether `done` is
-- closed, `sleep` waits some seconds, and `attempt` opens a connection and sets it up.
pub mod Schedule
use bramble_go.Prelude.{
  ℕ, zero, suc, ◌*◌, Bool, true, false, Option, none, some, ltb, if◌then◌else◌,
}

abbrev pub max_delay : ℕ
max_delay = 30

-- `delay *= 2`, and its cap
unfoldable pub next_delay : ℕ → ℕ
next_delay delay = if ltb max_delay (delay * 2) then max_delay else delay * 2

-- How the loop ends: with a connection, by `Close`, or with the model's fuel.
pub data Outcome (C : Type 0) : Type 0 where
  up : C → Outcome C
  shut : Outcome C
  out_of_fuel : Outcome C

module _ {W C : Type 0} (closed : W → Bool) (sleep : ℕ → W → W) (attempt : W → Option C × W) where
  -- what a round does behind its attempt; `rest` is the rounds that follow
  unfoldable pub attempted : (W → Outcome C × W) → Option C × W → Outcome C × W
  attempted rest (some c, w) = (up c, w)
  attempted rest (none, w) = rest w

  -- The `for` loop, on fuel: it ends only by its conditions, which the world decides.
  unfoldable pub retry : ℕ → ℕ → W → Outcome C × W
  unfolding attempted
  retry zero delay w = (out_of_fuel, w)
  retry (suc fuel) delay w =
      let round = attempted (retry fuel (next_delay delay)) (attempt (sleep delay w)) in
      if closed w then (shut, w) else round
