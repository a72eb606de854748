-- ===== src/Ble/Link/Loops.antt =====
-- transport/ble.go: how many goroutines reconnect.
use bramble_go.Prelude.{All, List, ◌≡◌, ◌≡◌, ◌≢◌, refl, false, some, if◌then◌else◌, arith}
use bramble_go.Runs.{Next, run, run-Next}
use bramble_go.Ble.Link.{
  new_link, Link, Event, connect, connected, up, down, close_called, loop_stops, loop_succeeds,
  step,
}

-- as many loops as the flag says, on a transport that is not being closed
Matches : Link → Type 0
Matches l = (l.closing ≡ false) × (l.loops ≡ (if l.reconnecting then 1 else 0))

step-Matches : (e : Event) (l : Link) → e ≢ close_called → Matches l → Next Matches (step e l)
unfolding step Matches
step-Matches connect l n (c, m) = ground arith
step-Matches connected l n (c, m) = (c, m)
step-Matches up l n (c, m) = (c, m)
step-Matches down l n (c, m) = ground arith
step-Matches close_called l n (c, m) = absurd (n refl)
step-Matches loop_stops l n (c, m) = ground arith
step-Matches loop_succeeds l n (c, m) = ground arith

-- As long as `Close` is not called, a transport has one goroutine that reconnects while it is
-- reconnecting, and none otherwise, however often the link is lost and found.
pub one_loop :
    (es : List Event) (l : Link)
    → All (λ e. e ≢ close_called) es
    → run step es new_link ≡ some l
    → l.loops ≡ (if l.reconnecting then 1 else 0)
unfolding Matches
one_loop es l a e =
    (run-Next step Matches (λ x. x ≢ close_called) step-Matches es new_link l a (refl, refl) e).1
