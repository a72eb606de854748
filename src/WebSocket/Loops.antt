-- ===== src/WebSocket/Loops.antt =====
-- transport/websocket.go: the goroutines that reconnect, and `Close` beside them.
use bramble_go.Prelude.{
  ◌≡◌, ◌≤◌, ◌+◌, ◌++◌, ℕ, zero, suc, Bool, true, List, [], ◌∷◌, Option, none, some, arith,
  if◌then◌else◌, All,
}
use bramble_go.Runs.{Next, run, run-Next}
use bramble_go.WebSocket.{WebSocket, Callback, on_disconnect, on_reconnect, lose, regain, give_up}

-- The transport with the number of goroutines in the loop of `reconnect`, and whether `done` is
-- closed.
pub record Shared (C : Type 0) : Type 0 where
  pub socket : WebSocket C
  pub loops : ℕ
  pub done : Bool

module _ {C : Type 0} where
  -- `reconnect` is called, by a failed read or by the goroutine that a failed write starts.
  enter : Shared C → Shared C
  unfolding lose
  enter s =
      if s.socket.is_reconnecting
      then s
      else record s { socket = lose s.socket; loops = suc s.loops }

  -- a loop finds `done` closed
  leave : ℕ → Shared C → Option (Shared C)
  unfolding give_up
  leave zero s = none
  leave (suc n) s =
      if s.done then some (record s { socket = give_up s.socket; loops = n }) else none

  -- a dial of a loop succeeds, whether or not `done` was closed since the loop looked
  succeed : C → ℕ → Shared C → Option (Shared C)
  unfolding regain
  succeed c zero s = none
  succeed c (suc n) s = some (record s { socket = regain c s.socket; loops = n })

-- `connected`: `Connect` has dialled; `lost`: `reconnect` is called; `stops` and `redialled`: a
-- loop ends; `closes`: `Close` has closed `done`.
pub data Event (C : Type 0) : Type 0 where
  connected redialled : C → Event C
  lost stops closes : Event C

module _ {C : Type 0} where
  -- The critical sections; `none` is one that cannot come about in the state.
  unfoldable pub step : Event C → Shared C → Option (Shared C)
  unfolding enter leave succeed
  step (connected c) s = some (record s { socket = record s.socket { conn = some c } })
  step (redialled c) s = succeed c s.loops s
  step lost s = some (enter s)
  step stops s = leave s.loops s
  step closes s = some (record s { done = true })

-- the calls of a callback
abbrev pub disconnects : List Callback → ℕ
disconnects [] = 0
disconnects (on_disconnect ∷ cs) = suc (disconnects cs)
disconnects (on_reconnect ∷ cs) = disconnects cs

abbrev pub reconnects : List Callback → ℕ
reconnects [] = 0
reconnects (on_disconnect ∷ cs) = reconnects cs
reconnects (on_reconnect ∷ cs) = suc (reconnects cs)

any : {E : Type 0} (es : List E) → All (λ x. Unit {0}) es
any [] = tt
any (e ∷ es) = (tt, any es)

disconnects-append : (x y : List Callback) → disconnects (x ++ y) ≡ disconnects x + disconnects y
disconnects-append [] y = omega arith
disconnects-append (on_disconnect ∷ x) y = omega (arith, disconnects-append x y)
disconnects-append (on_reconnect ∷ x) y = disconnects-append x y

reconnects-append : (x y : List Callback) → reconnects (x ++ y) ≡ reconnects x + reconnects y
reconnects-append [] y = omega arith
reconnects-append (on_disconnect ∷ x) y = reconnects-append x y
reconnects-append (on_reconnect ∷ x) y = omega (arith, reconnects-append x y)

module _ {C : Type 0} where
  -- As many loops as the flag says, and for each loop that runs or has reconnected its own call of
  -- the callback before it.
  abbrev pub IsOrderly : Shared C → Type 0
  IsOrderly s =
      (s.loops ≡ (if s.socket.is_reconnecting then 1 else 0))
      × (reconnects s.socket.called + s.loops ≤ disconnects s.socket.called)

  step-IsOrderly : (e : Event C) (s : Shared C) → IsOrderly s → Next IsOrderly (step e s)
  unfolding step lose regain give_up
  step-IsOrderly (connected c) s h = h
  step-IsOrderly (redialled c) s h = ground (
    arith,
    disconnects-append s.socket.called (on_reconnect ∷ []),
    reconnects-append s.socket.called (on_reconnect ∷ []),
  )
  step-IsOrderly lost s h = ground (
    arith,
    disconnects-append s.socket.called (on_disconnect ∷ []),
    reconnects-append s.socket.called (on_disconnect ∷ []),
  )
  step-IsOrderly stops s h = ground arith
  step-IsOrderly closes s h = h

  -- However reads and writes fail, dials succeed and `Close` is called, one goroutine reconnects
  -- while the transport is reconnecting and none otherwise, and `OnReconnect` is called at most as
  -- often as `OnDisconnect`.
  pub run-IsOrderly :
      (es : List (Event C)) (s t : Shared C) → IsOrderly s → run step es s ≡ some t → IsOrderly t
  run-IsOrderly es s t h e =
      run-Next step IsOrderly (λ x. Unit {0}) (λ x r q. step-IsOrderly x r) es s t (any es) h e
