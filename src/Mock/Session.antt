-- ===== src/Mock/Session.antt =====
-- transport/transporttest/mock.go: what a test, the code under test, the goroutines and the clock
-- do.
use bramble_go.Prelude.{
  ◌≡◌, ◌++◌, ◌≤◌, ◌<◌, ◌+◌, ℕ, List, [], ◌∷◌, Option, none, some, Bytes, All, map, length,
  if◌then◌else◌,
}
use bramble_go.Runs.{Next}
use bramble_go.Mock.{
  Waiting, Mock, new_mock, connect, send, receive, close, queue_response, inject_async, arrive,
}

-- A mock at a time, and a record of what went in and out: the responses that were queued, those
-- that `receive` has returned, and the messages that were handed to `send` while it was connected.
pub record Trace : Type 0 where
  pub mock : Mock
  pub now : ℕ
  pub queued : List Bytes
  pub received : List Bytes
  pub offered : List Bytes

abbrev pub new_trace : Trace
new_trace = record { mock = new_mock; now = 0; queued = []; received = []; offered = [] }

-- What a test and the code under test do with the mock, a millisecond that passes, and a goroutine
-- that goes on.
pub data Event : Type 0 where
  connects closes receives ticks : Event
  sends queues injects : Bytes → Event
  arrives : ℕ → Event

unfoldable pub took : Trace → Option (Bytes × Mock) → Option Trace
took t none = none
took t (some (text, m)) = some (record t { mock = m; received = t.received ++ text ∷ [] })

unfoldable pub came : Trace → Option Mock → Option Trace
came t none = none
came t (some m) = some (record t { mock = m })

unfoldable pub step : Event → Trace → Option Trace
unfolding took came
step connects t = some (record t { mock = connect t.mock })
step closes t = some (record t { mock = close t.mock })
step receives t = took t (receive t.mock)
step ticks t = some (record t { now = t.now + 1 })
step (sends text) t = some (record t {
  mock = (send text t.mock).1;
  offered = if t.mock.connected then t.offered ++ text ∷ [] else t.offered;
})
step (queues text) t =
    some (record t { mock = queue_response t.now text t.mock; queued = t.queued ++ text ∷ [] })
step (injects text) t = some (record t { mock = inject_async t.now text t.mock })
step (arrives i) t = came t (arrive t.now i t.mock)

-- No `Close` and no `InjectAsync`; and before a millisecond passes, the goroutines that have slept
-- have sent, so that those that are left have still to sleep.
abbrev pub IsPromptStep : Event → Trace → Type 0
IsPromptStep closes t = ⊥
IsPromptStep (injects text) t = ⊥
IsPromptStep ticks t = All (λ g. t.now < g.wakes) t.mock.under_way
IsPromptStep _ t = Unit

abbrev pub IsPrompt : List Event → Trace → Type 0
IsPrompt [] t = Unit
IsPrompt (e ∷ es) t = IsPromptStep e t × Next (IsPrompt es) (step e t)

abbrev pub texts : List Waiting → List Bytes
texts = map (λ g. g.text)

-- A queue that loses nothing: each response is returned, in the channel, or under way, in the order
-- of `QueueResponse`; the channel keeps its capacity; and the mock has recorded what it was sent.
abbrev pub IsFifo : Trace → Type 0
IsFifo t =
    (t.received ++ (t.mock.recv ++ texts t.mock.under_way) ≡ t.queued)
    × (length t.mock.recv ≤ 64)
    × (t.mock.log ≡ t.offered)
