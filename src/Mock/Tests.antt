-- ===== src/Mock/Tests.antt =====
-- transport/transporttest/mock.go: a test with two responses and two messages.
use bramble_go.Prelude.{arith, refl, true, List, [], ◌∷◌, codes}
use bramble_go.Runs.{run}
use bramble_go.Mock.{new_mock, connect, send, receive, queue_response, arrive}
use bramble_go.Mock.Session.{
  Trace, Event, connects, ticks, arrives, receives, sends, queues, step, IsFifo,
}
use bramble_go.Mock.Laws.{run-IsFifo}

abbrev session : List Event
session =
    sends (codes "early")
    ∷ connects
    ∷ queues (codes "a")
    ∷ sends (codes "{}")
    ∷ queues (codes "b")
    ∷ ticks
    ∷ arrives 0
    ∷ ticks
    ∷ arrives 0
    ∷ receives
    ∷ []

abbrev behind : Trace
behind = record {
  mock = record new_mock {
    log = codes "{}" ∷ [];
    connected = true;
    recv = codes "b" ∷ [];
    queue_seq = 2;
  };
  now = 2;
  queued = codes "a" ∷ codes "b" ∷ [];
  received = codes "a" ∷ [];
  offered = codes "{}" ∷ [];
}

run-IsFifo_example : IsFifo behind
unfolding run step connect send receive queue_response arrive
run-IsFifo_example =
    run-IsFifo session behind
      (
        tt,
        (
          tt,
          (
            tt,
            (
              tt,
              (tt, ((omega arith, (omega arith, tt)), (tt, ((omega arith, tt), (tt, (tt, tt)))))),
            ),
          ),
        ),
      )
      refl
