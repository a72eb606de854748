-- ===== src/Mock/Laws.antt =====
-- transport/transporttest/mock.go: the mock as a queue between a test and the code under test.
use mathlib.Core.Path.{subst}
use bramble_go.Prelude.Maybe.{>>=-eq-some}
use bramble_go.Prelude.{
  ◌≡◌, refl, ap, ◌∙◌, sym, ◌++◌, ◌≤◌, ◌+◌, ◌&&◌, ℕ, Bool, true, false, List, [], ◌∷◌, Option, none,
  some, Bytes, append_assoc, arith, length, length-append, leb, ltb, leb→le, ltb→lt, if◌then◌else◌,
}
use bramble_go.Runs.{Next, Next-some, run}
use bramble_go.Mock.{
  Waiting, connect, send, receive, receive_first, queue_response, choose, land, arrive,
  recv_capacity,
}
use bramble_go.Mock.Timed.{
  choose_first, AllBy-append, IsTimed, AllBy, IsTimed-tail, IsTimed-tick, IsTimed-append,
  AllBy-later,
}
use bramble_go.Mock.Session.{
  Trace, new_trace, Event, connects, closes, receives, ticks, sends, queues, injects, arrives, took,
  came, step, IsPromptStep, IsPrompt, texts, IsFifo,
}

-- The goroutines wake up one after another, in the order in which they were started.
abbrev IsOnTime : Trace → Type 0
IsOnTime t = IsTimed t.now t.mock.under_way × AllBy (t.now + t.mock.queue_seq) t.mock.under_way

abbrev Inv : Trace → Type 0
Inv t = IsFifo t × IsOnTime t

-- A response moves from the front of what waits to the end of what was returned.
moved :
    (done : List Bytes) (text : Bytes) (more way all : List Bytes)
    → done ++ ((text ∷ more) ++ way) ≡ all
    → (done ++ text ∷ []) ++ (more ++ way) ≡ all
moved done text more way all h = append_assoc done (text ∷ []) (more ++ way) ∙ h

-- The first response that is under way moves to the end of the channel.
landed :
    (done recv : List Bytes) (text : Bytes) (more all : List Bytes)
    → done ++ (recv ++ (text ∷ more)) ≡ all
    → done ++ ((recv ++ text ∷ []) ++ more) ≡ all
landed done recv text more all h = ap (λ xs. done ++ xs) (append_assoc recv (text ∷ []) more) ∙ h

texts-append : (gs : List Waiting) (g : Waiting) → texts (gs ++ g ∷ []) ≡ texts gs ++ g.text ∷ []
texts-append [] g = refl
texts-append (h ∷ gs) g = ap (λ l. h.text ∷ l) (texts-append gs g)

queued_last :
    (done recv way : List Bytes) (text : Bytes) (all : List Bytes)
    → done ++ (recv ++ way) ≡ all
    → done ++ (recv ++ (way ++ text ∷ [])) ≡ all ++ text ∷ []
queued_last done recv way text all h =
    ap (λ xs. done ++ xs) (sym (append_assoc recv way (text ∷ [])))
    ∙ sym (append_assoc done (recv ++ way) (text ∷ []))
    ∙ ap (λ xs. xs ++ text ∷ []) h

receives-Inv :
    (rs : List Bytes) (t : Trace)
    → t.mock.recv ≡ rs
    → Inv t
    → Next Inv (took t (receive_first rs t.mock))
unfolding took receive_first
receives-Inv [] t r h = tt
receives-Inv (text ∷ more) t r ((fifo, room, log), times) = (
  (
    moved t.received text more (texts t.mock.under_way) t.queued
        (ap (λ xs. t.received ++ (xs ++ texts t.mock.under_way)) (sym r) ∙ fifo),
    omega (arith, ap length r),
    log,
  ),
  times,
)

-- what lands, where the tests of `land` come out as `awake` and `room`
landed-Inv :
    (awake room : Bool) (g : Waiting) (rest : List Waiting) (t : Trace)
    → leb g.wakes t.now ≡ awake
    → ltb (length t.mock.recv) recv_capacity ≡ room
    → (g.wakes ≤ t.now → t.mock.under_way ≡ g ∷ rest)
    → Inv t
    → Next Inv (
        came t (
          if awake && room
          then some (record t.mock { recv = t.mock.recv ++ g.text ∷ []; under_way = rest })
          else none))
unfolding came
landed-Inv false room g rest t a r w h = tt
landed-Inv true false g rest t a r w h = tt
landed-Inv true true g rest t a r first ((fifo, room, log), (timed, by)) =
    let w = first (leb→le g.wakes t.now a) in
    (
      (
        landed t.received t.mock.recv g.text (texts rest) t.queued
            (ap (λ xs. t.received ++ (t.mock.recv ++ texts xs)) (sym w) ∙ fifo),
        omega (arith, length-append t.mock.recv (g.text ∷ []), ltb→lt (length t.mock.recv) 64 r),
        log,
      ),
      (
        IsTimed-tail t.now g rest (subst (IsTimed t.now) w timed),
        (subst (AllBy (t.now + t.mock.queue_seq)) w by).1,
      ),
    )

arrives-Inv :
    (i : ℕ) (o : Option (Waiting × List Waiting)) (t : Trace)
    → choose i t.mock.under_way ≡ o
    → Inv t
    → Next Inv (came t (land t.now t.mock o))
unfolding came land
arrives-Inv i none t e h = tt
arrives-Inv i (some (g, rest)) t e h =
    landed-Inv (leb g.wakes t.now) (ltb (length t.mock.recv) recv_capacity) g rest t refl refl
      (choose_first t.now i t.mock.under_way g rest h.1.0 e) h

sends-Inv : (text : Bytes) (t : Trace) → Inv t → Next Inv (step (sends text) t)
unfolding step send
sends-Inv text t ((fifo, room, log), times) = ground arith

step-Inv : (e : Event) (t : Trace) → IsPromptStep e t → Inv t → Next Inv (step e t)
unfolding step connect receive arrive queue_response
step-Inv connects t p h = h
step-Inv closes t p h = absurd p
step-Inv (injects text) t p h = absurd p
step-Inv receives t p h = receives-Inv t.mock.recv t refl h
step-Inv ticks t p (fifo, (timed, by)) = (
  fifo,
  (
    IsTimed-tick t.now t.mock.under_way p timed,
    AllBy-later (t.now + t.mock.queue_seq) (t.now + 1 + t.mock.queue_seq) t.mock.under_way
        (omega arith) by,
  ),
)
step-Inv (sends text) t p h = sends-Inv text t h
step-Inv (arrives i) t p h = arrives-Inv i (choose i t.mock.under_way) t refl h
step-Inv (queues text) t p ((fifo, room, log), (timed, by)) =
    let g : Waiting = record { wakes = t.now + (t.mock.queue_seq + 1); text = text } in
    (
      (
        ap (λ xs. t.received ++ (t.mock.recv ++ xs)) (texts-append t.mock.under_way g)
            ∙ queued_last t.received t.mock.recv (texts t.mock.under_way) text t.queued fifo,
        room,
        log,
      ),
      (
        IsTimed-append t.now (t.now + t.mock.queue_seq) t.mock.under_way g (omega arith)
            (omega arith) by timed,
        AllBy-append (t.now + (t.mock.queue_seq + 1)) t.mock.under_way g (omega arith) (
            AllBy-later (t.now + t.mock.queue_seq) (t.now + (t.mock.queue_seq + 1)) t.mock.under_way
              (omega arith) by),
      ),
    )

run-Inv : (es : List Event) (s t : Trace) → IsPrompt es s → Inv s → run step es s ≡ some t → Inv t
unfolding run
run-Inv [] s t p h e = let same : s ≡ t = cc in subst Inv same h
run-Inv (x ∷ es) s t (now, later) h e =
    let (u, stepped, rest) = >>=-eq-some (step x s) (run step es) e in
    run-Inv es u t (Next-some (IsPrompt es) (step x s) u later stepped)
      (Next-some Inv (step x s) u (step-Inv x s now h) stepped) rest

-- Whatever a test and the code under test do, and whichever goroutines the scheduler lets go on: as
-- long as there is no `Close` and no `InjectAsync`, and each goroutine of `QueueResponse` that has
-- slept sends before the next millisecond passes, the responses are returned in the order in which
-- they were queued and none is lost or made up, the channel never holds more than 64, and `Sent` is
-- the messages of the sends that did not fail.
pub run-IsFifo :
    (es : List Event) (t : Trace)
    → IsPrompt es new_trace
    → run step es new_trace ≡ some t
    → IsFifo t
run-IsFifo es t p e = (run-Inv es new_trace t p ((refl, omega arith, refl), (tt, tt)) e).0
