-- ===== src/Protocol/Tests.antt =====
-- Runs of protocol.go, with a request that stands for itself and two texts that the node sends.
use bramble_go.Prelude.{
  ℕ, ◌≤◌, List, [], ◌∷◌, Option, none, some, Bytes, codes, length, pos, ok, ◌≡◌, ◌≢◌, ◌↔◌, true,
  refl, arith,
}
use bramble_go.Protocol.{
  call_id, set_call, store, Request, Response, State, new_protocol, returned, blocked, sent, Event,
  begin, send, take, cancel, receive, consume, step, stop, run, load,
}
use bramble_go.Protocol.Answers.{From}
use bramble_go.Protocol.Correlation.{call_answered_by_own_response}
use bramble_go.Protocol.Exchange.{call_completes}
use bramble_go.Protocol.Blocked.{duplicate_response_blocks_reader}
use bramble_go.Protocol.Rules.{is_live}
use bramble_go.Protocol.Delivery.{pending-is_live, response_delivered}
use bramble_go.Protocol.Free.{answered_ids, Ends, reader_never_blocked}
use mathlib.Core.HLevel.{⊥_prop}
use mathlib.Core.List.{Nodup, Nodup-cons, Nodup-nil, not-mem-nil, eq-or-mem_of_mem-cons}
use mathlib.Core.Logic.Or
use bramble_go.Runs
use bramble_go.Protocol.Order.{Trace, trace_step, IsOrdered, run-IsOrdered}

abbrev marshal : Request ℕ → Option Bytes
marshal r = some (r.params ∷ r.method)

-- the response to the first call
abbrev pong : Response
pong = record { id = some (pos 1); method = []; result = codes "true"; params = []; error = none }

abbrev unmarshal : Bytes → Option Response
unmarshal [] = none
unmarshal (c ∷ s) = some pong

abbrev exchange : List (Event ℕ)
exchange = begin (codes "ping") 7 ∷ send 1 sent ∷ receive (codes "r") ∷ take 1 ∷ []

call_completes_example :
    (t : State) × (run marshal unmarshal exchange new_protocol ≡ some t)
    × ((t.calls 1).stage ≡ returned (ok (codes "true")))
    × (load (pos 1) t.pending ≡ none)
    × ((k : ℕ) → k ≢ 1 → t.calls k ≡ new_protocol.calls k)
call_completes_example =
    call_completes marshal unmarshal new_protocol (codes "ping") 7 (7 ∷ codes "ping") (codes "r")
      pong refl refl refl refl refl

abbrev after : Option State → State
after none = new_protocol
after (some s) = s

abbrev exchanged : State
exchanged = after (run marshal unmarshal exchange new_protocol)

ran : run marshal unmarshal exchange new_protocol ≡ some exchanged
unfolding run load store
ran = refl

finished : (exchanged.calls 1).stage ≡ returned (ok (codes "true"))
unfolding run load store
finished = refl

call_answered_by_own_response_example : From (λ m. m ≡ pong) 1 (ok (codes "true"))
call_answered_by_own_response_example =
    call_answered_by_own_response (λ m. m ≡ pong) marshal unmarshal exchange exchanged 1
      (ok (codes "true")) (tt, (tt, (λ m h. cc, (tt, tt)))) ran finished

abbrev asked : State
asked = after (run marshal unmarshal (begin (codes "ping") 7 ∷ send 1 sent ∷ []) new_protocol)

abbrev jam : List (Event ℕ)
jam = receive (codes "r") ∷ receive (codes "r") ∷ cancel 1 ∷ stop ∷ []

abbrev jammed : State
jammed = after (run marshal unmarshal jam asked)

jams : run marshal unmarshal jam asked ≡ some jammed
unfolding run load store
jams = refl

duplicate_response_blocks_reader_example :
    (jammed.reader ≡ blocked 1 pong) × (length jammed.notify ≤ length asked.notify)
duplicate_response_blocks_reader_example =
    duplicate_response_blocks_reader marshal unmarshal asked 1 (codes "r") pong (stop ∷ []) jammed
      (unfold run load store in refl) (unfold run load store in omega arith)
      (unfold run load store in refl) (unfold run load store in refl)
      (unfold run load store in refl) refl refl refl jams

-- A node that sends two notifications, of which the consumer gets the first.
abbrev announced : Bytes → Option Response
announced text = some (record { id = none; method = text; result = []; params = []; error = none })

abbrev news : List (Event ℕ)
news = receive (codes "a") ∷ receive (codes "b") ∷ consume ∷ []

abbrev told : Trace
told = record {
  state = record new_protocol { notify = record { method = codes "b"; params = [] } ∷ [] };
  came =
      record { method = codes "a"; params = [] } ∷ record { method = codes "b"; params = [] } ∷ [];
  given = record { method = codes "a"; params = [] } ∷ [];
}

run-IsOrdered_example : IsOrdered marshal announced told
unfolding Runs.run trace_step step
run-IsOrdered_example = run-IsOrdered marshal announced news told refl

-- A node that answers two calls, the first of which has given up.
abbrev reply : Bytes → Option Response
reply [] = none
reply (c ∷ s) =
    some (record { id = some (pos c); method = []; result = s; params = []; error = none })

abbrev answers : List (Event ℕ)
answers =
    begin (codes "ping") 7
    ∷ begin (codes "ping") 8
    ∷ send 1 sent
    ∷ send 2 sent
    ∷ cancel 1
    ∷ receive (2 ∷ codes "b")
    ∷ receive (1 ∷ codes "a")
    ∷ []

abbrev answered : State
answered = after (run marshal reply answers new_protocol)

answers_ran : run marshal reply answers new_protocol ≡ some answered
unfolding run load store
answers_ran = refl

answers_differ : Nodup (answered_ids marshal reply answers)
answers_differ = Nodup-cons.1 (
  λ m. Or.elim ⊥_prop (eq-or-mem_of_mem-cons m) (λ h. cc h) not-mem-nil,
  Nodup-cons.1 (not-mem-nil, Nodup-nil),
)

reader_never_blocked_example :
    ((n : ℕ) (m : Response) → answered.reader ≢ blocked n m) × Ends marshal reply answered
reader_never_blocked_example =
    reader_never_blocked marshal reply answers answered answers_differ answers_ran

pending-is_live_example :
    (load (pos 2) answered.pending ≡ some 2)
    ↔ ((is_live (answered.calls 2).stage ≡ true) × (pos 2 ≡ call_id 2))
pending-is_live_example =
    pending-is_live marshal reply answers answered (pos 2) 2 answers_ran
      (unfold run load store in omega arith)

abbrev asks : List (Event ℕ)
asks = begin (codes "ping") 7 ∷ begin (codes "ping") 8 ∷ send 2 sent ∷ []

abbrev waits : State
waits = after (run marshal reply asks new_protocol)

asks_ran : run marshal reply asks new_protocol ≡ some waits
unfolding run load store
asks_ran = refl

abbrev pong_two : Response
pong_two = record { id = some (pos 2); method = []; result = codes "b"; params = []; error = none }

response_delivered_example :
    step marshal reply (receive (2 ∷ codes "b")) waits
    ≡ some (set_call 2 (record (waits.calls 2) { buffer = some pong_two }) waits)
response_delivered_example =
    response_delivered marshal reply asks waits 2 (2 ∷ codes "b") pong_two asks_ran
      (unfold run load store in omega arith) (unfold run load store in refl)
      (unfold run load store in refl) (unfold run load store in refl) refl refl refl
