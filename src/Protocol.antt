-- ===== src/Protocol.antt =====
-- protocol.go: JSON-RPC calls over a transport. A state is what the reader goroutine and the
-- goroutines in `Call` share; an event is one atomic step of one of them, or of the transport.
-- `json.Marshal` of a request and `json.Unmarshal` of an envelope are parameters.
mod Shared
pub mod Rules
pub mod Pending
pub mod Answers
pub mod Correlation
pub mod Stuck
pub mod Blocked
pub mod Fresh
pub mod Free
pub mod Live
pub mod Exact
pub mod Delivery
pub mod Exchange
pub mod Quiet
pub mod Order
pub mod Sending
mod Tests
unfoldable pub use Shared.*
use bramble_go.Prelude.Maybe.{◌>>=◌}
use bramble_go.Prelude.{
  ℕ, zero, suc, ◌+◌, ◌-◌, ◌%◌, ◌^◌, Bool, true, false, ◌&&◌, not, List, [], ◌∷◌, ◌++◌, Option, none,
  some, Bytes, ltb, ◌==◌, if◌then◌else◌, ℤ, pos, negsuc, eq_int, length, is_empty, Result, ok, err,
}

-- the send to a call's channel, whose buffer is given: it blocks where the buffer is full
pub deposit : ℕ → Response → Option Response → State → State
deposit n m none s = set_call n (record (s.calls n) { buffer = some m }) s
deposit n m (some old) s = record s { reader = blocked n m }

-- the send to the channel of the call that `Load` found, if any
pub hand_over : Response → Option ℕ → State → State
unfolding deposit
hand_over m none s = s
hand_over m (some n) s = deposit n m (s.calls n).buffer s

abbrev id_of : Option ℤ → List (ℤ × ℕ) → Option ℕ
id_of none m = none
id_of (some i) m = load i m

-- the send to the notification channel, or its `default`
pub push : Notification → State → State
push n s =
    if ltb (length s.notify) notify_capacity then record s { notify = s.notify ++ n ∷ [] } else s

-- one message through the reader's loop
pub route : Response → State → State
unfolding hand_over push
route m s =
    if is_response m
    then hand_over m (id_of m.id s.pending) s
    else if is_notification m
    then push (record { method = m.method; params = m.params }) s
    else s

-- What `t.Send` returns.
pub data Sent : Type 0 where
  sent : Sent
  reconnecting : Sent
  failed : Bytes → Sent

after_send : ℕ → Sent → State → State
unfolding finish
after_send n sent s = set_call n (record (s.calls n) { stage = waiting }) s
after_send n reconnecting s = set_call n (record (s.calls n) { stage = backing_off }) s
after_send n (failed e) s = finish n (err (send_failed e)) s

pub data Event (P : Type 0) : Type 0 where
  -- a call of `Call`, up to its first `Send`
  begin : Bytes → P → Event P
  -- the return of `Send` in call `n`
  send : ℕ → Sent → Event P
  -- the cases of the `select`s in call `n`: the timer, the channel, the context, `done`
  retry : ℕ → Event P
  take : ℕ → Event P
  cancel : ℕ → Event P
  notice : ℕ → Event P
  -- the reader: `Receive` returns data or an error, a blocked send goes through
  receive : Bytes → Event P
  receive_error : Event P
  unblock : Event P
  -- `Stop`, and a receive by the consumer of the notifications
  stop : Event P
  consume : Event P

-- The start of `Call`, on what `json.Marshal` returns: it takes the id, makes the channel and
-- stores it. It is one step, since no other goroutine has that id before the request is sent.
pub begin_framed : Option Bytes → State → State
begin_framed none s = record s {
  started = s.started + 1;
  calls = update s.calls (s.started + 1) (record no_call { stage = returned (err marshal_failed) });
}
begin_framed (some frame) s = record s {
  started = s.started + 1;
  calls = update s.calls (s.started + 1) (record no_call { stage = sending; frame = frame });
  pending = store (call_id (s.started + 1)) (s.started + 1) s.pending;
}

-- what the reader does behind `json.Unmarshal`
pub decoded : Option Response → State → State
unfolding route
decoded none s = s
decoded (some m) s = route m s

-- The cases of the `select`s, each where its call waits for it; `none` is an event that cannot
-- happen in the state.
pub retry_call : Stage → ℕ → State → Option State
retry_call backing_off n s = some (set_call n (record (s.calls n) { stage = sending }) s)
retry_call _ n s = none

pub take_answer : Stage → Option Response → ℕ → State → Option State
unfolding finish
take_answer waiting (some m) n s =
    some (finish n (answer m) (set_call n (record (s.calls n) { buffer = none }) s))
take_answer _ _ n s = none

pub cancel_call : Stage → CallError → ℕ → State → Option State
unfolding finish
cancel_call backing_off e n s = some (finish n (err e) s)
cancel_call waiting e n s = some (finish n (err e) s)
cancel_call _ e n s = none

pub send_call : Stage → ℕ → Sent → State → Option State
unfolding after_send
send_call sending n r s = some (after_send n r s)
send_call _ n r s = none

pub if_reading : Reader → State → Option State
if_reading reading s = some s
if_reading _ s = none

fill_buffer : ℕ → Response → Option Response → State → Option State
fill_buffer n m none s = some (record s {
  calls = update s.calls n (record (s.calls n) { buffer = some m });
  reader = reading;
})
fill_buffer n m (some old) s = none

pub fill : Reader → State → Option State
unfolding fill_buffer
fill (blocked n m) s = fill_buffer n m (s.calls n).buffer s
fill _ s = none

pub consume_one : List Notification → State → Option State
consume_one [] s = none
consume_one (x ∷ xs) s = some (record s { notify = xs })

module _ {P : Type 0} (marshal : Request P → Option Bytes)
    (unmarshal : Bytes → Option Response) where
  unfoldable pub step : Event P → State → Option State
  unfolding begin_framed decoded retry_call take_answer cancel_call send_call if_reading fill
      consume_one
  step (begin method params) s = some (
      begin_framed
        (marshal (record { id = call_id (s.started + 1); method = method; params = params })) s)
  step (send n r) s = send_call (s.calls n).stage n r s
  step (retry n) s = retry_call (s.calls n).stage n s
  step (take n) s = take_answer (s.calls n).stage (s.calls n).buffer n s
  step (cancel n) s = cancel_call (s.calls n).stage cancelled n s
  step (notice n) s = if s.done then cancel_call (s.calls n).stage closed n s else none
  step (receive text) s = if_reading s.reader (decoded (unmarshal text) s)
  step receive_error s = if_reading s.reader (if s.done then record s { reader = exited } else s)
  step unblock s = fill s.reader s
  step stop s = some (record s { done = true })
  step consume s = consume_one s.notify s

  -- A run of the system: its events one after another.
  unfoldable pub run : List (Event P) → State → Option State
  unfolding step
  run [] s = some s
  run (e ∷ es) s = step e s >>= run es
