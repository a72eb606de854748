-- ===== src/Protocol/Order.antt =====
-- protocol.go: the notifications that the consumer gets, against those that the reader reads.
use bramble_go.Prelude.{
  ◌≡◌, refl, sym, ap, ◌∙◌, ◌++◌, List, [], ◌∷◌, Option, none, some, Bytes, append_assoc, append-nil,
  if◌then◌else◌, Bool-cases, inl, inr, ltb, length, All,
}
use bramble_go.Runs.{Next, run, run-Next}
use bramble_go.Protocol.Rules.{IsQuiet}
use bramble_go.Protocol.Quiet.{hand_over-Holds, step-Holds}
use bramble_go.Protocol.{
  Request, Response, Notification, Reader, reading, blocked, exited, State, notify_capacity, id_of,
  push, route, decoded, is_response, is_notification, if_reading, consume_one, Event, begin, send,
  retry, take, cancel, notice, receive, receive_error, unblock, stop, consume, step, new_protocol,
}

-- the notification in a message
abbrev pub note : Response → List Notification
note m =
    if is_response m
    then []
    else if is_notification m
    then record { method = m.method; params = m.params } ∷ []
    else []

abbrev pub notes : Option Response → List Notification
notes none = []
notes (some m) = note m

-- what of it there is room for
abbrev pub accepted : List Notification → List Notification → List Notification
accepted channel xs = if ltb (length channel) notify_capacity then xs else []

abbrev pub first_of : List Notification → List Notification
first_of [] = []
first_of (x ∷ xs) = x ∷ []

-- The protocol, with the notifications that came while the channel had room, and those that the
-- consumer got.
pub record Trace : Type 0 where
  pub state : State
  pub came : List Notification
  pub given : List Notification

abbrev pub new_trace : Trace
new_trace = record { state = new_protocol; came = []; given = [] }

module _ {P : Type 0} (marshal : Request P → Option Bytes)
    (unmarshal : Bytes → Option Response) where
  abbrev pub coming : Event P → State → List Notification
  coming (receive text) s = accepted s.notify (notes (unmarshal text))
  coming _ s = []

  abbrev pub giving : Event P → State → List Notification
  giving consume s = first_of s.notify
  giving _ s = []

  -- a step of the protocol, which the trace follows
  traced : Event P → Trace → Option State → Option Trace
  traced e t none = none
  traced e t (some s) =
      some (record {
        state = s;
        came = t.came ++ coming e t.state;
        given = t.given ++ giving e t.state;
      })

  unfoldable pub trace_step : Event P → Trace → Option Trace
  unfolding traced
  trace_step e t = traced e t (step marshal unmarshal e t.state)

-- Behind a message the channel has what there was room for at its end.
Joins : List Notification → State → State → Type 0
Joins xs s r = s.notify ++ accepted s.notify xs ≡ r.notify

push-Joins : (x : Notification) (s : State) → Joins (x ∷ []) s (push x s)
unfolding push Joins
push-Joins x s = elim (Bool-cases (ltb (length s.notify) notify_capacity)) [
  | inl room ↦ rw room refl
  | inr full ↦ rw full (append-nil s.notify)
]

accepted-nil : (channel : List Notification) → channel ++ accepted channel [] ≡ channel
accepted-nil channel = elim (Bool-cases (ltb (length channel) notify_capacity)) [
  | inl room ↦ rw room (append-nil channel)
  | inr full ↦ rw full (append-nil channel)
]

route-Joins : (m : Response) (s : State) → Joins (note m) s (route m s)
unfolding route Joins
route-Joins m s = elim (Bool-cases (is_response m)) [
  | inl r ↦ rw r (
      hand_over-Holds (λ l. s.notify ++ accepted s.notify [] ≡ l) m (id_of m.id s.pending) s
        (accepted-nil s.notify))
  | inr r ↦ elim (Bool-cases (is_notification m)) [
    | inl n ↦ rw (r, n) (push-Joins (record { method = m.method; params = m.params }) s)
    | inr n ↦ rw (r, n) (accepted-nil s.notify)
  ]
]

decoded-Joins : (o : Option Response) (s : State) → Joins (notes o) s (decoded o s)
unfolding decoded Joins
decoded-Joins none s = accepted-nil s.notify
decoded-Joins (some m) s = route-Joins m s

read-Joins :
    (r : Reader) (o : Option Response) (s : State)
    → Next (Joins (notes o) s) (if_reading r (decoded o s))
unfolding if_reading
read-Joins reading o s = decoded-Joins o s
read-Joins (blocked n m) o s = tt
read-Joins exited o s = tt

consume_moves :
    (xs : List Notification) (s : State)
    → s.notify ≡ xs
    → Next (λ r. s.notify ++ [] ≡ first_of s.notify ++ r.notify) (consume_one xs s)
unfolding consume_one
consume_moves [] s h = tt
consume_moves (x ∷ xs) s h = append-nil s.notify ∙ h ∙ ap (λ l. first_of l ++ xs) (sym h)

module _ {P : Type 0} (marshal : Request P → Option Bytes)
    (unmarshal : Bytes → Option Response) where
  Moves : Event P → State → State → Type 0
  Moves e s r = s.notify ++ coming marshal unmarshal e s ≡ giving marshal unmarshal e s ++ r.notify

  still :
      (e : Event P) (s : State)
      → IsQuiet e
      → Next (λ r. s.notify ++ [] ≡ r.notify) (step marshal unmarshal e s)
  still e s q = step-Holds (λ l. s.notify ++ [] ≡ l) marshal unmarshal e s q (append-nil s.notify)

  step-Moves : (e : Event P) (s : State) → Next (Moves e s) (step marshal unmarshal e s)
  unfolding step Moves Joins
  step-Moves (receive text) s = read-Joins s.reader (unmarshal text) s
  step-Moves consume s = consume_moves s.notify s refl
  step-Moves (begin method params) s = still (begin method params) s tt
  step-Moves (send n r) s = still (send n r) s tt
  step-Moves (retry n) s = still (retry n) s tt
  step-Moves (take n) s = still (take n) s tt
  step-Moves (cancel n) s = still (cancel n) s tt
  step-Moves (notice n) s = still (notice n) s tt
  step-Moves receive_error s = still receive_error s tt
  step-Moves unblock s = still unblock s tt
  step-Moves stop s = still stop s tt

  abbrev pub IsOrdered : Trace → Type 0
  IsOrdered t = t.given ++ t.state.notify ≡ t.came

  traced-IsOrdered :
      (e : Event P) (t : Trace) (o : Option State)
      → IsOrdered t
      → Next (Moves e t.state) o
      → Next IsOrdered (traced marshal unmarshal e t o)
  unfolding traced Moves
  traced-IsOrdered e t none h m = tt
  traced-IsOrdered e t (some s) h m =
      append_assoc t.given (giving marshal unmarshal e t.state) s.notify
      ∙ ap (λ l. t.given ++ l) (sym m)
      ∙ sym (append_assoc t.given t.state.notify (coming marshal unmarshal e t.state))
      ∙ ap (λ l. l ++ coming marshal unmarshal e t.state) h

  any : (es : List (Event P)) → All (λ x. Unit {0}) es
  any [] = tt
  any (e ∷ es) = (tt, any es)

  -- However calls, responses, notifications and the consumer interleave, the consumer gets, in
  -- their order and once each, the notifications that the reader read while the channel had room,
  -- and those that it has not got yet are in the channel.
  pub run-IsOrdered :
      (es : List (Event P)) (t : Trace)
      → run (trace_step marshal unmarshal) es new_trace ≡ some t
      → IsOrdered t
  unfolding trace_step
  run-IsOrdered es t e =
      run-Next (trace_step marshal unmarshal) IsOrdered (λ x. Unit {0})
        (λ x r q h.
          traced-IsOrdered x r (step marshal unmarshal x r.state) h (step-Moves x r.state))
        es new_trace t (any es) refl e
