-- ===== src/Protocol/Rules.antt =====
-- protocol.go: what the steps do, so that a property of the states need only be shown to be kept by
-- each kind of change.
use bramble_go.Prelude.{
  ◌≡◌, refl, ap, ℕ, Bool, true, false, Option, none, some, Bytes, err, if◌then◌else◌,
}
use bramble_go.Runs.{Next}
use bramble_go.Protocol.{
  Request, Response, CallError, rpc_failed, send_failed, cancelled, closed, Stage, absent, sending,
  backing_off, waiting, returned, Reader, reading, blocked, exited, State, set_call, finish, answer,
  begin_framed, decoded, consume_one, Sent, sent, reconnecting, failed, after_send, send_call,
  retry_call, take_answer, cancel_call, if_reading, fill, fill_buffer, Event, begin, send, retry,
  take, cancel, notice, receive, receive_error, unblock, stop, consume, step,
}

-- a call that has begun and not returned
abbrev pub is_live : Stage → Bool
is_live absent = false
is_live (returned r) = false
is_live _ = true

-- an error that does not come from the node
abbrev pub IsLocal : CallError → Type 0
IsLocal (rpc_failed e) = ⊥
IsLocal _ = Unit

-- the events other than a message that the reader reads and a receive by the consumer
abbrev pub IsQuiet : {P : Type 0} → Event P → Type 0
IsQuiet (receive text) = ⊥
IsQuiet consume = ⊥
IsQuiet _ = Unit

-- A property that the changes of these events keep: a call begins, goes on to another stage,
-- returns an error, or returns the response in its buffer; the blocked reader's send goes through,
-- the reader exits, and `done` is closed.
pub record Rules (I : State → Type 0) : Type 0 where
  pub begun : (o : Option Bytes) (s : State) → I s → I (begin_framed o s)
  pub moved :
      (n : ℕ) (t : Stage) (s : State)
      → is_live (s.calls n).stage ≡ true
      → is_live t ≡ true
      → I s
      → I (set_call n (record (s.calls n) { stage = t }) s)
  pub ended :
      (n : ℕ) (e : CallError) (s : State)
      → is_live (s.calls n).stage ≡ true
      → IsLocal e
      → I s
      → I (finish n (err e) s)
  pub taken :
      (n : ℕ) (m : Response) (s : State)
      → is_live (s.calls n).stage ≡ true
      → (s.calls n).buffer ≡ some m
      → I s
      → I (finish n (answer m) (set_call n (record (s.calls n) { buffer = none }) s))
  pub filled :
      (n : ℕ) (m : Response) (s : State)
      → s.reader ≡ blocked n m
      → (s.calls n).buffer ≡ none
      → I s
      → I (record (set_call n (record (s.calls n) { buffer = some m }) s) { reader = reading })
  pub left : (s : State) → s.reader ≡ reading → I s → I (record s { reader = exited })
  pub stopped : (s : State) → I s → I (record s { done = true })

module _ {I : State → Type 0} (rules : Rules I) where
  sends :
      (t : Stage) (n : ℕ) (r : Sent) (s : State)
      → (s.calls n).stage ≡ t
      → I s
      → Next I (send_call t n r s)
  unfolding send_call after_send
  sends sending n sent s e v = rules.moved n waiting s (ap is_live e) refl v
  sends sending n reconnecting s e v = rules.moved n backing_off s (ap is_live e) refl v
  sends sending n (failed x) s e v = rules.ended n (send_failed x) s (ap is_live e) tt v
  sends _ n r s e v = tt

  retries :
      (t : Stage) (n : ℕ) (s : State) → (s.calls n).stage ≡ t → I s → Next I (retry_call t n s)
  unfolding retry_call
  retries backing_off n s e v = rules.moved n sending s (ap is_live e) refl v
  retries _ n s e v = tt

  cancels :
      (t : Stage) (x : CallError) (n : ℕ) (s : State)
      → IsLocal x
      → (s.calls n).stage ≡ t
      → I s
      → Next I (cancel_call t x n s)
  unfolding cancel_call
  cancels backing_off x n s l e v = rules.ended n x s (ap is_live e) l v
  cancels waiting x n s l e v = rules.ended n x s (ap is_live e) l v
  cancels _ x n s l e v = tt

  takes :
      (t : Stage) (b : Option Response) (n : ℕ) (s : State)
      → (s.calls n).stage ≡ t
      → (s.calls n).buffer ≡ b
      → I s
      → Next I (take_answer t b n s)
  unfolding take_answer
  takes waiting (some m) n s e f v = rules.taken n m s (ap is_live e) f v
  takes waiting none n s e f v = tt
  takes _ b n s e f v = tt

  notices :
      (b : Bool) (n : ℕ) (s : State)
      → I s
      → Next I (if b then cancel_call (s.calls n).stage closed n s else none)
  notices false n s v = tt
  notices true n s v = cancels (s.calls n).stage closed n s tt refl v

  errors :
      (r : Reader) (b : Bool) (s : State)
      → s.reader ≡ r
      → I s
      → Next I (if_reading r (if b then record s { reader = exited } else s))
  unfolding if_reading
  errors reading false s e v = v
  errors reading true s e v = rules.left s e v
  errors (blocked n m) b s e v = tt
  errors exited b s e v = tt

  fills_buffer :
      (n : ℕ) (m : Response) (b : Option Response) (s : State)
      → s.reader ≡ blocked n m
      → (s.calls n).buffer ≡ b
      → I s
      → Next I (fill_buffer n m b s)
  unfolding fill_buffer
  fills_buffer n m none s e f v = rules.filled n m s e f v
  fills_buffer n m (some x) s e f v = tt

  fills : (r : Reader) (s : State) → s.reader ≡ r → I s → Next I (fill r s)
  unfolding fill
  fills (blocked n m) s e v = fills_buffer n m (s.calls n).buffer s e refl v
  fills reading s e v = tt
  fills exited s e v = tt

  -- A quiet event keeps such a property.
  pub step-Rules :
      {P : Type 0} (marshal : Request P → Option Bytes) (unmarshal : Bytes → Option Response)
      (e : Event P) (s : State)
      → IsQuiet e
      → I s
      → Next I (step marshal unmarshal e s)
  unfolding step
  step-Rules marshal unmarshal (begin method params) s q v = rules.begun _ s v
  step-Rules marshal unmarshal (send n r) s q v = sends (s.calls n).stage n r s refl v
  step-Rules marshal unmarshal (retry n) s q v = retries (s.calls n).stage n s refl v
  step-Rules marshal unmarshal (take n) s q v =
      takes (s.calls n).stage (s.calls n).buffer n s refl refl v
  step-Rules marshal unmarshal (cancel n) s q v = cancels (s.calls n).stage cancelled n s tt refl v
  step-Rules marshal unmarshal (notice n) s q v = notices s.done n s v
  step-Rules marshal unmarshal (receive text) s q v = absurd q
  step-Rules marshal unmarshal receive_error s q v = errors s.reader s.done s refl v
  step-Rules marshal unmarshal unblock s q v = fills s.reader s refl v
  step-Rules marshal unmarshal stop s q v = rules.stopped s v
  step-Rules marshal unmarshal consume s q v = absurd q

  -- So does every event, if a message that the reader reads and a receive by the consumer do. `A`
  -- is what is known of an event.
  pub step_all :
      {P : Type 0} (marshal : Request P → Option Bytes) (unmarshal : Bytes → Option Response)
      (A : Event P → Type 0)
      → ((text : Bytes) (s : State)
          → A (receive text)
          → I s
          → Next I (if_reading s.reader (decoded (unmarshal text) s)))
      → ((s : State) → I s → Next I (consume_one s.notify s))
      → (e : Event P) (s : State) → A e
      → I s
      → Next I (step marshal unmarshal e s)
  unfolding step
  step_all marshal unmarshal A read eat (receive text) s a v = read text s a v
  step_all marshal unmarshal A read eat consume s a v = eat s v
  step_all marshal unmarshal A read eat (begin method params) s a v =
      step-Rules marshal unmarshal (begin method params) s tt v
  step_all marshal unmarshal A read eat (send n r) s a v =
      step-Rules marshal unmarshal (send n r) s tt v
  step_all marshal unmarshal A read eat (retry n) s a v =
      step-Rules marshal unmarshal (retry n) s tt v
  step_all marshal unmarshal A read eat (take n) s a v =
      step-Rules marshal unmarshal (take n) s tt v
  step_all marshal unmarshal A read eat (cancel n) s a v =
      step-Rules marshal unmarshal (cancel n) s tt v
  step_all marshal unmarshal A read eat (notice n) s a v =
      step-Rules marshal unmarshal (notice n) s tt v
  step_all marshal unmarshal A read eat receive_error s a v =
      step-Rules marshal unmarshal receive_error s tt v
  step_all marshal unmarshal A read eat unblock s a v = step-Rules marshal unmarshal unblock s tt v
  step_all marshal unmarshal A read eat stop s a v = step-Rules marshal unmarshal stop s tt v
