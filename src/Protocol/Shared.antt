-- ===== src/Protocol/Shared.antt =====
-- protocol.go: what the reader goroutine and the goroutines in `Call` share, the map of pending
-- calls, and what a response is.
use bramble_go.Prelude.{
  ℕ, ◌-◌, ◌%◌, ◌^◌, Bool, false, not, List, [], ◌∷◌, Option, none, some, Bytes, ltb, ◌==◌,
  if◌then◌else◌, ℤ, pos, negsuc, eq_int, is_empty, Result, ok, err,
}

-- `rpcError`
pub record RpcError : Type 0 where
  pub code : ℤ
  pub message : Bytes

-- `rpcRequest`, but for its constant version
pub record Request (P : Type 0) : Type 0 where
  pub id : ℤ
  pub method : Bytes
  pub params : P

-- `rpcResponse`; a raw member that is absent is the empty text.
pub record Response : Type 0 where
  pub id : Option ℤ
  pub method : Bytes
  pub result : Bytes
  pub params : Bytes
  pub error : Option RpcError

pub record Notification : Type 0 where
  pub method : Bytes
  pub params : Bytes

-- What `Call` returns where it returns an error.
pub data CallError : Type 0 where
  marshal_failed : CallError
  send_failed : Bytes → CallError
  rpc_failed : RpcError → CallError
  -- `ctx.Err()`
  cancelled : CallError
  -- `transport.ErrClosed`
  closed : CallError

-- Where a goroutine in `Call` stands: before `Send`, in the 50 ms wait behind `ErrReconnecting`, in
-- the last `select`, or behind its return. `absent` is a call that has not begun.
pub data Stage : Type 0 where
  absent : Stage
  sending : Stage
  backing_off : Stage
  waiting : Stage
  returned : Result CallError Bytes → Stage

-- A call, with the channel that it made: a buffer of one response.
pub record Call : Type 0 where
  pub stage : Stage
  pub frame : Bytes
  pub buffer : Option Response

-- The reader is in its loop, blocked in the send to a call's channel, or gone. `reading` is both
-- the test of `done` at the top of the loop and `Receive`: the return that the test makes is the
-- event `receive_error` once `done` is closed.
pub data Reader : Type 0 where
  reading : Reader
  blocked : ℕ → Response → Reader
  exited : Reader

-- Calls are numbered from 1 in the order of `nextID`; `pending` maps an id to a call's number.
pub record State : Type 0 where
  pub started : ℕ
  pub calls : ℕ → Call
  pub pending : List (ℤ × ℕ)
  pub notify : List Notification
  pub reader : Reader
  pub done : Bool

abbrev pub notify_capacity : ℕ
notify_capacity = 64

-- The int64 that a counter holds after `n` additions.
abbrev pub int64 : ℕ → ℤ
int64 n = if ltb n (2 ^ 63) then pos n else negsuc (2 ^ 64 - 1 - n)

abbrev pub call_id : ℕ → ℤ
call_id n = int64 (n % 2 ^ 64)

abbrev pub no_call : Call
no_call = record { stage = absent; frame = []; buffer = none }

-- `NewProtocol` and `Start`
abbrev pub new_protocol : State
new_protocol = record {
  started = 0;
  calls = λ n. no_call;
  pending = [];
  notify = [];
  reader = reading;
  done = false;
}

abbrev pub update : (ℕ → Call) → ℕ → Call → ℕ → Call
update calls n c k = if k == n then c else calls k

-- `pending.Load`, `pending.Delete` and `pending.Store`
unfoldable pub load : ℤ → List (ℤ × ℕ) → Option ℕ
load i [] = none
load i ((j, n) ∷ m) = if eq_int j i then some n else load i m

unfoldable pub delete : ℤ → List (ℤ × ℕ) → List (ℤ × ℕ)
delete i [] = []
delete i ((j, n) ∷ m) = let rest = delete i m in if eq_int j i then rest else (j, n) ∷ rest

unfoldable pub store : ℤ → ℕ → List (ℤ × ℕ) → List (ℤ × ℕ)
unfolding delete
store i n m = (i, n) ∷ delete i m

abbrev pub set_call : ℕ → Call → State → State
set_call n c s = record s { calls = update s.calls n c }

-- a return of `Call`, with its deferred `Delete`
unfoldable pub finish : ℕ → Result CallError Bytes → State → State
finish n r s = record s {
  calls = update s.calls n (record (s.calls n) { stage = returned r });
  pending = delete (call_id n) s.pending;
}

-- what `Call` makes of a response
abbrev pub answer_of : Option RpcError → Bytes → Result CallError Bytes
answer_of none result = ok result
answer_of (some e) result = err (rpc_failed e)

abbrev pub answer : Response → Result CallError Bytes
answer m = answer_of m.error m.result

abbrev pub is_response : Response → Bool
is_response m = elim m.id [ none ↦ false | some i ↦ is_empty m.method ]

abbrev pub is_notification : Response → Bool
is_notification m = elim m.id [ none ↦ not (is_empty m.method) | some i ↦ false ]
