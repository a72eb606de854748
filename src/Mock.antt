-- ===== src/Mock.antt =====
-- transport/transporttest/mock.go: the transport in memory. A goroutine that brings a response to
-- `recvCh` is a response that is under way, with the time, in milliseconds, at which it wakes up.
pub mod Session
pub mod Laws
pub mod Timed
pub mod Contract
mod Tests
use bramble_go.Prelude.{
  ℕ, ◌+◌, zero, suc, Bool, true, false, List, [], ◌∷◌, ◌++◌, Option, none, some, Bytes, codes,
  Result, ok, err, length, ltb, leb, ◌&&◌, if◌then◌else◌,
}
use bramble_go.Transport.{Refusal, not_connected}

abbrev pub recv_capacity : ℕ
recv_capacity = 64

pub record Waiting : Type 0 where
  pub wakes : ℕ
  pub text : Bytes

-- `under_way` is the goroutines that have not sent yet, in the order in which they were started.
pub record Mock : Type 0 where
  pub log : List Bytes
  pub connected : Bool
  pub recv : List Bytes
  pub under_way : List Waiting
  pub queue_seq : ℕ
  pub auth_token : Bytes

abbrev pub new_mock : Mock
new_mock = record {
  log = [];
  connected = false;
  recv = [];
  under_way = [];
  queue_seq = 0;
  auth_token = [];
}

unfoldable pub connect : Mock → Mock
connect m = record m { connected = true }

unfoldable pub send : Bytes → Mock → Result Refusal (Unit {0}) × Mock
send text m =
    if m.connected then (ok tt, record m { log = m.log ++ text ∷ [] }) else (err not_connected, m)

-- the case of `Receive`'s `select` for a response; `none` where there is none
receive_first : List Bytes → Mock → Option (Bytes × Mock)
receive_first [] m = none
receive_first (text ∷ more) m = some (text, record m { recv = more })

unfoldable pub receive : Mock → Option (Bytes × Mock)
unfolding receive_first
receive m = receive_first m.recv m

-- `Close` drains the channel; goroutines that are under way send afterwards.
unfoldable pub close : Mock → Mock
close m = record m { connected = false; recv = [] }

-- `QueueResponse` at the time `now`; its goroutine waits as many milliseconds as responses were
-- queued.
unfoldable pub queue_response : ℕ → Bytes → Mock → Mock
queue_response now text m = record m {
  queue_seq = m.queue_seq + 1;
  under_way = m.under_way ++ record { wakes = now + (m.queue_seq + 1); text = text } ∷ [];
}

-- `InjectAsync`, whose goroutine does not wait
unfoldable pub inject_async : ℕ → Bytes → Mock → Mock
inject_async now text m = record m {
  under_way = m.under_way ++ record { wakes = now; text = text } ∷ [];
}

-- one of the goroutines, and the others
unfoldable pub choose : ℕ → List Waiting → Option (Waiting × List Waiting)
choose i [] = none
choose zero (g ∷ gs) = some (g, gs)
choose (suc i) (g ∷ gs) = elim (choose i gs) [ none ↦ none | some (h, rest) ↦ some (h, g ∷ rest) ]

-- A goroutine that has slept sends, where the channel has room.
unfoldable pub land : ℕ → Mock → Option (Waiting × List Waiting) → Option Mock
land now m none = none
land now m (some (g, rest)) =
    if leb g.wakes now && ltb (length m.recv) recv_capacity
    then some (record m { recv = m.recv ++ g.text ∷ []; under_way = rest })
    else none

-- The scheduler lets goroutine `i` go on at the time `now`; which one is open.
unfoldable pub arrive : ℕ → ℕ → Mock → Option Mock
unfolding choose land
arrive now i m = land now m (choose i m.under_way)

-- `Sent` and `IsConnected`
abbrev pub sent : Mock → List Bytes
sent m = m.log

abbrev pub is_connected : Mock → Bool
is_connected m = m.connected

abbrev pub set_auth_token : Bytes → Mock → Mock
set_auth_token token m = record m { auth_token = token }

-- `MockError`, whose `Send` always returns the same error
pub record MockError (E : Type 0) : Type 0 where
  pub mock : Mock
  pub send_err : E

abbrev pub new_mock_error : {E : Type 0} → E → MockError E
new_mock_error e = record { mock = new_mock; send_err = e }

abbrev pub send_error : {E : Type 0} → Bytes → MockError E → Result E (Unit {0}) × MockError E
send_error text m = (err m.send_err, m)
