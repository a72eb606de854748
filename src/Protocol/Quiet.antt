-- ===== src/Protocol/Quiet.antt =====
-- protocol.go: the steps that leave the notification channel alone.
use bramble_go.Prelude.{ℕ, List, Option, none, some, Bytes}
use bramble_go.Runs.{Next}
use bramble_go.Protocol.Rules.{Rules, IsQuiet, step-Rules}
use bramble_go.Protocol.{
  Request, Response, Notification, State, hand_over, deposit, begin_framed, finish, Event, step,
}

-- What holds of the channel's content before such a step holds behind it.
module _ (Q : List Notification → Type 0) where
  abbrev pub Holds : State → Type 0
  Holds s = Q s.notify

  deposit-Holds :
      (n : ℕ) (m : Response) (b : Option Response) (s : State) → Holds s → Holds (deposit n m b s)
  unfolding deposit
  deposit-Holds n m none s h = h
  deposit-Holds n m (some x) s h = h

  pub hand_over-Holds :
      (m : Response) (o : Option ℕ) (s : State) → Holds s → Holds (hand_over m o s)
  unfolding hand_over deposit
  hand_over-Holds m none s h = h
  hand_over-Holds m (some n) s h = deposit-Holds n m (s.calls n).buffer s h

  begin-Holds : (o : Option Bytes) (s : State) → Holds s → Holds (begin_framed o s)
  unfolding begin_framed
  begin-Holds none s h = h
  begin-Holds (some frame) s h = h

  Holds-Rules : Rules Holds
  unfolding finish
  Holds-Rules = record {
    begun = begin-Holds;
    moved = λ n t s l m h. h;
    ended = λ n e s l m h. h;
    taken = λ n m s l f h. h;
    filled = λ n m s r f h. h;
    left = λ s r h. h;
    stopped = λ s h. h;
  }

  pub step-Holds :
      {P : Type 0} (marshal : Request P → Option Bytes) (unmarshal : Bytes → Option Response)
      (e : Event P) (s : State)
      → IsQuiet e
      → Holds s
      → Next Holds (step marshal unmarshal e s)
  step-Holds = step-Rules Holds-Rules
