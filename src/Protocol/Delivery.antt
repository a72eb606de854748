-- ===== src/Protocol/Delivery.antt =====
-- protocol.go: every response to a call that is under way reaches it.
use bramble_go.Prelude.{
  ◌<◌, ◌^◌, Bytes, ℕ, true, Option, none, some, ltb, ℤ, length, ◌≡◌, ◌↔◌, inl, inr, refl, ap, ◌∙◌,
  Bool-cases, List, [], ◌∷◌,
}
use mathlib.Core.Path.{subst}
use bramble_go.Prelude.Maybe.{>>=-eq-some}
use bramble_go.Runs.{Next, Next-some}
use bramble_go.Protocol.{
  Request, Response, Notification, Reader, reading, blocked, exited, State, new_protocol, call_id,
  load, set_call, deposit, is_response, is_notification, id_of, hand_over, push, route, decoded,
  if_reading, consume_one, Event, receive, step, run,
}
use bramble_go.Protocol.Exchange.{step-receive}
use bramble_go.Protocol.Live.{IsExact, call-IsExact}
use bramble_go.Protocol.Exact.{new-IsExact, still-IsExact, IsExact-Rules}
use bramble_go.Protocol.Rules.{is_live, step_all}

push-IsExact : (x : Notification) (s : State) → IsExact s → IsExact (push x s)
unfolding push
push-IsExact x s v = elim (Bool-cases (ltb (length s.notify) 64)) [
  | inl room ↦ rw room (still-IsExact s _ s.reader s.done v)
  | inr full ↦ rw full v
]

deposit-IsExact :
    (n : ℕ) (m : Response) (b : Option Response) (s : State) → IsExact s → IsExact (deposit n m b s)
unfolding deposit
deposit-IsExact n m none s v = call-IsExact n _ s refl v
deposit-IsExact n m (some x) s v = still-IsExact s s.notify (blocked n m) s.done v

hand_over-IsExact :
    (m : Response) (o : Option ℕ) (s : State) → IsExact s → IsExact (hand_over m o s)
unfolding hand_over
hand_over-IsExact m none s v = v
hand_over-IsExact m (some n) s v = deposit-IsExact n m (s.calls n).buffer s v

route-IsExact : (m : Response) (s : State) → IsExact s → IsExact (route m s)
unfolding route
route-IsExact m s v = elim (Bool-cases (is_response m)) [
  | inl r ↦ rw r (hand_over-IsExact m (id_of m.id s.pending) s v)
  | inr r ↦ elim (Bool-cases (is_notification m)) [
    | inl n ↦ rw (r, n) (push-IsExact _ s v)
    | inr n ↦ rw (r, n) v
  ]
]

decoded-IsExact :
    (r : Reader) (o : Option Response) (s : State)
    → IsExact s
    → Next IsExact (if_reading r (decoded o s))
unfolding decoded if_reading
decoded-IsExact reading none s v = v
decoded-IsExact reading (some m) s v = route-IsExact m s v
decoded-IsExact (blocked n x) o s v = tt
decoded-IsExact exited o s v = tt

consume-IsExact : (xs : List Notification) (s : State) → IsExact s → Next IsExact (consume_one xs s)
unfolding consume_one
consume-IsExact [] s v = tt
consume-IsExact (x ∷ xs) s v = still-IsExact s xs s.reader s.done v

module _ {P : Type 0} (marshal : Request P → Option Bytes)
    (unmarshal : Bytes → Option Response) where
  step-IsExact : (e : Event P) (s : State) → IsExact s → Next IsExact (step marshal unmarshal e s)
  step-IsExact = λ e s.
      step_all IsExact-Rules marshal unmarshal (λ x. Unit {0})
        (λ text s a v. decoded-IsExact s.reader (unmarshal text) s v)
        (λ s v. consume-IsExact s.notify s v) e s tt

  run-IsExact :
      (es : List (Event P)) (s t : State)
      → IsExact s
      → run marshal unmarshal es s ≡ some t
      → IsExact t
  unfolding run
  run-IsExact [] s t v h = let same : s ≡ t = cc in subst IsExact same v
  run-IsExact (e ∷ es) s t v h =
      let (u, stepped, rest) =
        >>=-eq-some (step marshal unmarshal e s) (run marshal unmarshal es) h in
      run-IsExact es u t
        (Next-some IsExact (step marshal unmarshal e s) u (step-IsExact e s v) stepped) rest

  -- In every interleaving of fewer than 2^64 calls, the pending map has an id exactly if it is that
  -- of a call that has begun and not returned, and it leads to that call.
  pub pending-is_live :
      (es : List (Event P)) (s : State) (i : ℤ) (n : ℕ)
      → run marshal unmarshal es new_protocol ≡ some s
      → s.started < 2 ^ 64
      → (load i s.pending ≡ some n) ↔ ((is_live (s.calls n).stage ≡ true) × (i ≡ call_id n))
  pending-is_live es s i n h few =
      let v = run-IsExact es new_protocol s new-IsExact h in
      (v.known few i n, λ (l, e). ap (λ j. load j s.pending) e ∙ (v.live few n l).1)

  -- In every interleaving of fewer than 2^64 calls, a response that the reader reads to a call
  -- which is under way and has none yet is put into that call's channel, and nothing else changes.
  pub response_delivered :
      (es : List (Event P)) (s : State) (n : ℕ) (text : Bytes) (m : Response)
      → run marshal unmarshal es new_protocol ≡ some s
      → s.started < 2 ^ 64
      → s.reader ≡ reading
      → is_live (s.calls n).stage ≡ true
      → (s.calls n).buffer ≡ none
      → unmarshal text ≡ some m
      → m.id ≡ some (call_id n)
      → m.method ≡ []
      → step marshal unmarshal (receive text) s
        ≡ some (set_call n (record (s.calls n) { buffer = some m }) s)
  response_delivered es s n text m h few idle now empty parsed own plain =
      let v = run-IsExact es new_protocol s new-IsExact h in
      step-receive marshal unmarshal text m (call_id n) n s idle parsed own plain
        (v.live few n now).1 empty
