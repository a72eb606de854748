-- ===== src/Protocol/Free.antt =====
-- protocol.go: the reader against a node that answers no id twice.
use bramble_go.Prelude.{
  Bytes, ℕ, true, if◌then◌else◌, Option, none, some, ℤ, ◌≡◌, ◌≢◌, ◌⊎◌, inl, inr, refl, ap,
  Bool-cases, List, [], ◌∷◌,
}
use mathlib.Core.Path.{subst}
use mathlib.Core.List.{Mem, Nodup, Nodup-cons, mem-cons_self, mem-cons_of_mem}
use bramble_go.Prelude.Maybe.{◌>>=◌, >>=-eq-some}
use bramble_go.Runs.{Next, Next-some}
use bramble_go.Protocol.{
  Request, Response, Reader, reading, blocked, exited, State, new_protocol, call_id, load, deposit,
  is_response, is_notification, id_of, hand_over, route, decoded, if_reading, Event, begin, send,
  retry, take, cancel, notice, receive, receive_error, unblock, stop, consume, step, run,
}
use bramble_go.Protocol.Pending.{update_rule}
use bramble_go.Protocol.Rules.{step-Rules}
use bramble_go.Protocol.Fresh.{
  IsFree, IsFresh, new-IsFree, consume-IsFree, push-IsFree, IsFree-Rules,
}

-- the id that a message answers
abbrev pub reply_id : Option Response → Option ℤ
reply_id none = none
reply_id (some m) = if is_response m then m.id else none

abbrev pub join : Option ℤ → List ℤ → List ℤ
join none ids = ids
join (some i) ids = i ∷ ids

weaken : (i : ℤ) (later : List ℤ) (s : State) → IsFree (i ∷ later) s → IsFree later s
weaken i later s v = record {
  reader = v.reader;
  ids = v.ids;
  fresh = λ n x h k. v.fresh n x h (mem-cons_of_mem i k);
}

-- a response to call `n`, whose id is not answered again
deposit-IsFree :
    (later : List ℤ) (n : ℕ) (m : Response) (b : Option Response) (s : State)
    → (s.calls n).buffer ≡ b
    → ¬ Mem (call_id n) later
    → IsFree (call_id n ∷ later) s
    → IsFree later (deposit n m b s)
unfolding deposit
deposit-IsFree later n m none s e new v =
    let w = weaken (call_id n) later s v in
    record {
      reader = w.reader;
      ids = w.ids;
      fresh =
          update_rule (IsFresh later) s.calls n (record (s.calls n) { buffer = some m }) w.fresh
            (λ x h. new);
    }
deposit-IsFree later n m (some x) s e new v = absurd (v.fresh n x e mem-cons_self)

reply-IsFree :
    (later : List ℤ) (m : Response) (i : ℤ) (o : Option ℕ) (s : State)
    → load i s.pending ≡ o
    → ¬ Mem i later
    → IsFree (i ∷ later) s
    → IsFree later (hand_over m o s)
unfolding hand_over
reply-IsFree later m i none s e new v = weaken i later s v
reply-IsFree later m i (some n) s e new v =
    let same = v.ids i n e in
    deposit-IsFree later n m (s.calls n).buffer s refl (subst (λ j. ¬ Mem j later) same new)
      (subst (λ j. IsFree (j ∷ later) s) same v)

response-IsFree :
    (later : List ℤ) (m : Response) (o : Option ℤ) (s : State)
    → Nodup (join o later)
    → IsFree (join o later) s
    → IsFree later (hand_over m (id_of o s.pending) s)
unfolding hand_over
response-IsFree later m none s d v = v
response-IsFree later m (some i) s d v =
    reply-IsFree later m i (load i s.pending) s refl (Nodup-cons.0 d).0 v

route-IsFree :
    (later : List ℤ) (m : Response) (s : State)
    → Nodup (join (reply_id (some m)) later)
    → IsFree (join (reply_id (some m)) later) s
    → IsFree later (route m s)
unfolding route
route-IsFree later m s d v = elim (Bool-cases (is_response m)) [
  | inl r ↦
      let same : reply_id (some m) ≡ m.id = ap (λ b. if b then m.id else none) r in
      rw r (
        response-IsFree later m m.id s (subst (λ o. Nodup (join o later)) same d)
          (subst (λ o. IsFree (join o later) s) same v))
  | inr r ↦
      let same : reply_id (some m) ≡ none = ap (λ b. if b then m.id else none) r in
      let w : IsFree later s = subst (λ o. IsFree (join o later) s) same v in
      elim (Bool-cases (is_notification m)) [
        | inl n ↦ rw (r, n) (push-IsFree later _ s w)
        | inr n ↦ rw (r, n) w
      ]
]

decoded-IsFree :
    (later : List ℤ) (r : Reader) (o : Option Response) (s : State)
    → Nodup (join (reply_id o) later)
    → IsFree (join (reply_id o) later) s
    → Next (IsFree later) (if_reading r (decoded o s))
unfolding decoded if_reading
decoded-IsFree later reading none s d v = v
decoded-IsFree later reading (some m) s d v = route-IsFree later m s d v
decoded-IsFree later (blocked n x) o s d v = tt
decoded-IsFree later exited o s d v = tt

module _ {P : Type 0} (marshal : Request P → Option Bytes)
    (unmarshal : Bytes → Option Response) where
  abbrev pub answered_id : Event P → Option ℤ
  answered_id (receive text) = reply_id (unmarshal text)
  answered_id _ = none

  -- the ids of the responses that the node sends in a run
  abbrev pub answered_ids : List (Event P) → List ℤ
  answered_ids [] = []
  answered_ids (e ∷ es) = join (answered_id e) (answered_ids es)

  step-IsFree :
      (later : List ℤ) (e : Event P) (s : State)
      → Nodup (join (answered_id e) later)
      → IsFree (join (answered_id e) later) s
      → Next (IsFree later) (step marshal unmarshal e s)
  unfolding step
  step-IsFree later (receive text) s d v = decoded-IsFree later s.reader (unmarshal text) s d v
  step-IsFree later consume s d v = consume-IsFree later s.notify s v
  step-IsFree later (begin method params) s d v =
      step-Rules (IsFree-Rules later) marshal unmarshal (begin method params) s tt v
  step-IsFree later (send n r) s d v =
      step-Rules (IsFree-Rules later) marshal unmarshal (send n r) s tt v
  step-IsFree later (retry n) s d v =
      step-Rules (IsFree-Rules later) marshal unmarshal (retry n) s tt v
  step-IsFree later (take n) s d v =
      step-Rules (IsFree-Rules later) marshal unmarshal (take n) s tt v
  step-IsFree later (cancel n) s d v =
      step-Rules (IsFree-Rules later) marshal unmarshal (cancel n) s tt v
  step-IsFree later (notice n) s d v =
      step-Rules (IsFree-Rules later) marshal unmarshal (notice n) s tt v
  step-IsFree later receive_error s d v =
      step-Rules (IsFree-Rules later) marshal unmarshal receive_error s tt v
  step-IsFree later unblock s d v = step-Rules (IsFree-Rules later) marshal unmarshal unblock s tt v
  step-IsFree later stop s d v = step-Rules (IsFree-Rules later) marshal unmarshal stop s tt v

  tail-Nodup : (o : Option ℤ) (ids : List ℤ) → Nodup (join o ids) → Nodup ids
  tail-Nodup none ids d = d
  tail-Nodup (some i) ids d = (Nodup-cons.0 d).1

  run-IsFree :
      (es : List (Event P)) (s t : State)
      → Nodup (answered_ids es)
      → IsFree (answered_ids es) s
      → run marshal unmarshal es s ≡ some t
      → IsFree [] t
  unfolding run
  run-IsFree [] s t d v h = let same : s ≡ t = cc in subst (IsFree []) same v
  run-IsFree (e ∷ es) s t d v h =
      let (u, stepped, rest) =
        >>=-eq-some (step marshal unmarshal e s) (run marshal unmarshal es) h in
      run-IsFree es u t (tail-Nodup (answered_id e) (answered_ids es) d)
        (Next-some (IsFree (answered_ids es)) (step marshal unmarshal e s) u
          (step-IsFree (answered_ids es) e s d v) stepped)
        rest

  -- The reader has returned, or returns behind `Stop` with the transport's next error.
  abbrev pub Ends : State → Type 0
  Ends s =
      (s.reader ≡ exited)
      ⊎ ((t : State) × (run marshal unmarshal (stop ∷ receive_error ∷ []) s ≡ some t)
          × (t.reader ≡ exited))

  free-Ends : (s : State) (r : Reader) → s.reader ≡ r → IsFree [] s → Ends s
  unfolding run step if_reading
  free-Ends s exited e v = inl e
  free-Ends s (blocked n m) e v = absurd (v.reader n m e)
  free-Ends s reading e v = inr (
    record s { done = true; reader = exited },
    ap (λ r. if_reading r (record s { done = true; reader = exited }) >>= run marshal unmarshal [])
        e,
    refl,
  )

  -- In every interleaving in which the node answers no id twice, the reader is never blocked in its
  -- send to a call's channel, and `Stop` with the transport's next error ends it.
  pub reader_never_blocked :
      (es : List (Event P)) (s : State)
      → Nodup (answered_ids es)
      → run marshal unmarshal es new_protocol ≡ some s
      → ((n : ℕ) (m : Response) → s.reader ≢ blocked n m) × Ends s
  reader_never_blocked es s d h =
      let v = run-IsFree es new_protocol s d (new-IsFree (answered_ids es)) h in
      (v.reader, free-Ends s s.reader refl v)
