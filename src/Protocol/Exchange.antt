-- ===== src/Protocol/Exchange.antt =====
-- protocol.go: a call that is answered returns its answer.
use bramble_go.Prelude.{
  ℕ, ◌+◌, true, false, List, [], ◌∷◌, Option, none, some, Bytes, ◌==◌, ==_iff, ℤ, eq_int_iff,
  is_empty, Result, ◌≡◌, ◌≢◌, refl, ap, ◌∙◌, arith,
}
use mathlib.Core.Path.{ap₂}
use bramble_go.Protocol.Pending.{load-delete_self}
use bramble_go.Protocol.{
  CallError, Event, Request, Response, sending, waiting, returned, Call, reading, State, no_call,
  call_id, update, load, store, set_call, finish, answer, is_response, id_of, hand_over, deposit,
  route, sent, begin, send, take, receive, begin_framed, decoded, take_answer, if_reading, step,
  run,
}

pub load-store_self : (i : ℤ) (n : ℕ) (m : List (ℤ × ℕ)) → load i (store i n m) ≡ some n
unfolding load store
load-store_self i n m = rw ((eq_int_iff i i).1 refl)

self : (n : ℕ) → (n == n) ≡ true
self n = (==_iff n n).1 refl

pub update_self : (calls : ℕ → Call) (n : ℕ) (c : Call) → update calls n c n ≡ c
update_self calls n c = rw (self n)

pub update_other : (calls : ℕ → Call) (n k : ℕ) (c : Call) → k ≢ n → update calls n c k ≡ calls k
update_other calls n k c h = ground arith

pub finish_stage :
    (n : ℕ) (r : Result CallError Bytes) (s : State) → ((finish n r s).calls n).stage ≡ returned r
unfolding finish
finish_stage n r s = ap (λ (c : Call). c.stage) (update_self s.calls n _)

finish_free :
    (n : ℕ) (r : Result CallError Bytes) (s : State)
    → load (call_id n) (finish n r s).pending ≡ none
unfolding finish
finish_free n r s = load-delete_self (call_id n) s.pending

pub finish_other :
    (n k : ℕ) (r : Result CallError Bytes) (s : State) → k ≢ n → (finish n r s).calls k ≡ s.calls k
unfolding finish
finish_other n k r s h = update_other s.calls n k _ h

pub response_lem : (m : Response) (i : ℤ) → m.id ≡ some i → m.method ≡ [] → is_response m ≡ true
response_lem m i e f = go m.id e
  where
    go : (o : Option ℤ) → o ≡ some i → elim o [ none ↦ false | some j ↦ is_empty m.method ] ≡ true
    go none h = cc
    go (some j) h = rw f

-- a response with a pending id goes to the empty channel of the call that waits for it
route_response :
    (m : Response) (i : ℤ) (n : ℕ) (s : State)
    → m.id ≡ some i
    → m.method ≡ []
    → load i s.pending ≡ some n
    → (s.calls n).buffer ≡ none
    → route m s ≡ set_call n (record (s.calls n) { buffer = some m }) s
unfolding route hand_over deposit
route_response m i n s e f found empty = rw (response_lem m i e f) (go m.id e)
  where
    go :
        (o : Option ℤ)
        → o ≡ some i
        → hand_over m (id_of o s.pending) s ≡ set_call n (record (s.calls n) { buffer = some m }) s
    go none h = cc
    go (some j) h = let same : j ≡ i = cc in rw (same, found, hand_over) (rw (empty, deposit))

module _ {P : Type 0} (marshal : Request P → Option Bytes)
    (unmarshal : Bytes → Option Response) where
  pub run-step :
      (e : Event P) (es : List (Event P)) (s t : State)
      → step marshal unmarshal e s ≡ some t
      → run marshal unmarshal (e ∷ es) s ≡ run marshal unmarshal es t
  unfolding run
  run-step e es s t h = rw h

  run_nil : (s : State) → run marshal unmarshal [] s ≡ some s
  unfolding run
  run_nil s = refl

  begin_step :
      (method : Bytes) (params : P) (frame : Bytes) (s : State)
      → marshal (record { id = call_id (s.started + 1); method = method; params = params })
        ≡ some frame
      → step marshal unmarshal (begin method params) s ≡ some (begin_framed (some frame) s)
  unfolding step
  begin_step method params frame s h = rw h

  step-send :
      (n : ℕ) (s : State)
      → (s.calls n).stage ≡ sending
      → step marshal unmarshal (send n sent) s
        ≡ some (set_call n (record (s.calls n) { stage = waiting }) s)
  unfolding step
  step-send n s h = rw h

  pub step-receive :
      (text : Bytes) (m : Response) (i : ℤ) (n : ℕ) (s : State)
      → s.reader ≡ reading
      → unmarshal text ≡ some m
      → m.id ≡ some i
      → m.method ≡ []
      → load i s.pending ≡ some n
      → (s.calls n).buffer ≡ none
      → step marshal unmarshal (receive text) s
        ≡ some (set_call n (record (s.calls n) { buffer = some m }) s)
  unfolding step
  step-receive text m i n s idle parsed e f found empty =
      ap (λ r. if_reading r (decoded (unmarshal text) s)) idle
      ∙ ap (λ o. some (decoded o s)) parsed
      ∙ ap some (route_response m i n s e f found empty)

  step-take :
      (n : ℕ) (m : Response) (s : State)
      → (s.calls n).stage ≡ waiting
      → (s.calls n).buffer ≡ some m
      → step marshal unmarshal (take n) s
        ≡ some (finish n (answer m) (set_call n (record (s.calls n) { buffer = none }) s))
  unfolding step
  step-take n m s h full = ap₂ (λ t b. take_answer t b n s) h full

  -- From any state in which the reader is in its loop, a call whose request is sent, and then
  -- answered by a response with its id, returns what the response says, and its id is free again.
  -- The other calls are as they were.
  pub call_completes :
      (s : State) (method : Bytes) (params : P) (frame text : Bytes) (m : Response)
      → s.reader ≡ reading
      → marshal (record { id = call_id (s.started + 1); method = method; params = params })
        ≡ some frame
      → unmarshal text ≡ some m
      → m.id ≡ some (call_id (s.started + 1))
      → m.method ≡ []
      → (t : State) × (run marshal unmarshal
            (begin method params
              ∷ send (s.started + 1) sent
              ∷ receive text
              ∷ take (s.started + 1)
              ∷ [])
            s
          ≡ some t)
        × ((t.calls (s.started + 1)).stage ≡ returned (answer m))
        × (load (call_id (s.started + 1)) t.pending ≡ none)
        × ((k : ℕ) → k ≢ s.started + 1 → t.calls k ≡ s.calls k)
  unfolding begin_framed
  call_completes s method params frame text m idle framed parsed id_eq no_method =
      let n = s.started + 1 in
      let s1 = begin_framed (some frame) s in
      let s2 = set_call n (record (s1.calls n) { stage = waiting }) s1 in
      let s3 = set_call n (record (s2.calls n) { buffer = some m }) s2 in
      let s4 = set_call n (record (s3.calls n) { buffer = none }) s3 in
      let t = finish n (answer m) s4 in
      let at1 : s1.calls n ≡ record no_call { stage = sending; frame = frame } =
        update_self s.calls n _ in
      let at2 : s2.calls n ≡ record no_call { stage = waiting; frame = frame } =
        update_self s1.calls n _ ∙ ap (λ (c : Call). record c { stage = waiting }) at1 in
      let at3 : s3.calls n ≡ record { stage = waiting; frame = frame; buffer = some m } =
        update_self s2.calls n _ ∙ ap (λ (c : Call). record c { buffer = some m }) at2 in
      (
        t,
        run-step (begin method params) (send n sent ∷ receive text ∷ take n ∷ []) s s1
              (begin_step method params frame s framed)
            ∙ run-step (send n sent) (receive text ∷ take n ∷ []) s1 s2
                (step-send n s1 (ap (λ (c : Call). c.stage) at1))
            ∙ run-step (receive text) (take n ∷ []) s2 s3 (
                step-receive text m (call_id n) n s2 idle parsed id_eq no_method
                  (load-store_self (call_id n) n s.pending) (ap (λ (c : Call). c.buffer) at2))
            ∙ run-step (take n) [] s3 t (
                step-take n m s3 (ap (λ (c : Call). c.stage) at3) (ap (λ (c : Call). c.buffer) at3))
            ∙ run_nil t,
        finish_stage n (answer m) s4,
        finish_free n (answer m) s4,
        λ k other.
            finish_other n k (answer m) s4 other
            ∙ update_other s3.calls n k _ other
            ∙ update_other s2.calls n k _ other
            ∙ update_other s1.calls n k _ other
            ∙ update_other s.calls n k _ other,
      )
