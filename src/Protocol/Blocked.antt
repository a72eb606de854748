-- ===== src/Protocol/Blocked.antt =====
-- protocol.go: the reader's send to a call's channel has no way out. A second response to a call
-- that then gives up blocks the reader for good.
use bramble_go.Prelude.{
  err, ℕ, ◌≤◌, List, [], ◌∷◌, Option, none, some, Bytes, length, ℤ, Result, ◌≡◌, refl, sym, ap, ◌∙◌,
  arith,
}
use bramble_go.Protocol.{
  Request, Event, cancel, receive, step, run, cancelled, decoded, hand_over, deposit, route, load,
  call_id, set_call, id_of, Response, CallError, waiting, returned, Call, reading, blocked, State,
  set_call, finish, cancel_call, if_reading,
}
use bramble_go.Protocol.Exchange.{update_self, run-step, step-receive, response_lem}
use bramble_go.Protocol.Stuck.{IsStuck, run-IsStuck}

-- a response with a pending id whose call's buffer is full
route_full :
    (m x : Response) (i : ℤ) (n : ℕ) (s : State)
    → m.id ≡ some i
    → m.method ≡ []
    → load i s.pending ≡ some n
    → (s.calls n).buffer ≡ some x
    → route m s ≡ record s { reader = blocked n m }
unfolding route hand_over deposit
route_full m x i n s e f found full = rw (response_lem m i e f) (go m.id e)
  where
    go :
        (o : Option ℤ)
        → o ≡ some i
        → hand_over m (id_of o s.pending) s ≡ record s { reader = blocked n m }
    go none h = cc
    go (some j) h = let same : j ≡ i = cc in rw (same, found, hand_over) (rw (full, deposit))

finish-IsStuck :
    (n : ℕ) (m : Response) (r : Result CallError Bytes) (s : State) (x : Response)
    → s.reader ≡ blocked n m
    → (s.calls n).buffer ≡ some x
    → n ≤ s.started
    → IsStuck n m (length s.notify) (finish n r s)
unfolding finish
finish-IsStuck n m r s x held full begun =
    let at = update_self s.calls n (record (s.calls n) { stage = returned r }) in
    record {
      reader = held;
      gone = (r, ap (λ (c : Call). c.stage) at);
      full = (x, ap (λ (c : Call). c.buffer) at ∙ full);
      begun = begun;
      unread = omega arith;
    }

module _ {P : Type 0} (marshal : Request P → Option Bytes)
    (unmarshal : Bytes → Option Response) where
  blocking_step :
      (text : Bytes) (m x : Response) (i : ℤ) (n : ℕ) (s : State)
      → s.reader ≡ reading
      → unmarshal text ≡ some m
      → m.id ≡ some i
      → m.method ≡ []
      → load i s.pending ≡ some n
      → (s.calls n).buffer ≡ some x
      → step marshal unmarshal (receive text) s ≡ some (record s { reader = blocked n m })
  unfolding step
  blocking_step text m x i n s idle parsed e f found full =
      ap (λ r. if_reading r (decoded (unmarshal text) s)) idle
      ∙ ap (λ o. some (decoded o s)) parsed
      ∙ ap some (route_full m x i n s e f found full)

  cancel_step :
      (n : ℕ) (s : State)
      → (s.calls n).stage ≡ waiting
      → step marshal unmarshal (cancel n) s ≡ some (finish n (err cancelled) s)
  unfolding step
  cancel_step n s h = ap (λ t. cancel_call t cancelled n s) h

  -- While a call waits, let the node send two responses with its id and let the call's context end
  -- before the call takes the first. Then the reader is blocked in every later state: whatever
  -- happens, `Stop` included, it never exits, and no notification is queued any more.
  pub duplicate_response_blocks_reader :
      (s : State) (n : ℕ) (text : Bytes) (m : Response) (es : List (Event P)) (t : State)
      → s.reader ≡ reading
      → n ≤ s.started
      → (s.calls n).stage ≡ waiting
      → (s.calls n).buffer ≡ none
      → load (call_id n) s.pending ≡ some n
      → unmarshal text ≡ some m
      → m.id ≡ some (call_id n)
      → m.method ≡ []
      → run marshal unmarshal (receive text ∷ receive text ∷ cancel n ∷ es) s ≡ some t
      → (t.reader ≡ blocked n m) × (length t.notify ≤ length s.notify)
  duplicate_response_blocks_reader s n text m es t idle begun stage empty found parsed e f h =
      let s1 = set_call n (record (s.calls n) { buffer = some m }) s in
      let s2 = record s1 { reader = blocked n m } in
      let s3 = finish n (err cancelled) s2 in
      let at1 : s1.calls n ≡ record (s.calls n) { buffer = some m } = update_self s.calls n _ in
      let stuck : IsStuck n m (length s.notify) s3 =
        finish-IsStuck n m (err cancelled) s2 m refl (ap (λ (c : Call). c.buffer) at1) begun in
      let path =
        run-step marshal unmarshal (receive text) (receive text ∷ cancel n ∷ es) s s1
          (step-receive marshal unmarshal text m (call_id n) n s idle parsed e f found empty)
        ∙ run-step marshal unmarshal (receive text) (cancel n ∷ es) s1 s2 (
            blocking_step text m m (call_id n) n s1 idle parsed e f found
              (ap (λ (c : Call). c.buffer) at1))
        ∙ run-step marshal unmarshal (cancel n) es s2 s3
            (cancel_step n s2 (ap (λ (c : Call). c.stage) at1 ∙ stage)) in
      let last = run-IsStuck n m marshal unmarshal (length s.notify) es s3 t stuck (sym path ∙ h) in
      (last.reader, last.unread)
