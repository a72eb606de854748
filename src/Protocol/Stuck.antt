-- ===== src/Protocol/Stuck.antt =====
-- protocol.go: the reader in its send to a call's channel, once the call has given up.
use bramble_go.Prelude.{
  ℕ, ◌+◌, ◌≤◌, true, false, List, [], ◌∷◌, Option, none, some, Bytes, length, ℤ, Result, ◌≡◌, ◌≢◌,
  refl, sym, ap, ◌∙◌, arith,
}
use bramble_go.Protocol.{
  Request, Event, step, run, set_call, Response, Notification, CallError, returned, Call, Reader,
  reading, blocked, exited, State, update, set_call, finish, begin_framed, if_reading, consume_one,
}
use mathlib.Core.Path.{subst}
use bramble_go.Runs.{Next, Next-some}
use bramble_go.Protocol.Rules.{Rules, is_live, step_all}
use bramble_go.Prelude.Maybe.{>>=-eq-some}
use bramble_go.Protocol.Exchange.{update_other}

module _ (n : ℕ) (m : Response) where
  -- The reader waits to send `m` to call `n`, whose buffer is full and which has returned.
  pub record IsStuck (queued : ℕ) (s : State) : Type 0 where
    pub reader : s.reader ≡ blocked n m
    pub gone : (r : Result CallError Bytes) × ((s.calls n).stage ≡ returned r)
    pub full : (x : Response) × ((s.calls n).buffer ≡ some x)
    pub begun : n ≤ s.started
    pub unread : length s.notify ≤ queued

  -- a call that is under way is another one
  live_ne : (q : ℕ) (s : State) (k : ℕ) → IsStuck q s → is_live (s.calls k).stage ≡ true → n ≢ k
  live_ne q s k v l same =
      let clash : true ≡ false =
        sym l ∙ ap (λ i. is_live (s.calls i).stage) (sym same) ∙ ap is_live v.gone.1 in
      absurd (cc clash)

  update-IsStuck :
      (q k : ℕ) (c : Call) (s : State) (p : List (ℤ × ℕ))
      → n ≢ k
      → IsStuck q s
      → IsStuck q (record s { calls = update s.calls k c; pending = p })
  update-IsStuck q k c s p other v =
      let same = update_other s.calls k n c other in
      record {
        reader = v.reader;
        gone = (v.gone.0, ap (λ (x : Call). x.stage) same ∙ v.gone.1);
        full = (v.full.0, ap (λ (x : Call). x.buffer) same ∙ v.full.1);
        begun = v.begun;
        unread = v.unread;
      }

  begin-IsStuck :
      (q : ℕ) (o : Option Bytes) (s : State) → IsStuck q s → IsStuck q (begin_framed o s)
  unfolding begin_framed
  begin-IsStuck q none s v =
      let same = update_other s.calls (s.started + 1) n _ (λ e. absurd (omega (arith, v.begun))) in
      record {
        reader = v.reader;
        gone = (v.gone.0, ap (λ (x : Call). x.stage) same ∙ v.gone.1);
        full = (v.full.0, ap (λ (x : Call). x.buffer) same ∙ v.full.1);
        begun = omega (arith, v.begun);
        unread = v.unread;
      }
  begin-IsStuck q (some frame) s v =
      let same = update_other s.calls (s.started + 1) n _ (λ e. absurd (omega (arith, v.begun))) in
      record {
        reader = v.reader;
        gone = (v.gone.0, ap (λ (x : Call). x.stage) same ∙ v.gone.1);
        full = (v.full.0, ap (λ (x : Call). x.buffer) same ∙ v.full.1);
        begun = omega (arith, v.begun);
        unread = v.unread;
      }

  IsStuck-Rules : (q : ℕ) → Rules (IsStuck q)
  unfolding finish
  IsStuck-Rules q = record {
    begun = begin-IsStuck q;
    moved = λ k t s l live v. update-IsStuck q k _ s s.pending (live_ne q s k v l) v;
    ended = λ k e s l h v. update-IsStuck q k _ s _ (live_ne q s k v l) v;
    taken = λ k x s l f v.
        let other = live_ne q s k v l in
        update-IsStuck q k _ (set_call k (record (s.calls k) { buffer = none }) s) _ other
          (update-IsStuck q k _ s s.pending other v);
    filled = λ k x s r f v.
        let same : blocked n m ≡ blocked k x = sym v.reader ∙ r in
        let here : n ≡ k = cc in
        let clash : some v.full.0 ≡ none = sym v.full.1 ∙ ap (λ i. (s.calls i).buffer) here ∙ f in
        absurd (cc clash);
    left = λ s r v. let clash : blocked n m ≡ reading = sym v.reader ∙ r in absurd (cc clash);
    stopped = λ s v. record {
      reader = v.reader;
      gone = v.gone;
      full = v.full;
      begun = v.begun;
      unread = v.unread;
    };
  }

  -- the reader takes no message
  reading-IsStuck :
      (q : ℕ) (r : Reader) (s u : State)
      → s.reader ≡ r
      → IsStuck q s
      → Next (IsStuck q) (if_reading r u)
  unfolding if_reading
  reading-IsStuck q (blocked k x) s u e v = tt
  reading-IsStuck q exited s u e v = tt
  reading-IsStuck q reading s u e v =
      let clash : blocked n m ≡ reading = sym v.reader ∙ e in absurd (cc clash)

  consume-IsStuck :
      (q : ℕ) (xs : List Notification) (s : State)
      → s.notify ≡ xs
      → IsStuck q s
      → Next (IsStuck q) (consume_one xs s)
  unfolding consume_one
  consume-IsStuck q [] s e v = tt
  consume-IsStuck q (x ∷ xs) s e v = record {
    reader = v.reader;
    gone = v.gone;
    full = v.full;
    begun = v.begun;
    unread = omega (arith, ap length e, v.unread);
  }

  module _ {P : Type 0} (marshal : Request P → Option Bytes)
      (unmarshal : Bytes → Option Response) where
    step-IsStuck :
        (q : ℕ) (e : Event P) (s : State)
        → IsStuck q s
        → Next (IsStuck q) (step marshal unmarshal e s)
    step-IsStuck q = λ e s.
        step_all (IsStuck-Rules q) marshal unmarshal (λ x. Unit {0})
          (λ text s a v. reading-IsStuck q s.reader s _ refl v)
          (λ s v. consume-IsStuck q s.notify s refl v) e s tt

    pub run-IsStuck :
        (q : ℕ) (es : List (Event P)) (s t : State)
        → IsStuck q s
        → run marshal unmarshal es s ≡ some t
        → IsStuck q t
    unfolding run
    run-IsStuck q [] s t v h = let same : s ≡ t = cc in subst (IsStuck q) same v
    run-IsStuck q (e ∷ es) s t v h =
        let (u, stepped, rest) =
          >>=-eq-some (step marshal unmarshal e s) (run marshal unmarshal es) h in
        run-IsStuck q es u t
          (Next-some (IsStuck q) (step marshal unmarshal e s) u (step-IsStuck q e s v) stepped) rest
