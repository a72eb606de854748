-- ===== src/Protocol/Correlation.antt =====
-- protocol.go: a call gets an answer that was sent to it, under every interleaving.
use bramble_go.Prelude.Maybe.{>>=-eq-some}
use bramble_go.Prelude.{
  sym, ap, ◌∙◌, true, false, All, Bytes, ℕ, true, List, [], ◌∷◌, Option, none, some, Bytes, Result,
  err, ◌≡◌,
}
use mathlib.Core.Path.{subst}
use bramble_go.Runs.{Next, Next-some}
use bramble_go.Protocol.Rules.{Rules, IsLocal, is_live, step_all}
use bramble_go.Protocol.{
  marshal_failed, rpc_failed, Request, Response, Notification, CallError, send_failed, cancelled,
  closed, returned, Reader, reading, blocked, exited, State, new_protocol, set_call, answer, Event,
  receive, decoded, if_reading, consume_one, step, run,
}
use bramble_go.Protocol.Pending.{update_rule}
use bramble_go.Protocol.Answers.{
  From, Answers, IsSound, Inv, new-Inv, set_call-Inv, stage-Inv, finish-Inv, answer-From,
  decoded-Inv, begin-Inv,
}

-- `Seen` is any property that every message from the transport has, such as being one of those that
-- the node sent.
module _ (Seen : Response → Type 0) where
  local-From : (n : ℕ) (e : CallError) → IsLocal e → From Seen n (err e)
  local-From n (rpc_failed x) h = absurd h
  local-From n marshal_failed h = tt
  local-From n (send_failed x) h = tt
  local-From n cancelled h = tt
  local-From n closed h = tt

  fill-Inv :
      (n : ℕ) (m : Response) (s : State)
      → Answers Seen n m
      → Inv Seen s
      → Inv Seen
          (record (set_call n (record (s.calls n) { buffer = some m }) s) { reader = reading })
  fill-Inv n m s h v = record {
    calls =
        update_rule (IsSound Seen) s.calls n (record (s.calls n) { buffer = some m }) v.calls
          (record {
            buffered = λ x e. let same : m ≡ x = cc in subst (Answers Seen n) same h;
            result = (v.calls n).result;
          });
    ids = v.ids;
    held = λ k x e. cc;
  }

  Inv-Rules : Rules (Inv Seen)
  Inv-Rules = record {
    begun = begin-Inv Seen;
    moved = λ n t s l live v.
        stage-Inv Seen n t s
          (λ r h. let clash : true ≡ false = sym live ∙ ap is_live h in absurd (cc clash)) v;
    ended = λ n e s l h v. finish-Inv Seen n (err e) s (local-From n e h) v;
    taken = λ n m s l f v.
        finish-Inv Seen n (answer m) (set_call n (record (s.calls n) { buffer = none }) s)
          (answer-From Seen n m ((v.calls n).buffered m f))
          (set_call-Inv Seen n (record (s.calls n) { buffer = none }) s v
            (record { buffered = λ x h. cc; result = (v.calls n).result }));
    filled = λ n m s r f v. fill-Inv n m s (v.held n m r) v;
    left = λ s r v. record { calls = v.calls; ids = v.ids; held = λ n m h. cc };
    stopped = λ s v. record { calls = v.calls; ids = v.ids; held = v.held };
  }

  consume-Inv :
      (xs : List Notification) (s : State) → Inv Seen s → Next (Inv Seen) (consume_one xs s)
  unfolding consume_one
  consume-Inv [] s v = tt
  consume-Inv (x ∷ xs) s v = record { calls = v.calls; ids = v.ids; held = v.held }

  reading-Inv : (r : Reader) (s : State) → Inv Seen s → Next (Inv Seen) (if_reading r s)
  unfolding if_reading
  reading-Inv reading s v = v
  reading-Inv (blocked n m) s v = tt
  reading-Inv exited s v = tt

  module _ {P : Type 0} (marshal : Request P → Option Bytes)
      (unmarshal : Bytes → Option Response) where
    -- The message that the transport delivers has the property.
    abbrev pub Admits : Event P → Type 0
    Admits (receive text) = (m : Response) → unmarshal text ≡ some m → Seen m
    Admits _ = Unit

    step-Inv :
        (e : Event P) (s : State)
        → Admits e
        → Inv Seen s
        → Next (Inv Seen) (step marshal unmarshal e s)
    step-Inv =
        step_all Inv-Rules marshal unmarshal Admits
          (λ text s h v.
            reading-Inv s.reader (decoded (unmarshal text) s)
              (decoded-Inv Seen (unmarshal text) s h v))
          (λ s v. consume-Inv s.notify s v)

    run-Inv :
        (es : List (Event P)) (s t : State)
        → All Admits es
        → Inv Seen s
        → run marshal unmarshal es s ≡ some t
        → Inv Seen t
    unfolding run
    run-Inv [] s t h v e = let same : s ≡ t = cc in subst (Inv Seen) same v
    run-Inv (x ∷ es) s t h v e =
        let (u, stepped, rest) =
          >>=-eq-some (step marshal unmarshal x s) (run marshal unmarshal es) e in
        run-Inv es u t h.1
          (Next-some (Inv Seen) (step marshal unmarshal x s) u (step-Inv x s h.0 v) stepped) rest

    -- In every interleaving, a result or an RPC error that a call returns is that of a message
    -- which the transport delivered as a response, without a method and with the call's own id.
    -- `Seen` is any property that all delivered messages have.
    pub call_answered_by_own_response :
        (es : List (Event P)) (s : State) (n : ℕ) (r : Result CallError Bytes)
        → All Admits es
        → run marshal unmarshal es new_protocol ≡ some s
        → (s.calls n).stage ≡ returned r
        → From Seen n r
    call_answered_by_own_response es s n r h e returned_r =
        ((run-Inv es new_protocol s h (new-Inv Seen) e).calls n).result r returned_r
