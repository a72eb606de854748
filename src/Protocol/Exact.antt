-- ===== src/Protocol/Exact.antt =====
-- protocol.go: the steps of the calls keep the pending map exact.
use bramble_go.Prelude.{
  List, err, Bool, ◌+◌, ◌≤◌, ◌<◌, ◌^◌, Bytes, ℕ, true, false, Option, none, some, ◌≡◌, ◌≢◌, inl,
  inr, refl, sym, ap, ◌∙◌, arith,
}
use mathlib.Core.Path.{subst}
use bramble_go.Protocol.{
  finish, Notification, Reader, exited, answer, set_call, Response, sending, Call, State,
  new_protocol, no_call, call_id, load, store, update, begin_framed,
}
use bramble_go.Protocol.Pending.{load-store, update_rule}
use bramble_go.Protocol.Exchange.{load-store_self, update_self, update_other}
use bramble_go.Protocol.Rules.{Rules, is_live}
use bramble_go.Protocol.Live.{
  IsExact, call-IsExact, finish-IsExact, load-store_other, call_id_injective,
}

pub new-IsExact : IsExact new_protocol
unfolding load
new-IsExact = record { live = λ few n h. absurd (cc h); known = λ few i n h. absurd (cc h) }

-- a call that is under way is no new one
older :
    (k : ℕ) (s : State)
    → s.started + 1 < 2 ^ 64
    → is_live (s.calls k).stage ≡ true
    → IsExact s
    → k ≢ s.started + 1
older k s few l v e = absurd (omega (arith, (v.live (omega arith) k l).0))

-- it is left alone by the beginning of another
kept :
    (k : ℕ) (c : Call) (s : State)
    → s.started + 1 < 2 ^ 64
    → is_live (s.calls k).stage ≡ true
    → IsExact s
    → is_live (update s.calls (s.started + 1) c k).stage ≡ true
kept k c s few l v =
    subst (λ (d : Call). is_live d.stage ≡ true)
      (sym (update_other s.calls (s.started + 1) k c (older k s few l v))) l

-- a call that returns at once
reject-IsExact :
    (c : Call) (s : State)
    → is_live c.stage ≡ false
    → IsExact s
    → IsExact (record s { started = s.started + 1; calls = update s.calls (s.started + 1) c })
reject-IsExact c s gone v = record {
  live = λ few.
      update_rule
        (λ k d.
          is_live d.stage ≡ true → (k ≤ s.started + 1) × (load (call_id k) s.pending ≡ some k))
        s.calls (s.started + 1) c (λ k h. let (b, f) = v.live (omega arith) k h in (omega arith, f))
        (λ h. let clash : true ≡ false = sym h ∙ gone in absurd (cc clash));
  known = λ few i k h. let (l, e) = v.known (omega arith) i k h in (kept k c s few l v, e);
}

begin-IsExact : (o : Option Bytes) (s : State) → IsExact s → IsExact (begin_framed o s)
unfolding begin_framed
begin-IsExact none s v = reject-IsExact _ s refl v
begin-IsExact (some frame) s v = record {
  live = λ few.
      update_rule
        (λ k d.
          is_live d.stage ≡ true
          → (k ≤ s.started + 1)
            × (load (call_id k) (store (call_id (s.started + 1)) (s.started + 1) s.pending)
                ≡ some k))
        s.calls (s.started + 1) (record no_call { stage = sending; frame = frame })
        (λ k h.
          let (b, f) = v.live (omega arith) k h in
          let apart : call_id k ≢ call_id (s.started + 1) =
            λ e. older k s few h v (call_id_injective k (s.started + 1) (omega arith) few e) in
          (
            omega arith,
            load-store_other (call_id k) (call_id (s.started + 1)) (s.started + 1) s.pending apart
                ∙ f,
          ))
        (λ h. (omega arith, load-store_self (call_id (s.started + 1)) (s.started + 1) s.pending));
  known = λ few i k h.
      let c : Call = record no_call { stage = sending; frame = frame } in
      elim (load-store i (call_id (s.started + 1)) (s.started + 1) s.pending k h) [
        | inl (here, it) ↦ (
          ap (λ j. is_live (update s.calls (s.started + 1) c j).stage) it
              ∙ ap (λ (d : Call). is_live d.stage) (update_self s.calls (s.started + 1) c),
          here ∙ ap call_id (sym it),
        )
        | inr old ↦ let (l, e) = v.known (omega arith) i k old in (kept k c s few l v, e)
      ];
}

take-IsExact :
    (n : ℕ) (m : Response) (s : State)
    → is_live (s.calls n).stage ≡ true
    → IsExact s
    → IsExact (finish n (answer m) (set_call n (record (s.calls n) { buffer = none }) s))
take-IsExact n m s l v =
    let c : Call = record (s.calls n) { buffer = none } in
    finish-IsExact n (answer m) (set_call n c s)
      (ap (λ (d : Call). is_live d.stage) (update_self s.calls n c) ∙ l) (call-IsExact n c s refl v)

-- a change of nothing that the invariant is about
pub still-IsExact :
    (s : State) (xs : List Notification) (r : Reader) (b : Bool)
    → IsExact s
    → IsExact (record s { notify = xs; reader = r; done = b })
still-IsExact s xs r b v = record { live = v.live; known = v.known }

pub IsExact-Rules : Rules IsExact
IsExact-Rules = record {
  begun = begin-IsExact;
  moved = λ n t s l m v. call-IsExact n (record (s.calls n) { stage = t }) s (m ∙ sym l) v;
  ended = λ n e s l h v. finish-IsExact n (err e) s l v;
  taken = λ n m s l f v. take-IsExact n m s l v;
  filled = λ n m s r f v.
      let w = call-IsExact n (record (s.calls n) { buffer = some m }) s refl v in
      record { live = w.live; known = w.known };
  left = λ s r v. still-IsExact s s.notify exited s.done v;
  stopped = λ s v. still-IsExact s s.notify s.reader true v;
}
