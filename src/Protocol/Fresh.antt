-- ===== src/Protocol/Fresh.antt =====
-- protocol.go: the steps of the calls leave the reader free.
use bramble_go.Prelude.{
  ◌+◌, Bytes, ℕ, Option, none, some, ltb, ℤ, length, Result, err, ◌≡◌, ◌≢◌, inl, inr, sym, ap, ◌∙◌,
  Bool-cases, List, [], ◌∷◌,
}
use mathlib.Core.List.{Mem}
use bramble_go.Runs.{Next}
use bramble_go.Protocol.{
  Response, Notification, CallError, marshal_failed, sending, returned, Call, blocked, State,
  new_protocol, no_call, call_id, load, set_call, finish, answer, push, begin_framed, consume_one,
}
use bramble_go.Protocol.Rules.{Rules}
use bramble_go.Protocol.Pending.{load-delete, load-store, update_rule}

module _ (later : List ℤ) where
  abbrev pub IsFresh : ℕ → Call → Type 0
  IsFresh n c = (x : Response) → c.buffer ≡ some x → ¬ Mem (call_id n) later

  -- The reader is not blocked, and a call that has a response gets no other one `later`.
  pub record IsFree (s : State) : Type 0 where
    pub reader : (n : ℕ) (m : Response) → s.reader ≢ blocked n m
    pub ids : (i : ℤ) (n : ℕ) → load i s.pending ≡ some n → i ≡ call_id n
    pub fresh : (n : ℕ) → IsFresh n (s.calls n)

  pub new-IsFree : IsFree new_protocol
  unfolding load
  new-IsFree = record { reader = λ n m h. cc; ids = λ i n h. cc; fresh = λ n x h. cc }

  -- a change of call `n` that fills no buffer
  call-IsFree :
      (n : ℕ) (c : Call) (s : State)
      → ((x : Response) → c.buffer ≡ some x → (s.calls n).buffer ≡ some x)
      → IsFree s
      → IsFree (set_call n c s)
  call-IsFree n c s keeps v = record {
    reader = v.reader;
    ids = v.ids;
    fresh = update_rule IsFresh s.calls n c v.fresh (λ x h. v.fresh n x (keeps x h));
  }

  finish-IsFree :
      (n : ℕ) (r : Result CallError Bytes) (s : State) → IsFree s → IsFree (finish n r s)
  unfolding finish
  finish-IsFree n r s v =
      let w = call-IsFree n (record (s.calls n) { stage = returned r }) s (λ x h. h) v in
      record {
        reader = w.reader;
        ids = λ i k h. v.ids i k (load-delete i (call_id n) s.pending k h);
        fresh = w.fresh;
      }

  begin-IsFree : (o : Option Bytes) (s : State) → IsFree s → IsFree (begin_framed o s)
  unfolding begin_framed
  begin-IsFree none s v = record {
    reader = v.reader;
    ids = v.ids;
    fresh =
        update_rule IsFresh s.calls (s.started + 1)
          (record no_call { stage = returned (err marshal_failed) }) v.fresh (λ x h. cc);
  }
  begin-IsFree (some frame) s v = record {
    reader = v.reader;
    ids = λ i n h. elim (load-store i (call_id (s.started + 1)) (s.started + 1) s.pending n h) [
      | inl (here, it) ↦ here ∙ ap call_id (sym it)
      | inr old ↦ v.ids i n old
    ];
    fresh =
        update_rule IsFresh s.calls (s.started + 1)
          (record no_call { stage = sending; frame = frame }) v.fresh (λ x h. cc);
  }

  pub consume-IsFree :
      (xs : List Notification) (s : State) → IsFree s → Next IsFree (consume_one xs s)
  unfolding consume_one
  consume-IsFree [] s v = tt
  consume-IsFree (x ∷ xs) s v = record { reader = v.reader; ids = v.ids; fresh = v.fresh }

  pub push-IsFree : (x : Notification) (s : State) → IsFree s → IsFree (push x s)
  unfolding push
  push-IsFree x s v = elim (Bool-cases (ltb (length s.notify) 64)) [
    | inl room ↦ rw room (record { reader = v.reader; ids = v.ids; fresh = v.fresh })
    | inr full ↦ rw full v
  ]

  pub IsFree-Rules : Rules IsFree
  IsFree-Rules = record {
    begun = begin-IsFree;
    moved = λ n t s l m v. call-IsFree n (record (s.calls n) { stage = t }) s (λ x h. h) v;
    ended = λ n e s l h v. finish-IsFree n (err e) s v;
    taken = λ n m s l f v.
        finish-IsFree n (answer m) _
          (call-IsFree n (record (s.calls n) { buffer = none }) s (λ x h. cc) v);
    filled = λ n m s r f v. absurd (v.reader n m r);
    left = λ s r v. record { reader = λ n m h. cc; ids = v.ids; fresh = v.fresh };
    stopped = λ s v. record { reader = v.reader; ids = v.ids; fresh = v.fresh };
  }
