-- ===== src/Protocol/Answers.antt =====
-- protocol.go: what a call's answer has to be, and that the steps of the reader keep it so.
use bramble_go.Prelude.{
  true, ◌+◌, Bytes, ℕ, true, Option, none, some, Bytes, ltb, ℤ, length, Result, ok, err, ◌≡◌, inl,
  inr, refl, sym, ap, ◌∙◌, Bool-cases,
}
use mathlib.Core.Path.{subst}
use bramble_go.Protocol.{
  RpcError, Response, Notification, CallError, marshal_failed, send_failed, rpc_failed, cancelled,
  closed, Stage, sending, returned, Call, blocked, State, new_protocol, no_call, call_id, load,
  set_call, finish, answer, answer_of, deposit, is_response, is_notification, id_of, hand_over,
  push, route, begin_framed, decoded,
}
use bramble_go.Protocol.Pending.{load-delete, load-store, update_rule, returned_eq}

-- `Seen` is any property that every message from the transport has, such as being one of those that
-- the node sent.
module _ (Seen : Response → Type 0) where
  -- a response to call `n`
  abbrev pub Answers : ℕ → Response → Type 0
  Answers n m = (m.id ≡ some (call_id n)) × (is_response m ≡ true) × Seen m

  -- A result or an RPC error that call `n` returns is that of a response to it.
  abbrev pub From : ℕ → Result CallError Bytes → Type 0
  From n (ok r) = (m : Response) × Answers n m × (m.error ≡ none) × (m.result ≡ r)
  From n (err (rpc_failed e)) = (m : Response) × Answers n m × (m.error ≡ some e)
  From n (err marshal_failed) = Unit
  From n (err (send_failed e)) = Unit
  From n (err cancelled) = Unit
  From n (err closed) = Unit

  pub record IsSound (n : ℕ) (c : Call) : Type 0 where
    pub buffered : (m : Response) → c.buffer ≡ some m → Answers n m
    pub result : (r : Result CallError Bytes) → c.stage ≡ returned r → From n r

  pub record Inv (s : State) : Type 0 where
    pub calls : (n : ℕ) → IsSound n (s.calls n)
    pub ids : (i : ℤ) (n : ℕ) → load i s.pending ≡ some n → i ≡ call_id n
    pub held : (n : ℕ) (m : Response) → s.reader ≡ blocked n m → Answers n m

  pub new-Inv : Inv new_protocol
  unfolding load
  new-Inv = record {
    calls = λ n. record { buffered = λ m h. cc; result = λ r h. cc };
    ids = λ i n h. cc;
    held = λ n m h. cc;
  }

  pub set_call-Inv : (n : ℕ) (c : Call) (s : State) → Inv s → IsSound n c → Inv (set_call n c s)
  set_call-Inv n c s v new = record {
    calls = update_rule IsSound s.calls n c v.calls new;
    ids = v.ids;
    held = v.held;
  }

  -- a call that goes on to another stage than a return
  pub stage-Inv :
      (n : ℕ) (t : Stage) (s : State)
      → ((r : Result CallError Bytes) → t ≡ returned r → From n r)
      → Inv s
      → Inv (set_call n (record (s.calls n) { stage = t }) s)
  stage-Inv n t s from v =
      set_call-Inv n (record (s.calls n) { stage = t }) s v
        (record { buffered = (v.calls n).buffered; result = from })

  pub finish-Inv :
      (n : ℕ) (r : Result CallError Bytes) (s : State) → From n r → Inv s → Inv (finish n r s)
  unfolding finish
  finish-Inv n r s from v = record {
    calls =
        update_rule IsSound s.calls n (record (s.calls n) { stage = returned r }) v.calls
          (record {
            buffered = (v.calls n).buffered;
            result = λ q h. subst (From n) (returned_eq h) from;
          });
    ids = λ i k h. v.ids i k (load-delete i (call_id n) s.pending k h);
    held = v.held;
  }

  pub answer-From : (n : ℕ) (m : Response) → Answers n m → From n (answer m)
  answer-From n m h = go m.error refl
    where
      go : (e : Option RpcError) → m.error ≡ e → From n (answer_of e m.result)
      go none q = (m, h, q, refl)
      go (some x) q = (m, h, q)

  pub deposit-Inv :
      (n : ℕ) (m : Response) (b : Option Response) (s : State)
      → Answers n m
      → Inv s
      → Inv (deposit n m b s)
  unfolding deposit
  deposit-Inv n m none s h v =
      set_call-Inv n (record (s.calls n) { buffer = some m }) s v
        (record {
          buffered = λ x e. let same : m ≡ x = cc in subst (Answers n) same h;
          result = (v.calls n).result;
        })
  deposit-Inv n m (some old) s h v = record {
    calls = v.calls;
    ids = v.ids;
    held = λ k x e.
        let same_call : n ≡ k = cc in
        let same : m ≡ x = cc in
        subst (λ y. Answers k y) same (subst (λ y. Answers y m) same_call h);
  }

  pub hand_over-Inv :
      (m : Response) (o : Option ℕ) (s : State)
      → ((n : ℕ) → o ≡ some n → Answers n m)
      → Inv s
      → Inv (hand_over m o s)
  unfolding hand_over
  hand_over-Inv m none s h v = v
  hand_over-Inv m (some n) s h v = deposit-Inv n m (s.calls n).buffer s (h n refl) v

  pub push-Inv : (n : Notification) (s : State) → Inv s → Inv (push n s)
  unfolding push
  push-Inv n s v = elim (Bool-cases (ltb (length s.notify) 64)) [
    | inl room ↦ rw room (record { calls = v.calls; ids = v.ids; held = v.held })
    | inr full ↦ rw full v
  ]

  -- the call that a response's id leads to
  pub found_Answers :
      (m : Response) (s : State)
      → Seen m
      → Inv s
      → is_response m ≡ true
      → (n : ℕ) → id_of m.id s.pending ≡ some n
      → Answers n m
  found_Answers m s seen v reply n found = go m.id refl found
    where
      go : (o : Option ℤ) → m.id ≡ o → id_of o s.pending ≡ some n → Answers n m
      go none e f = cc
      go (some i) e f = (e ∙ ap some (v.ids i n f), reply, seen)

  pub route-Inv : (m : Response) (s : State) → Seen m → Inv s → Inv (route m s)
  unfolding route
  route-Inv m s seen v = elim (Bool-cases (is_response m)) [
    | inl reply ↦
        rw reply (hand_over-Inv m (id_of m.id s.pending) s (found_Answers m s seen v reply) v)
    | inr other ↦ rw other (elim (Bool-cases (is_notification m)) [
      | inl event ↦ rw event (push-Inv (record { method = m.method; params = m.params }) s v)
      | inr echo ↦ rw echo v
    ])
  ]

  pub decoded-Inv :
      (o : Option Response) (s : State)
      → ((m : Response) → o ≡ some m → Seen m)
      → Inv s
      → Inv (decoded o s)
  unfolding decoded
  decoded-Inv none s seen v = v
  decoded-Inv (some m) s seen v = route-Inv m s (seen m refl) v

  pub begin-Inv : (o : Option Bytes) (s : State) → Inv s → Inv (begin_framed o s)
  unfolding begin_framed
  begin-Inv none s v = record {
    calls =
        update_rule IsSound s.calls (s.started + 1)
          (record no_call { stage = returned (err marshal_failed) }) v.calls
          (record {
            buffered = λ m h. cc;
            result = λ r h. subst (From (s.started + 1)) (returned_eq h) tt;
          });
    ids = v.ids;
    held = v.held;
  }
  begin-Inv (some frame) s v = record {
    calls =
        update_rule IsSound s.calls (s.started + 1)
          (record no_call { stage = sending; frame = frame }) v.calls
          (record { buffered = λ m h. cc; result = λ r h. cc });
    ids = λ i n h. elim (load-store i (call_id (s.started + 1)) (s.started + 1) s.pending n h) [
      | inl (here, it) ↦ here ∙ ap call_id (sym it)
      | inr old ↦ v.ids i n old
    ];
    held = v.held;
  }
