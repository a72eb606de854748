-- ===== src/Protocol/Live.antt =====
-- protocol.go: the pending map against the calls that are under way.
use bramble_go.Prelude.{
  ◌≤◌, ◌<◌, ◌^◌, ◌%◌, ◌-◌, Bytes, ℕ, true, false, Bool, if◌then◌else◌, none, some, ltb, ℤ, pos,
  negsuc, eq_int_iff, Result, ◌≡◌, ◌≢◌, refl, sym, ap, ◌∙◌, List, [], ◌∷◌, arith,
}
use mathlib.Core.Path.{subst}
use bramble_go.Protocol.{
  returned, Call, State, CallError, int64, call_id, load, delete, store, set_call, finish,
}
use bramble_go.Protocol.Exchange.{finish_stage, finish_other}
use bramble_go.Protocol.Rules.{is_live}
use bramble_go.Protocol.Pending.{load-delete, load-delete_self, update_rule}

load-delete_other : (i j : ℤ) (m : List (ℤ × ℕ)) → i ≢ j → load i (delete j m) ≡ load i m
unfolding load delete
load-delete_other i j [] h = refl
load-delete_other i j ((k, v) ∷ m) h =
    ground (arith, load-delete_other i j m h, eq_int_iff k i, eq_int_iff k j)

pub load-store_other :
    (i j : ℤ) (n : ℕ) (m : List (ℤ × ℕ)) → i ≢ j → load i (store j n m) ≡ load i m
unfolding load store
load-store_other i j n m h = ground (arith, load-delete_other i j m h, eq_int_iff j i)

int64_cases :
    (n k : ℕ) (b c : Bool)
    → ltb n (2 ^ 63) ≡ b
    → ltb k (2 ^ 63) ≡ c
    → n < 2 ^ 64
    → k < 2 ^ 64
    → (if b then pos n else negsuc (2 ^ 64 - 1 - n))
      ≡ (if c then pos k else negsuc (2 ^ 64 - 1 - k))
    → n ≡ k
int64_cases n k true true p q h l e = cc
int64_cases n k true false p q h l e = absurd (cc e)
int64_cases n k false true p q h l e = absurd (cc e)
int64_cases n k false false p q h l e =
    let same : 2 ^ 64 - 1 - n ≡ 2 ^ 64 - 1 - k = cc in omega arith

pub call_id_injective : (n k : ℕ) → n < 2 ^ 64 → k < 2 ^ 64 → call_id n ≡ call_id k → n ≡ k
call_id_injective n k h l e =
    let a : n % 2 ^ 64 ≡ n = omega arith in
    let b : k % 2 ^ 64 ≡ k = omega arith in
    int64_cases n k (ltb n (2 ^ 63)) (ltb k (2 ^ 63)) refl refl h l
      (ap int64 (sym a) ∙ e ∙ ap int64 b)

-- The map has the ids of the calls that are under way, each once with its call, and no others.
pub record IsExact (s : State) : Type 0 where
  pub live :
      s.started < 2 ^ 64
      → (n : ℕ) → is_live (s.calls n).stage ≡ true
      → (n ≤ s.started) × (load (call_id n) s.pending ≡ some n)
  pub known :
      s.started < 2 ^ 64
      → (i : ℤ) (n : ℕ) → load i s.pending ≡ some n
      → (is_live (s.calls n).stage ≡ true) × (i ≡ call_id n)

-- a change of a call that does not end or begin it
pub call-IsExact :
    (n : ℕ) (c : Call) (s : State)
    → is_live c.stage ≡ is_live (s.calls n).stage
    → IsExact s
    → IsExact (set_call n c s)
call-IsExact n c s same v = record {
  live = λ few.
      update_rule
        (λ k d. is_live d.stage ≡ true → (k ≤ s.started) × (load (call_id k) s.pending ≡ some k))
        s.calls n c (v.live few) (λ h. v.live few n (sym same ∙ h));
  known = λ few i.
      update_rule (λ k d. load i s.pending ≡ some k → (is_live d.stage ≡ true) × (i ≡ call_id k))
        s.calls n c (v.known few i) (λ h. let (l, e) = v.known few i n h in (same ∙ l, e));
}

-- a call that is under way behind the return of another
live_other :
    (n k : ℕ) (r : Result CallError Bytes) (s : State)
    → is_live ((finish n r s).calls k).stage ≡ true
    → k ≢ n
unfolding finish
live_other n k r s h same =
    let stage : ((finish n r s).calls k).stage ≡ returned r =
      ap (λ i. ((finish n r s).calls i).stage) same ∙ finish_stage n r s in
    let clash : true ≡ false = sym h ∙ ap is_live stage in absurd (cc clash)

-- the return of a call that is under way
pub finish-IsExact :
    (n : ℕ) (r : Result CallError Bytes) (s : State)
    → is_live (s.calls n).stage ≡ true
    → IsExact s
    → IsExact (finish n r s)
unfolding finish
finish-IsExact n r s now v = record {
  live = λ few k h.
      let other : k ≢ n = live_other n k r s h in
      let old : is_live (s.calls k).stage ≡ true =
        subst (λ c. is_live c.stage ≡ true) (finish_other n k r s other) h in
      let (begun, found) = v.live few k old in
      let apart : call_id k ≢ call_id n =
        λ e. other (call_id_injective k n (omega arith) (omega (arith, (v.live few n now).0)) e) in
      (begun, load-delete_other (call_id k) (call_id n) s.pending apart ∙ found);
  known = λ few i k h.
      let (l, e) = v.known few i k (load-delete i (call_id n) s.pending k h) in
      let other : k ≢ n = λ same.
        let clash : none ≡ some k =
          sym (load-delete_self (call_id n) s.pending)
          ∙ ap (λ j. load j (delete (call_id n) s.pending)) (sym (e ∙ ap call_id same))
          ∙ h in
        absurd (cc clash) in
      (subst (λ c. is_live c.stage ≡ true) (sym (finish_other n k r s other)) l, e);
}
