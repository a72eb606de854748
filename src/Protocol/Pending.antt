-- ===== src/Protocol/Pending.antt =====
-- protocol.go: the map of pending calls, and the calls' states, as finite maps.
use bramble_go.Prelude.{
  Bytes, ℕ, List, [], ◌∷◌, none, some, Bytes, ◌==◌, ℤ, eq_int_iff, Result, ◌≡◌, ◌⊎◌, inl, inr, refl,
  sym, arith, Bool-cases, ==_iff,
}
use mathlib.Core.Path.{subst}
use bramble_go.Protocol.{CallError, returned, Call, update, load, delete, store}

pub load-delete_self : (j : ℤ) (m : List (ℤ × ℕ)) → load j (delete j m) ≡ none
unfolding load delete
load-delete_self j [] = refl
load-delete_self j ((k, v) ∷ m) = ground (arith, load-delete_self j m)

pub load-delete :
    (i j : ℤ) (m : List (ℤ × ℕ)) (n : ℕ) → load i (delete j m) ≡ some n → load i m ≡ some n
unfolding load delete
load-delete i j [] n h = h
load-delete i j ((k, v) ∷ m) n h =
    ground (arith, load-delete i j m n, load-delete_self j m, eq_int_iff k i, eq_int_iff k j)

pub load-store :
    (i j : ℤ) (v : ℕ) (m : List (ℤ × ℕ)) (n : ℕ)
    → load i (store j v m) ≡ some n
    → ((i ≡ j) × (n ≡ v)) ⊎ (load i m ≡ some n)
unfolding load store
load-store i j v m n h = ground (arith, load-delete i j m n, eq_int_iff j i)

-- What holds of each call holds after an update, if it holds of the new call.
pub update_rule :
    (Q : ℕ → Call → Type 0) (calls : ℕ → Call) (n : ℕ) (c : Call)
    → ((k : ℕ) → Q k (calls k))
    → Q n c
    → (k : ℕ) → Q k (update calls n c k)
update_rule Q calls n c all new k = elim (Bool-cases (k == n)) [
  | inl same ↦ rw same (subst (λ i. Q i c) (sym ((==_iff k n).0 same)) new)
  | inr other ↦ rw other (all k)
]

pub returned_eq : {a b : Result CallError Bytes} → returned a ≡ returned b → a ≡ b
returned_eq h = cc
