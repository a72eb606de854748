-- ===== src/Prelude/Results.antt =====
-- A Go pair `(T, error)` is a `Result E T`: one of the two is set. A `do` block is the chain of
-- `if err != nil { return …, err }`.
use mathlib.Core.Path.{◌≡◌, refl}
use mathlib.Core.Option.{Option, none, some}
use mathlib.Core.Bool.{Bool, true, false}

pub data Result {ℓ κ} (E : Type ℓ) (A : Type κ) : Type (ℓ ⊔ κ) where
  err : E → Result E A
  ok : A → Result E A

-- an absent value is the error `e`
abbrev pub or_err {ℓ κ} : {E : Type ℓ} {A : Type κ} → Option A → E → Result E A
or_err none e = err e
or_err (some a) e = ok a

abbrev pub map_err {ℓ κ μ} :
    {E : Type ℓ} {F : Type κ} {A : Type μ} → (E → F) → Result E A → Result F A
map_err f (err e) = err (f e)
map_err f (ok a) = ok a

-- `if !test { return …, e }`
abbrev pub guard {ℓ} : {E : Type ℓ} → Bool → E → Result E (Unit {0})
guard false problem = err problem
guard true problem = ok tt

infixl 5 ◌>>=◌
abbrev pub ◌>>=◌ {ℓ κ μ} :
    {E : Type ℓ} {A : Type κ} {B : Type μ} → Result E A → (A → Result E B) → Result E B
◌>>=◌ (err problem) next = err problem
◌>>=◌ (ok a) next = next a

infixl 5 ◌>>◌
abbrev pub ◌>>◌ {ℓ κ} : {E : Type ℓ} {C : Type κ} → Result E (Unit {0}) → Result E C → Result E C
◌>>◌ check next = check >>= λ u. next

-- the steps of a chain that succeeds
pub >>=-eq-ok {ℓ κ μ} :
    {E : Type ℓ} {A : Type κ} {C : Type μ} (first : Result E A) (next : A → Result E C) {c : C}
    → (first >>= next) ≡ ok c
    → (a : A) × (first ≡ ok a) × (next a ≡ ok c)
>>=-eq-ok (err problem) next reached = cc
>>=-eq-ok (ok a) next reached = (a, refl, reached)

pub guard-eq-ok {ℓ μ} :
    {E : Type ℓ} {B : Type μ} (t : Bool) (e : E) (m : Result E B) {b : B}
    → (guard t e >> m) ≡ ok b
    → (t ≡ true) × (m ≡ ok b)
guard-eq-ok true e m h = (refl, h)
guard-eq-ok false e m h = cc

pub or_err-eq-ok {ℓ κ} :
    {E : Type ℓ} {A : Type κ} (o : Option A) (e : E) {a : A} → or_err o e ≡ ok a → o ≡ some a
or_err-eq-ok none e h = cc
or_err-eq-ok (some a) e h = cc
