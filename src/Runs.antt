-- ===== src/Runs.antt =====
-- Sequences of events: what the critical sections of some goroutines do in the order in which they
-- come about.
use mathlib.Core.Path.{subst}
use bramble_go.Prelude.{◌≡◌, List, [], ◌∷◌, Option, none, some, All}
use bramble_go.Prelude.Maybe
use bramble_go.Prelude.Maybe.{>>=-eq-some}

module _ {S : Type 0} where
  -- what holds of the next state, if there is one
  abbrev pub Next : (S → Type 0) → Option S → Type 0
  Next P none = Unit
  Next P (some s) = P s

  pub Next-some : (P : S → Type 0) (o : Option S) (s : S) → Next P o → o ≡ some s → P s
  Next-some P none s h e = cc
  Next-some P (some r) s h e = let same : r ≡ s = cc in subst P same h

module _ {S E : Type 0} (step : E → S → Option S) where
  -- the state behind some events; `none` if one of them cannot come about
  unfoldable pub run : List E → S → Option S
  run [] s = some s
  run (e ∷ es) s = Maybe.◌>>=◌ (step e s) (run es)

  -- what each event of a run keeps holds at its end
  pub run-Next :
      (P : S → Type 0) (Q : E → Type 0)
      → ((e : E) (s : S) → Q e → P s → Next P (step e s))
      → (es : List E) (s t : S) → All Q es
      → P s
      → run es s ≡ some t
      → P t
  unfolding run
  run-Next P Q keeps [] s t a h e = let same : s ≡ t = cc in subst P same h
  run-Next P Q keeps (x ∷ es) s t a h e =
      let (r, stepped, rest) = >>=-eq-some (step x s) (run es) e in
      run-Next P Q keeps es r t a.1 (Next-some P (step x s) r (keeps x s a.0 h) stepped) rest
