-- ===== src/Mock/Timed.antt =====
-- transport/transporttest/mock.go: goroutines that wake up one after another.
use mathlib.Core.Path.{subst}
use bramble_go.Prelude.{
  ◌≡◌, ◌++◌, ◌≤◌, ◌<◌, ◌+◌, ℕ, zero, suc, List, [], ◌∷◌, Option, none, some, All, arith,
}
use bramble_go.Mock.{Waiting, choose}

-- The first wakes up at `lo` or later, and each of the others after the one before it.
abbrev pub IsTimed : ℕ → List Waiting → Type 0
IsTimed lo [] = Unit
IsTimed lo (g ∷ gs) = (lo ≤ g.wakes) × IsTimed (g.wakes + 1) gs

-- all wake up by the time `b`
abbrev pub AllBy : ℕ → List Waiting → Type 0
AllBy b = All (λ g. g.wakes ≤ b)

pub IsTimed-tail : (lo : ℕ) (g : Waiting) (gs : List Waiting) → IsTimed lo (g ∷ gs) → IsTimed lo gs
IsTimed-tail lo g [] h = tt
IsTimed-tail lo g (k ∷ gs) (h, (hs, more)) = (omega (arith, h, hs), more)

pub IsTimed-tick :
    (now : ℕ) (gs : List Waiting)
    → All (λ g. now < g.wakes) gs
    → IsTimed now gs
    → IsTimed (now + 1) gs
IsTimed-tick now [] a h = tt
IsTimed-tick now (g ∷ gs) (a, more) (h, hs) = (omega (arith, a), hs)

pub IsTimed-append :
    (lo b : ℕ) (gs : List Waiting) (g : Waiting)
    → lo ≤ g.wakes
    → b < g.wakes
    → AllBy b gs
    → IsTimed lo gs
    → IsTimed lo (gs ++ g ∷ [])
IsTimed-append lo b [] g l k a h = (l, tt)
IsTimed-append lo b (x ∷ gs) g l k (a, more) (h, hs) =
    (h, IsTimed-append (x.wakes + 1) b gs g (omega (arith, a, k)) k more hs)

pub AllBy-later : (b c : ℕ) (gs : List Waiting) → b ≤ c → AllBy b gs → AllBy c gs
AllBy-later b c [] l h = tt
AllBy-later b c (g ∷ gs) l (h, hs) = (omega (arith, l, h), AllBy-later b c gs l hs)

pub AllBy-append :
    (b : ℕ) (gs : List Waiting) (g : Waiting) → g.wakes ≤ b → AllBy b gs → AllBy b (gs ++ g ∷ [])
AllBy-append b [] g l h = (l, tt)
AllBy-append b (x ∷ gs) g l (h, hs) = (h, AllBy-append b gs g l hs)

pub picked :
    (x : Waiting) (o : Option (Waiting × List Waiting)) (g : Waiting) (rest : List Waiting)
    → elim o as (λ y. Option (Waiting × List Waiting)) [
      | none ↦ none
      | some (h, r) ↦ some (h, x ∷ r)
    ]
      ≡ some (g, rest)
    → (r : List Waiting) × (o ≡ some (g, r)) × (rest ≡ x ∷ r)
picked x none g rest e = cc
picked x (some (h, r)) g rest e = (r, cc, cc)

-- A goroutine of some that wake up at `lo` or later wakes up at `lo` or later.
pub choose_later :
    (lo i : ℕ) (gs : List Waiting) (g : Waiting) (rest : List Waiting)
    → IsTimed lo gs
    → choose i gs ≡ some (g, rest)
    → lo ≤ g.wakes
unfolding choose
choose_later lo i [] g rest h e = cc
choose_later lo zero (x ∷ gs) g rest (h, hs) e =
    let same : x ≡ g = cc in subst (λ y. lo ≤ y.wakes) same h
choose_later lo (suc i) (x ∷ gs) g rest (h, hs) e =
    let (r, p, q) = picked x (choose i gs) g rest e in
    omega (arith, h, choose_later (x.wakes + 1) i gs g r hs p)

-- Of goroutines that wake up from `now` on, only the first can have slept by then.
pub choose_first :
    (now i : ℕ) (gs : List Waiting) (g : Waiting) (rest : List Waiting)
    → IsTimed now gs
    → choose i gs ≡ some (g, rest)
    → g.wakes ≤ now
    → gs ≡ g ∷ rest
unfolding choose
choose_first now i [] g rest h e l = cc
choose_first now zero (x ∷ gs) g rest h e l = cc
choose_first now (suc i) (x ∷ gs) g rest (h, hs) e l =
    let (r, p, q) = picked x (choose i gs) g rest e in
    absurd (omega (arith, h, l, choose_later (x.wakes + 1) i gs g r hs p))
