-- ===== src/Client/Laws.antt =====
-- client.go: what the return of a method means for its call.
use bramble_go.Prelude.{◌≡◌, refl, Bytes, Result, ok, err}
use bramble_go.Protocol.{CallError}
use bramble_go.Client.{Api, Error, done, relay, after}

-- the two steps of a method that succeeds
pub after-eq-ok :
    {S A B : Type 0} (f : A → Api S B) (m : Result Error A × S) (b : B) (s' : S)
    → after f m ≡ (ok b, s')
    → (a : A) × (s : S) × (m ≡ (ok a, s)) × (f a s ≡ (ok b, s'))
after-eq-ok f (ok a, s) b s' h = (a, s, refl, h)
after-eq-ok f (err e, s) b s' h = cc

module _ {S T : Type 0} (decode : Bytes → Result Error T) where
  -- a call's outcome and its reading
  abbrev pub read : Result CallError Bytes × S → Result Error T × S
  read c = after (λ raw. done (decode raw)) (relay Error.call_failed c)

  pub read_ok_lem :
      (c : Result CallError Bytes × S) (t : T) (s' : S)
      → read c ≡ (ok t, s')
      → (raw : Bytes) × (c ≡ (ok raw, s')) × (decode raw ≡ ok t)
  read_ok_lem (ok raw, s) t s' h = (raw, cc, cc)
  read_ok_lem (err e, s) t s' h = cc
