-- ===== src/Client.antt =====
-- client.go: the typed methods over `Protocol.Call`. The call is a parameter that may change a
-- state of its own; so is `json.Unmarshal` into each response type, which a method is given.
pub mod Queries
pub mod Commands
pub mod Messages
pub mod Location
pub mod Notify
pub mod Connection
pub mod Laws
mod Tests
use bramble_go.Prelude.{
  ℕ, Bool, true, false, List, [], ◌∷◌, Option, none, some, Bytes, codes, ℤ, Result, ok, err,
  if◌then◌else◌, or_err, map_err,
}
use bramble_go.Protocol.{CallError}

-- A member of a request's `params`; `F` is the type of its floats.
pub data Value (F : Type 0) : Type 0 where
  text : Bytes → Value F
  int : ℤ → Value F
  bool : Bool → Value F
  float : F → Value F

-- `params`: nil, or the members of a map or a struct. A member that is assigned stands in the list
-- once; `json.Marshal` sorts the members of a map.
abbrev pub Params : Type 0 → Type 0
Params F = Option (List (Bytes × Value F))

-- a member for a value that is there, and none for nil
abbrev pub optional : {F A : Type 0} → Bytes → (A → Value F) → Option A → List (Bytes × Value F)
optional key value none = []
optional key value (some a) = (key, value a) ∷ []

-- What a method returns where it returns an error.
pub data Error : Type 0 where
  call_failed : CallError → Error
  -- "bramble: get wifi status: %w" and the like
  call_failed_in : Bytes → CallError → Error
  -- "bramble: decode %s: %w"
  decode_failed : Bytes → Error
  -- "bramble: %s returned ok=false"
  not_ok : Bytes → Error
  pong_false : Error
  -- "bramble: Call %s: not connected"
  not_connected : Bytes → Error

-- A method is run in the state of its call.
abbrev pub Api : Type 0 → Type 0 → Type 0
Api S A = S → Result Error A × S

abbrev pub after : {S A B : Type 0} → (A → Api S B) → Result Error A × S → Result Error B × S
after f (ok a, s) = f a s
after f (err e, s) = (err e, s)

infixl 5 ◌>>=◌
abbrev pub ◌>>=◌ : {S A B : Type 0} → Api S A → (A → Api S B) → Api S B
◌>>=◌ m f s = after f (m s)

abbrev pub done : {S A : Type 0} → Result Error A → Api S A
done r s = (r, s)

abbrev pub relay :
    {S A : Type 0} → (CallError → Error) → Result CallError A × S → Result Error A × S
relay f (r, s) = (map_err f r, s)

-- `checkOK` of the `ok` member
unfoldable pub check_ok : Bytes → Option Bool → Result Error (Unit {0})
check_ok method none = err (decode_failed method)
check_ok method (some true) = ok tt
check_ok method (some false) = err (not_ok method)

module _ {F S : Type 0} (call : Bytes → Params F → S → Result CallError Bytes × S) where
  -- a call whose error is returned as it is, or with a few words before it
  unfoldable pub invoke : Bytes → Params F → Api S Bytes
  invoke method params s = relay call_failed (call method params s)

  -- `Client.Call`; `proto` is whether the client has a protocol
  unfoldable pub call_raw : Bool → Bytes → Params F → Api S Bytes
  unfolding invoke
  call_raw proto method params s =
      if proto then invoke method params s else (err (not_connected method), s)

  unfoldable pub invoke_in : Bytes → Bytes → Params F → Api S Bytes
  invoke_in words method params s = relay (call_failed_in words) (call method params s)

  -- a call, and its result read as a `name`
  unfoldable pub query : {T : Type 0} → Bytes → Params F → Bytes → (Bytes → Option T) → Api S T
  unfolding invoke
  query method params name unmarshal = do
    raw ← invoke method params
    done (or_err (unmarshal raw) (decode_failed name))

  unfoldable pub query_in :
      {T : Type 0} → Bytes → Bytes → Params F → Bytes → (Bytes → Option T) → Api S T
  unfolding invoke_in
  query_in words method params name unmarshal = do
    raw ← invoke_in words method params
    done (or_err (unmarshal raw) (decode_failed name))

  -- a call whose result has nothing but `ok`, which `read_ok` reads
  unfoldable pub command : (Bytes → Option Bool) → Bytes → Bytes → Params F → Api S (Unit {0})
  unfolding invoke check_ok
  command read_ok method name params = do
    raw ← invoke method params
    done (check_ok name (read_ok raw))
