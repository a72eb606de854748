-- ===== src/Transport.antt =====
-- transport/transport.go and transport/auth.go: the errors that all transports share, and the
-- handshake of a JSON-RPC request.
pub mod Contract
pub mod Messages
pub mod Request
pub mod Handshake
use bramble_go.Prelude.{
  Bool, ◌&&◌, not, Option, none, some, Bytes, codes, ℤ, pos, eq_int, Result, ok, err, if◌then◌else◌,
  is_empty,
}
use bramble_go.Text.{equal}

-- `ErrNotConnected`, `ErrClosed` and `ErrReconnecting`
pub data Refusal : Type 0 where
  not_connected closed reconnecting : Refusal

-- The members of an answer to the handshake.
pub record AuthResponse : Type 0 where
  pub id : Option ℤ
  pub error : Bytes

pub data AuthError : Type 0 where
  invalid_response invalid_id : AuthError
  auth_failed : Bytes → AuthError

-- an error member that is there and is not null
abbrev pub has_error : Bytes → Bool
has_error error = not (is_empty error) && not (equal error (codes "null"))

-- `resp.ID == nil || *resp.ID != 0`
abbrev pub is_first_id : Option ℤ → Bool
is_first_id none = Bool.false
is_first_id (some i) = eq_int i (pos 0)

-- what `validateAuthResponse` does behind `json.Unmarshal`
unfoldable pub validate_auth_response : Option AuthResponse → Result AuthError (Unit {0})
validate_auth_response none = err invalid_response
validate_auth_response (some r) =
    if not (is_first_id r.id)
    then err invalid_id
    else if has_error r.error
    then err (auth_failed r.error)
    else ok tt
