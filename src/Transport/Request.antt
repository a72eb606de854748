-- ===== src/Transport/Request.antt =====
-- transport/auth.go: the request of the handshake, as encoding/json writes it.
use bramble_go.Prelude.{[], ◌∷◌, List, Option, Bytes, codes, ℤ, pos}
use bramble_go.Json.{Json, text_codec, int_codec}
use bramble_go.Json.Map.{map_codec}
use bramble_go.Json.Struct.{Field, required, encode_struct}

-- `authRequest`; the only parameter is a text.
pub record AuthRequest : Type 0 where
  pub jsonrpc : Bytes
  pub method : Bytes
  pub params : List (Bytes × Bytes)
  pub id : ℤ

unfoldable pub auth_request_fields : {F : Type 0} → List (Field F AuthRequest)
auth_request_fields =
    required text_codec (codes "jsonrpc") (λ t. t.jsonrpc) (λ a t. record t { jsonrpc = a })
    ∷ required text_codec (codes "method") (λ t. t.method) (λ a t. record t { method = a })
    ∷ required (map_codec text_codec) (codes "params") (λ t. t.params)
        (λ a t. record t { params = a })
    ∷ required int_codec (codes "id") (λ t. t.id) (λ a t. record t { id = a })
    ∷ []

-- `buildAuthRequest`; `marshal` writes a JSON value, or fails.
unfoldable pub build_auth_request : {F : Type 0} → (Json F → Option Bytes) → Bytes → Option Bytes
unfolding auth_request_fields
build_auth_request marshal token = marshal (
    encode_struct auth_request_fields (record {
      jsonrpc = codes "2.0";
      method = codes "bramble.auth";
      params = (codes "token", token) ∷ [];
      id = pos 0;
    }))
