-- ===== src/Wire/Replies.antt =====
-- client.go over protocol.go and types.go: what `Status` and `Version` return while other calls are
-- under way, by the members of the node's answers.
use bramble_go.Prelude.{
  ◌≡◌, ◌≢◌, ◌⊎◌, refl, ap, sym, ℕ, Bool, true, false, List, Option, none, some, Bytes, codes,
  Result, ok, err, or_err, All,
}
use mathlib.Core.Path.{subst}
use bramble_go.Protocol.{
  RpcError, CallError, rpc_failed, Request, Response, Event, State, new_protocol, returned, call_id,
  run,
}
use bramble_go.Protocol.Correlation.{Admits}
use bramble_go.Client.{Params, query, invoke, decode_failed, Error}
use bramble_go.Client.Connection.{VersionResponse}
use bramble_go.Client.Queries.{status, version}
use bramble_go.Client.Laws.{read}
use bramble_go.Json.{
  Json, Members, member, done, object, text, bool, int, fits_int, text_codec, bool_codec,
  int_codec_of,
}
use bramble_go.Json.Struct.{encode_struct, members_of}
use bramble_go.Json.Laws.{Struct, AllValid}
use bramble_go.Wire.Reading.{unmarshal}
use bramble_go.Wire.Interleaved.{query-ReadsOwn}
use bramble_go.Wire.Node.{StatusResponse, status_response_json, version_response_json}

module _ {F : Type 0} where
  -- the member that is left out where it is false
  abbrev pub sync_member : Bool → Members F
  sync_member true = member (codes "supports_delivery_event_sync") (bool true) done
  sync_member false = done

  abbrev pub status_members : StatusResponse → Json F
  status_members t = object (
      member (codes "address") (text t.address) (
        member (codes "firmware_version") (text t.firmware_version) (
          member (codes "protocol_version") (text t.protocol_version) (
            member (codes "hardware") (text t.hardware) (
              member (codes "radio_ok") (bool t.radio_ok) (
                member (codes "peers") (int t.peers) (
                  member (codes "beacon_tx") (int t.beacon_tx) (
                    member (codes "beacon_rx") (int t.beacon_rx) (
                      member (codes "packets_tx") (int t.packets_tx) (
                        member (codes "packets_rx") (int t.packets_rx) (
                          member (codes "uptime_s") (int t.uptime_sec)
                            (sync_member t.supports_delivery_event_sync))))))))))))

  abbrev pub version_members : VersionResponse → Json F
  version_members t = object (
      member (codes "firmware_version") (text t.firmware_version) (
        member (codes "protocol_version") (text t.protocol_version) (
          member (codes "hardware") (text t.hardware)
            (sync_member t.supports_delivery_event_sync))))

  status_written :
      (t : StatusResponse) (b : Bool)
      → t.supports_delivery_event_sync ≡ b
      → encode_struct {F = F} status_response_json.fields t ≡ status_members t
  unfolding encode_struct members_of status_response_json text_codec bool_codec int_codec_of
  status_written t true e = rw e refl
  status_written t false e = rw e refl

  version_written :
      (t : VersionResponse) (b : Bool)
      → t.supports_delivery_event_sync ≡ b
      → encode_struct {F = F} version_response_json.fields t ≡ version_members t
  unfolding encode_struct members_of version_response_json text_codec bool_codec
  version_written t true e = rw e refl
  version_written t false e = rw e refl

-- the counters are in the range of Go's `int`
abbrev pub HasCounters : StatusResponse → Type 0
HasCounters t =
    (fits_int t.peers ≡ true)
    × (fits_int t.beacon_tx ≡ true)
    × (fits_int t.beacon_rx ≡ true)
    × (fits_int t.packets_tx ≡ true)
    × (fits_int t.packets_rx ≡ true)
    × (fits_int t.uptime_sec ≡ true)

-- A message with the id of call `n` is no error, and its result reads as `j`.
abbrev pub Says : {F : Type 0} → (Bytes → Option (Json F)) → ℕ → Json F → Response → Type 0
Says parse n j m = m.id ≡ some (call_id n) → (m.error ≡ none) × (parse m.result ≡ some j)

-- A method with the result `o` behind a call that returned `r` has read `t`, or returns the call's
-- error, which is none that the node sent.
abbrev pub IsRead : {T S : Type 0} → T → Result CallError Bytes → S → Result Error T × S → Type 0
IsRead t r w o =
    (o ≡ (ok t, w))
    ⊎ ((e : CallError) × (r ≡ err e)
        × (o ≡ (err (Error.call_failed e), w))
        × ((x : RpcError) → e ≢ rpc_failed x))

module _ {F G S P : Type 0} (parse : Bytes → Option (Json F)) (marshal : Request P → Option Bytes)
    (envelope : Bytes → Option Response)
    (call : Bytes → Params G → S → Result CallError Bytes × S) where
  query-IsRead :
      {T : Type 0} (wire : Struct F T) (method name : Bytes) (j : Json F) (es : List (Event P))
      (s : State) (n : ℕ) (t : T) (r : Result CallError Bytes) (w w' : S)
      → encode_struct wire.fields t ≡ j
      → AllValid wire.fields t
      → All (Admits (Says parse n j) marshal envelope) es
      → run marshal envelope es new_protocol ≡ some s
      → (s.calls n).stage ≡ returned r
      → call method none w ≡ (r, w')
      → IsRead t r w' (query call method none name (unmarshal parse wire) w)
  unfolding query invoke
  query-IsRead wire method name j es s n t r w w' written v a h stage c =
      subst (IsRead t r w')
        (sym (ap (read (λ raw. or_err (unmarshal parse wire raw) (decode_failed name))) c))
        (query-ReadsOwn {G = G} parse wire method name none w' marshal envelope es s n t r
          (subst (λ x. All (Admits (Says parse n x) marshal envelope) es) (sym written) a) h stage
          v)

  -- However calls, their responses and notifications interleave: if the node answers the id of
  -- call `n` with the members of the status `t` only, and the counters are in range, then `Status`,
  -- where its call of `bramble.getStatus` is call `n`, returns `t`, or an error that does not come
  -- from the node.
  pub status-IsRead :
      (es : List (Event P)) (s : State) (n : ℕ) (t : StatusResponse) (r : Result CallError Bytes)
      (w w' : S)
      → All (Admits (Says parse n (status_members t)) marshal envelope) es
      → run marshal envelope es new_protocol ≡ some s
      → (s.calls n).stage ≡ returned r
      → HasCounters t
      → call (codes "bramble.getStatus") none w ≡ (r, w')
      → IsRead t r w' (status call (unmarshal parse status_response_json) w)
  unfolding status status_response_json text_codec bool_codec int_codec_of
  status-IsRead es s n t r w w' a h stage (p, b, c, d, e, u) asked =
      query-IsRead status_response_json (codes "bramble.getStatus") (codes "StatusResponse")
        (status_members t) es s n t r w w' (status_written t t.supports_delivery_event_sync refl)
        (tt, (tt, (tt, (tt, (tt, (p, (b, (c, (d, (e, (u, (tt, tt)))))))))))) a h stage asked

  -- However calls, their responses and notifications interleave: if the node answers the id of
  -- call `n` with the members of the version `t` only, then `Version`, where its call of
  -- `bramble.getVersion` is call `n`, returns `t`, or an error that does not come from the node.
  pub version-IsRead :
      (es : List (Event P)) (s : State) (n : ℕ) (t : VersionResponse) (r : Result CallError Bytes)
      (w w' : S)
      → All (Admits (Says parse n (version_members t)) marshal envelope) es
      → run marshal envelope es new_protocol ≡ some s
      → (s.calls n).stage ≡ returned r
      → call (codes "bramble.getVersion") none w ≡ (r, w')
      → IsRead t r w' (version call (unmarshal parse version_response_json) w)
  unfolding version version_response_json text_codec bool_codec
  version-IsRead es s n t r w w' a h stage asked =
      query-IsRead version_response_json (codes "bramble.getVersion") (codes "VersionResponse")
        (version_members t) es s n t r w w' (version_written t t.supports_delivery_event_sync refl)
        (tt, (tt, (tt, (tt, tt)))) a h stage asked
