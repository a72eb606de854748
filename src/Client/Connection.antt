-- ===== src/Client/Connection.antt =====
-- client.go: `NewClient`, `Connect` and `Close`. The transport is what it does to a state `S`, in
-- which the protocol and the notification loop run as well.
pub mod Compatible
use bramble_go.Prelude.{
  Bool, true, false, List, [], ◌∷◌, Option, none, some, Bytes, Result, ok, err, if◌then◌else◌,
}
use bramble_go.Protocol.{CallError}
use bramble_go.Version.{is_compatible}
use bramble_go.Client.{Params, Error}
use bramble_go.Client.Queries.{version}
use bramble_go.Client.Notify.{Kind, peer_location, identity_change, Handlers, register}

pub record VersionResponse : Type 0 where
  pub firmware_version : Bytes
  pub protocol_version : Bytes
  pub hardware : Bytes
  pub supports_delivery_event_sync : Bool

-- `proto` is whether the client has a protocol.
pub record Client (H D : Type 0) : Type 0 where
  pub handlers : Handlers H D
  pub proto : Bool

-- `ClientOption`
abbrev pub ClientOption : Type 0 → Type 0 → Type 0
ClientOption H D = Client H D → Client H D

module _ {H D : Type 0} where
  abbrev pub with_on_peer_location : Option H → ClientOption H D
  with_on_peer_location h c = record c { handlers = register peer_location h c.handlers }

  abbrev pub with_on_identity_change : Option H → ClientOption H D
  with_on_identity_change h c = record c { handlers = register identity_change h c.handlers }

  abbrev apply_options : List (ClientOption H D) → Client H D → Client H D
  apply_options [] c = c
  apply_options (opt ∷ opts) c = apply_options opts (opt c)

  unfoldable pub new_client : List (ClientOption H D) → Client H D
  new_client opts =
      apply_options opts
        (record { handlers = record { on = λ k. none; on_decode_error = none }; proto = false })

-- What `Connect` returns where it returns an error.
pub data ConnectError : Type 0 where
  connect_failed : Bytes → ConnectError
  version_check : Error → ConnectError
  incompatible : Bytes → ConnectError

-- `start` is `NewProtocol` with its `Start` and the `go` of the notification loop, `stop` is
-- `Protocol.Stop`, and the other two are the transport's own.
pub record Lifecycle (S : Type 0) : Type 0 where
  pub connect_transport : S → Result Bytes (Unit {0}) × S
  pub close_transport : S → Result Bytes (Unit {0}) × S
  pub start : S → S
  pub stop : S → S

module _ {F S H D : Type 0} (call : Bytes → Params F → S → Result CallError Bytes × S)
    (unmarshal : Bytes → Option VersionResponse) (life : Lifecycle S) where
  open life use {connect_transport, close_transport, start, stop}

  unfoldable pub version_checked :
      Client H D
      → Result Error VersionResponse × S
      → Result ConnectError (Unit {0}) × (Client H D × S)
  version_checked c (err e, s) = (err (version_check e), (c, s))
  version_checked c (ok v, s) =
      if is_compatible v.protocol_version
      then (ok tt, (c, s))
      else (err (incompatible v.protocol_version), (c, s))

  unfoldable pub transport_connected :
      Client H D → Result Bytes (Unit {0}) × S → Result ConnectError (Unit {0}) × (Client H D × S)
  unfolding version_checked
  transport_connected c (err e, s) = (err (connect_failed e), (c, s))
  transport_connected c (ok u, s) =
      version_checked (record c { proto = true }) (version call unmarshal (start s))

  unfoldable pub connect : Client H D → S → Result ConnectError (Unit {0}) × (Client H D × S)
  unfolding transport_connected
  connect c s = transport_connected c (connect_transport s)

  unfoldable pub close : Client H D → S → Result Bytes (Unit {0}) × S
  close c s = if c.proto then close_transport (stop s) else close_transport s
