-- ===== src/Client/Queries.antt =====
-- client.go: the methods that read the node's state. Each takes the reading of its response type.
use bramble_go.Prelude.{
  ℕ, Bool, true, false, List, [], ◌∷◌, Option, none, some, Bytes, codes, pos, Result, ok, err, ltb,
  if◌then◌else◌,
}
use bramble_go.Protocol.{CallError}
use bramble_go.Client.{
  Value, int, bool, Params, Error, decode_failed, pong_false, Api, done, ◌>>=◌, invoke, query,
  query_in,
}

module _ {F S : Type 0} (call : Bytes → Params F → S → Result CallError Bytes × S) where
  unfoldable pub status : {T : Type 0} → (Bytes → Option T) → Api S T
  status = query call (codes "bramble.getStatus") none (codes "StatusResponse")

  pub wifi_status : {T : Type 0} → (Bytes → Option T) → Api S T
  wifi_status =
      query_in call (codes "get wifi status") (codes "bramble.getWifiStatus") none
        (codes "WifiStatus")

  pub ble_security : {T : Type 0} → (Bytes → Option T) → Api S T
  ble_security =
      query_in call (codes "get ble security") (codes "bramble.getBleSecurity") none
        (codes "BleSecurity")

  pub battery : {T : Type 0} → (Bytes → Option T) → Api S T
  battery =
      query_in call (codes "get battery") (codes "bramble.getBattery") none (codes "BatteryStatus")

  pub gps_position : {T : Type 0} → (Bytes → Option T) → Api S T
  gps_position =
      query_in call (codes "get gps position") (codes "bramble.getGpsPosition") none
        (codes "GPSPosition")

  pub beacon_policy : {T : Type 0} → (Bytes → Option T) → Api S T
  beacon_policy =
      query_in call (codes "get beacon policy") (codes "bramble.getBeaconPolicy") none
        (codes "BeaconPolicyResponse")

  pub audio_status : {T : Type 0} → (Bytes → Option T) → Api S T
  audio_status =
      query_in call (codes "get audio status") (codes "bramble.getAudioStatus") none
        (codes "AudioStatus")

  pub storage_info : {T : Type 0} → (Bytes → Option T) → Api S T
  storage_info =
      query_in call (codes "get storage info") (codes "bramble.getStorageInfo") none
        (codes "StorageInfo")

  pub identity : {T : Type 0} → (Bytes → Option T) → Api S T
  identity = query call (codes "bramble.getIdentity") none (codes "IdentityResponse")

  pub network_key_status : {T : Type 0} → (Bytes → Option T) → Api S T
  network_key_status =
      query call (codes "bramble.getNetworkKeyStatus") none (codes "NetworkKeyStatusResponse")

  pub generate_network_key : {T : Type 0} → (Bytes → Option T) → Api S T
  generate_network_key =
      query call (codes "bramble.generateNetworkKey") none (codes "GenerateNetworkKeyResponse")

  pub anchor_status : {T : Type 0} → (Bytes → Option T) → Api S T
  anchor_status = query call (codes "bramble.getAnchorStatus") none (codes "AnchorStatusResponse")

  unfoldable pub version : {T : Type 0} → (Bytes → Option T) → Api S T
  version = query call (codes "bramble.getVersion") none (codes "VersionResponse")

  pub roll_call : {T : Type 0} → (Bytes → Option T) → Api S T
  roll_call = query call (codes "bramble.getRollCall") none (codes "RollCallLedger")

  pub export_topology : {T : Type 0} → (Bytes → Option T) → Api S T
  export_topology = query call (codes "bramble.exportTopology") none (codes "TopologyExport")

  pub config : {T : Type 0} → (Bytes → Option T) → Api S T
  config = query call (codes "bramble.getConfig") none (codes "ConfigResponse")

  pub dm_sessions : {T : Type 0} → (Bytes → Option T) → Api S T
  dm_sessions = query call (codes "bramble.getDmSessions") none (codes "DmSessionsResponse")

  pub traffic_debug : {T : Type 0} → (Bytes → Option T) → Api S T
  traffic_debug = query call (codes "bramble.getTrafficDebug") none (codes "TrafficDebugResponse")

  pub neighbors : {T : Type 0} → (Bytes → Option (List T)) → Api S (List T)
  neighbors = query call (codes "bramble.getNeighbors") none (codes "NeighborsResponse")

  pub routes : {T : Type 0} → (Bytes → Option (List T)) → Api S (List T)
  routes = query call (codes "bramble.getRoutes") none (codes "RoutesResponse")

  pub messages : {T : Type 0} → (Bytes → Option (List T)) → Api S (List T)
  messages = query call (codes "bramble.getMessages") none (codes "MessagesResponse")

  pub peer_locations : {T : Type 0} → (Bytes → Option (List T)) → Api S (List T)
  peer_locations =
      query call (codes "bramble.getPeerLocations") none (codes "PeerLocationsResponse")

  pub diagnostics : {T : Type 0} → (Bytes → Option T) → Bool → Api S T
  diagnostics unmarshal include_heap_dump =
      query_in call (codes "get diagnostics") (codes "bramble.getDiagnostics")
        (some (if include_heap_dump then (codes "include_heap_dump", bool true) ∷ [] else []))
        (codes "DiagnosticsResponse") unmarshal

  -- `since_event_seq` and `limit` are uint32.
  pub delivery_events : {T : Type 0} → (Bytes → Option T) → ℕ → ℕ → Api S T
  delivery_events unmarshal since_event_seq limit =
      query call (codes "bramble.getDeliveryEvents")
        (some (
          (codes "since_event_seq", int (pos since_event_seq))
          ∷ (if ltb 0 limit then (codes "limit", int (pos limit)) ∷ [] else [])))
        (codes "DeliveryReplayResponse") unmarshal

  -- the members of `TrafficEventsParams`
  pub traffic_events : {T : Type 0} → (Bytes → Option T) → List (Bytes × Value F) → Api S T
  traffic_events unmarshal params =
      query call (codes "bramble.getTrafficEvents") (some params) (codes "TrafficEventsResponse")
        unmarshal

  ping_answer : Option Bool → Result Error (Unit {0})
  ping_answer none = err (decode_failed (codes "PingResponse"))
  ping_answer (some true) = ok tt
  ping_answer (some false) = err pong_false

  -- `read_pong` reads the member `pong`.
  pub ping : (Bytes → Option Bool) → Api S (Unit {0})
  unfolding ping_answer
  ping read_pong = do
    raw ← invoke call (codes "bramble.ping") none
    done (ping_answer (read_pong raw))

  pub auth_token : (Bytes → Option Bytes) → Api S Bytes
  auth_token = query call (codes "bramble.getAuthToken") none (codes "getAuthToken")
