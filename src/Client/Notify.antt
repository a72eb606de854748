-- ===== src/Client/Notify.antt =====
-- client.go: the notification loop. A callback is a value of `H`, a decoded event one of `V`; what
-- the loop does for a notification is the list of its effects.
pub mod Delivery
use bramble_go.Prelude.{ℕ, List, [], ◌∷◌, Option, none, some, Bytes, codes, take, if◌then◌else◌}
use mathlib.Core.Logic.{ite}
use bramble_go.Text.{equal}
use bramble_go.Protocol.{Notification}

-- The callbacks of `Client`, by the notification that they are for.
pub data Kind : Type 0 where
  message ack neighbor_change traffic_event : Kind
  broadcast_delivery wifi_event gps_event location_event : Kind
  probe_result probe_complete peer_location identity_change : Kind
  roll_call roll_call_response roll_call_complete : Kind

pub Kind-discrete : Discrete Kind
Kind-discrete = hlevel

-- the cases of the `switch`
abbrev pub methods : List (Bytes × Kind)
methods =
    (codes "bramble.onMessage", message)
    ∷ (codes "bramble.onAck", ack)
    ∷ (codes "bramble.onNeighborChange", neighbor_change)
    ∷ (codes "bramble.onTrafficEvent", traffic_event)
    ∷ (codes "bramble.onBroadcastDelivery", broadcast_delivery)
    ∷ (codes "bramble.onWifiEvent", wifi_event)
    ∷ (codes "bramble.onGpsEvent", gps_event)
    ∷ (codes "bramble.onLocationEvent", location_event)
    ∷ (codes "bramble.onProbeResult", probe_result)
    ∷ (codes "bramble.onProbeComplete", probe_complete)
    ∷ (codes "bramble.onPeerLocation", peer_location)
    ∷ (codes "bramble.onIdentityChange", identity_change)
    ∷ (codes "bramble.onRollCall", roll_call)
    ∷ (codes "bramble.onRollCallResponse", roll_call_response)
    ∷ (codes "bramble.onRollCallComplete", roll_call_complete)
    ∷ []

pub kind_in : Bytes → List (Bytes × Kind) → Option Kind
kind_in m [] = none
kind_in m ((name, k) ∷ rest) = if equal m name then some k else kind_in m rest

-- The callbacks that are registered: `on` for the events, and that of `OnDecodeError`.
pub record Handlers (H D : Type 0) : Type 0 where
  pub on : Kind → Option H
  pub on_decode_error : Option D

pub data Effect (H D V : Type 0) : Type 0 where
  -- a call of a callback, with its event or with none
  invoke : H → Option V → Effect H D V
  -- `slog.Warn` with the method and the start of the payload
  warn : Bytes → Bytes → Effect H D V
  -- a call of the decode-error callback
  report : D → Bytes → Bytes → Effect H D V

abbrev pub notify_decode_payload_limit : ℕ
notify_decode_payload_limit = 512

module _ {H D : Type 0} where
  -- `OnMessage` and the other registrations
  pub register : Kind → Option H → Handlers H D → Handlers H D
  unfolding Kind-discrete
  register k fn c = record c { on = λ j. ite (Kind-discrete j k) fn (c.on j) }

  pub on_decode_error : Option D → Handlers H D → Handlers H D
  on_decode_error fn c = record c { on_decode_error = fn }

module _ {H D V : Type 0} (unmarshal : Kind → Bytes → Option V) where
  reports : Option D → Bytes → Bytes → List (Effect H D V)
  reports none method snippet = []
  reports (some d) method snippet = report d method snippet ∷ []

  -- `notifyDecode`, and the callback behind it
  notify_decode : H → Option D → Notification → Option V → List (Effect H D V)
  unfolding reports
  notify_decode f on_err n (some v) = invoke f (some v) ∷ []
  notify_decode f on_err n none =
      let snippet = take notify_decode_payload_limit n.params in
      warn n.method snippet ∷ reports on_err n.method snippet

  -- a case of the `switch`, with the callback that it reads
  handle : Kind → Option H → Option D → Notification → List (Effect H D V)
  unfolding notify_decode
  handle k none on_err n = []
  handle neighbor_change (some f) on_err n = invoke f none ∷ []
  handle peer_location (some f) on_err n = invoke f none ∷ []
  handle k (some f) on_err n = notify_decode f on_err n (unmarshal k n.params)

  dispatch : Handlers H D → Notification → Option Kind → List (Effect H D V)
  unfolding handle
  dispatch c n none = []
  dispatch c n (some k) = handle k (c.on k) c.on_decode_error n

  -- a round of `notifyLoop`
  pub notify_round : Handlers H D → Notification → List (Effect H D V)
  unfolding dispatch kind_in
  notify_round c n = dispatch c n (kind_in n.method methods)
