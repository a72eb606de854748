-- ===== src/Client/Notify/Delivery.antt =====
-- client.go: which callback a notification reaches.
use mathlib.Core.Logic.{if_pos, if_neg}
use bramble_go.Prelude.{
  take, List, ◌≡◌, ◌≢◌, refl, ap, ◌∙◌, List, [], ◌∷◌, Option, none, some, Bytes, codes, take, All,
  arith,
}
use bramble_go.Text.{equal}
use bramble_go.Text.Laws.{equal_sound}
use bramble_go.Protocol.{Notification}
use bramble_go.Client.Notify.{
  Kind, message, ack, neighbor_change, traffic_event, broadcast_delivery, wifi_event, gps_event,
  location_event, probe_result, probe_complete, peer_location, identity_change, roll_call,
  roll_call_response, roll_call_complete, Kind-discrete, methods, kind_in, Handlers, Effect, invoke,
  warn, report, register, notify_round, notify_decode, handle, dispatch, reports,
}

-- the name under which the node sends a notification
abbrev pub method_of : Kind → Bytes
method_of message = codes "bramble.onMessage"
method_of ack = codes "bramble.onAck"
method_of neighbor_change = codes "bramble.onNeighborChange"
method_of traffic_event = codes "bramble.onTrafficEvent"
method_of broadcast_delivery = codes "bramble.onBroadcastDelivery"
method_of wifi_event = codes "bramble.onWifiEvent"
method_of gps_event = codes "bramble.onGpsEvent"
method_of location_event = codes "bramble.onLocationEvent"
method_of probe_result = codes "bramble.onProbeResult"
method_of probe_complete = codes "bramble.onProbeComplete"
method_of peer_location = codes "bramble.onPeerLocation"
method_of identity_change = codes "bramble.onIdentityChange"
method_of roll_call = codes "bramble.onRollCall"
method_of roll_call_response = codes "bramble.onRollCallResponse"
method_of roll_call_complete = codes "bramble.onRollCallComplete"

-- The two notifications whose callback gets no decoded payload.
abbrev pub HasPayload : Kind → Type 0
HasPayload k = (k ≢ neighbor_change) × (k ≢ peer_location)

kind_in-method_of : (k : Kind) → kind_in (method_of k) methods ≡ some k
unfolding kind_in equal
kind_in-method_of message = refl
kind_in-method_of ack = refl
kind_in-method_of neighbor_change = refl
kind_in-method_of traffic_event = refl
kind_in-method_of broadcast_delivery = refl
kind_in-method_of wifi_event = refl
kind_in-method_of gps_event = refl
kind_in-method_of location_event = refl
kind_in-method_of probe_result = refl
kind_in-method_of probe_complete = refl
kind_in-method_of peer_location = refl
kind_in-method_of identity_change = refl
kind_in-method_of roll_call = refl
kind_in-method_of roll_call_response = refl
kind_in-method_of roll_call_complete = refl

kind_in_sound :
    (m : Bytes) (k : Kind) (table : List (Bytes × Kind))
    → All (λ p. p.0 ≡ method_of p.1) table
    → kind_in m table ≡ some k
    → m ≡ method_of k
unfolding kind_in
kind_in_sound m k [] h e = cc
kind_in_sound m k ((name, j) ∷ rest) (h, hs) e =
    ground (arith, equal_sound m name, kind_in_sound m k rest hs)

module _ {H D V : Type 0} where
  -- A warning, and a call of the decode-error callback if there is one: each has the method and the
  -- first 512 bytes of the payload.
  abbrev pub diagnosis : Option D → Notification → List (Effect H D V)
  diagnosis none n = warn n.method (take 512 n.params) ∷ []
  diagnosis (some d) n =
      warn n.method (take 512 n.params) ∷ report d n.method (take 512 n.params) ∷ []

module _ {H D V : Type 0} (unmarshal : Kind → Bytes → Option V) where
  on-register : (k : Kind) (fn : Option H) (c : Handlers H D) → (register k fn c).on k ≡ fn
  unfolding register
  on-register k fn c = if_pos (Kind-discrete k k) refl fn (c.on k)

  on-register_other :
      (k j : Kind) (fn : Option H) (c : Handlers H D) → j ≢ k → (register k fn c).on j ≡ c.on j
  unfolding register
  on-register_other k j fn c d = if_neg (Kind-discrete j k) d fn (c.on j)

  handle_payload :
      (k : Kind) (f : H) (d : Option D) (n : Notification)
      → HasPayload k
      → handle unmarshal k (some f) d n ≡ notify_decode unmarshal f d n (unmarshal k n.params)
  unfolding handle
  handle_payload message f d n h = refl
  handle_payload ack f d n h = refl
  handle_payload neighbor_change f d n h = absurd (h.0 refl)
  handle_payload traffic_event f d n h = refl
  handle_payload broadcast_delivery f d n h = refl
  handle_payload wifi_event f d n h = refl
  handle_payload gps_event f d n h = refl
  handle_payload location_event f d n h = refl
  handle_payload probe_result f d n h = refl
  handle_payload probe_complete f d n h = refl
  handle_payload peer_location f d n h = absurd (h.1 refl)
  handle_payload identity_change f d n h = refl
  handle_payload roll_call f d n h = refl
  handle_payload roll_call_response f d n h = refl
  handle_payload roll_call_complete f d n h = refl

  -- The node's notification of kind `k` with a payload that decodes calls the callback that was
  -- registered last for `k`, once, with the decoded event, and does nothing else.
  pub register-notify_round :
      (k : Kind) (f : H) (c : Handlers H D) (n : Notification) (v : V)
      → HasPayload k
      → n.method ≡ method_of k
      → unmarshal k n.params ≡ some v
      → notify_round unmarshal (register k (some f) c) n ≡ invoke f (some v) ∷ []
  unfolding notify_round dispatch notify_decode register
  register-notify_round k f c n v p m u =
      ap (dispatch unmarshal (register k (some f) c) n)
        (ap (λ t. kind_in t methods) m ∙ kind_in-method_of k)
      ∙ ap (λ o. handle unmarshal k o c.on_decode_error n) (on-register k (some f) c)
      ∙ handle_payload k f c.on_decode_error n p
      ∙ ap (notify_decode unmarshal f c.on_decode_error n) u

  dispatch-register :
      (k : Kind) (fn : Option H) (c : Handlers H D) (n : Notification) (o : Option Kind)
      → o ≢ some k
      → dispatch unmarshal (register k fn c) n o ≡ dispatch unmarshal c n o
  unfolding dispatch register
  dispatch-register k fn c n none d = refl
  dispatch-register k fn c n (some j) d =
      ap (λ o. handle unmarshal j o c.on_decode_error n)
        (on-register_other k j fn c (λ e. d (ap some e)))

  notify_decode_failed :
      (f : H) (d : Option D) (n : Notification) → notify_decode unmarshal f d n none ≡ diagnosis d n
  unfolding notify_decode reports
  notify_decode_failed f none n = refl
  notify_decode_failed f (some d) n = refl

  -- A notification of kind `k` with a payload that does not decode, where a callback is registered
  -- for `k`, does not call it. It logs one warning, and calls the decode-error callback once if
  -- there is one, both with the notification's method and the first 512 bytes of the payload, and
  -- does nothing else.
  pub notify_round_failed :
      (k : Kind) (f : H) (c : Handlers H D) (n : Notification)
      → HasPayload k
      → c.on k ≡ some f
      → n.method ≡ method_of k
      → unmarshal k n.params ≡ none
      → notify_round unmarshal c n ≡ diagnosis c.on_decode_error n
  unfolding notify_round dispatch
  notify_round_failed k f c n p r m u =
      ap (dispatch unmarshal c n) (ap (λ t. kind_in t methods) m ∙ kind_in-method_of k)
      ∙ ap (λ o. handle unmarshal k o c.on_decode_error n) r
      ∙ handle_payload k f c.on_decode_error n p
      ∙ ap (notify_decode unmarshal f c.on_decode_error n) u
      ∙ notify_decode_failed f c.on_decode_error n
