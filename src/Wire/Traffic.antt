-- ===== src/Wire/Traffic.antt =====
-- types.go: the traffic log.
use bramble_go.Prelude.{refl, Bool, false, List, [], ◌∷◌, Option, none, Bytes, codes, ℤ, pos}
use bramble_go.Text.{equal}
use bramble_go.Json.{text_codec, bool_codec, int_codec, uint32_codec, int_codec_of}
use bramble_go.Json.Compound.{pointer_codec, slice_codec}
use bramble_go.Json.Struct.{required, omitempty, pick, decode_member}
use bramble_go.Json.Laws.{◌⊗◌, Struct, struct_codec}

pub record SetTrafficDebugParams : Type 0 where
  pub enabled : Option Bool
  pub include_tx : Option Bool
  pub include_rx : Option Bool
  pub sample_rate : Option ℤ

unfoldable pub set_traffic_debug_params_json : {F : Type 0} → Struct F SetTrafficDebugParams
unfolding pick equal decode_member bool_codec int_codec_of pointer_codec
set_traffic_debug_params_json = record {
  fields =
      omitempty (pointer_codec bool_codec) (codes "enabled") (λ t. t.enabled)
        (λ a t. record t { enabled = a })
      ∷ omitempty (pointer_codec bool_codec) (codes "include_tx") (λ t. t.include_tx)
          (λ a t. record t { include_tx = a })
      ∷ omitempty (pointer_codec bool_codec) (codes "include_rx") (λ t. t.include_rx)
          (λ a t. record t { include_rx = a })
      ∷ omitempty (pointer_codec int_codec) (codes "sample_rate") (λ t. t.sample_rate)
          (λ a t. record t { sample_rate = a })
      ∷ [];
  zero = record { enabled = none; include_tx = none; include_rx = none; sample_rate = none };
  makes = λ t.
      ((λ j u. refl), refl, refl)
      ⊗ ((λ j u. refl), refl, refl)
      ⊗ ((λ j u. refl), refl, refl)
      ⊗ ((λ j u. refl), refl, refl)
      ⊗ refl;
}

pub record SetTrafficDebugResponse : Type 0 where
  pub is_ok : Bool
  pub enabled : Bool
  pub include_tx : Bool
  pub include_rx : Bool
  pub sample_rate : ℤ

unfoldable pub set_traffic_debug_response_json : {F : Type 0} → Struct F SetTrafficDebugResponse
unfolding pick equal decode_member bool_codec int_codec_of
set_traffic_debug_response_json = record {
  fields =
      required bool_codec (codes "ok") (λ t. t.is_ok) (λ a t. record t { is_ok = a })
      ∷ required bool_codec (codes "enabled") (λ t. t.enabled) (λ a t. record t { enabled = a })
      ∷ required bool_codec (codes "include_tx") (λ t. t.include_tx)
          (λ a t. record t { include_tx = a })
      ∷ required bool_codec (codes "include_rx") (λ t. t.include_rx)
          (λ a t. record t { include_rx = a })
      ∷ required int_codec (codes "sample_rate") (λ t. t.sample_rate)
          (λ a t. record t { sample_rate = a })
      ∷ [];
  zero = record {
    is_ok = false;
    enabled = false;
    include_tx = false;
    include_rx = false;
    sample_rate = pos 0;
  };
  makes = λ t.
      ((λ j u. refl), refl, refl)
      ⊗ ((λ j u. refl), refl, refl)
      ⊗ ((λ j u. refl), refl, refl)
      ⊗ ((λ j u. refl), refl, refl)
      ⊗ ((λ j u. refl), refl, refl)
      ⊗ refl;
}

pub record TrafficDebugResponse : Type 0 where
  pub enabled : Bool
  pub include_tx : Bool
  pub include_rx : Bool
  pub sample_rate : ℤ
  pub buffer_capacity : ℤ
  pub buffer_count : ℤ
  pub dropped_count : ℤ

unfoldable pub traffic_debug_response_json : {F : Type 0} → Struct F TrafficDebugResponse
unfolding pick equal decode_member bool_codec int_codec_of
traffic_debug_response_json = record {
  fields =
      required bool_codec (codes "enabled") (λ t. t.enabled) (λ a t. record t { enabled = a })
      ∷ required bool_codec (codes "include_tx") (λ t. t.include_tx)
          (λ a t. record t { include_tx = a })
      ∷ required bool_codec (codes "include_rx") (λ t. t.include_rx)
          (λ a t. record t { include_rx = a })
      ∷ required int_codec (codes "sample_rate") (λ t. t.sample_rate)
          (λ a t. record t { sample_rate = a })
      ∷ required int_codec (codes "buffer_capacity") (λ t. t.buffer_capacity)
          (λ a t. record t { buffer_capacity = a })
      ∷ required int_codec (codes "buffer_count") (λ t. t.buffer_count)
          (λ a t. record t { buffer_count = a })
      ∷ required int_codec (codes "dropped_count") (λ t. t.dropped_count)
          (λ a t. record t { dropped_count = a })
      ∷ [];
  zero = record {
    enabled = false;
    include_tx = false;
    include_rx = false;
    sample_rate = pos 0;
    buffer_capacity = pos 0;
    buffer_count = pos 0;
    dropped_count = pos 0;
  };
  makes = λ t.
      ((λ j u. refl), refl, refl)
      ⊗ ((λ j u. refl), refl, refl)
      ⊗ ((λ j u. refl), refl, refl)
      ⊗ ((λ j u. refl), refl, refl)
      ⊗ ((λ j u. refl), refl, refl)
      ⊗ ((λ j u. refl), refl, refl)
      ⊗ ((λ j u. refl), refl, refl)
      ⊗ refl;
}

pub record TrafficEventsParams : Type 0 where
  pub since_seq : Option ℤ
  pub limit : Option ℤ

unfoldable pub traffic_events_params_json : {F : Type 0} → Struct F TrafficEventsParams
unfolding pick equal decode_member int_codec_of pointer_codec
traffic_events_params_json = record {
  fields =
      omitempty (pointer_codec uint32_codec) (codes "since_seq") (λ t. t.since_seq)
        (λ a t. record t { since_seq = a })
      ∷ omitempty (pointer_codec int_codec) (codes "limit") (λ t. t.limit)
          (λ a t. record t { limit = a })
      ∷ [];
  zero = record { since_seq = none; limit = none };
  makes = λ t. ((λ j u. refl), refl, refl) ⊗ ((λ j u. refl), refl, refl) ⊗ refl;
}

pub record TrafficEvent : Type 0 where
  pub seq : ℤ
  pub timestamp_ms : ℤ
  pub pkt_type : ℤ
  pub category : Bytes
  pub airtime_tier : Bytes
  pub packet_len : ℤ
  pub rssi : ℤ
  pub is_tx : Bool
  pub src_addr : Bytes

unfoldable pub traffic_event_json : {F : Type 0} → Struct F TrafficEvent
unfolding pick equal decode_member bool_codec int_codec_of text_codec
traffic_event_json = record {
  fields =
      required uint32_codec (codes "seq") (λ t. t.seq) (λ a t. record t { seq = a })
      ∷ required uint32_codec (codes "timestamp_ms") (λ t. t.timestamp_ms)
          (λ a t. record t { timestamp_ms = a })
      ∷ required int_codec (codes "pkt_type") (λ t. t.pkt_type) (λ a t. record t { pkt_type = a })
      ∷ required text_codec (codes "category") (λ t. t.category) (λ a t. record t { category = a })
      ∷ required text_codec (codes "airtime_tier") (λ t. t.airtime_tier)
          (λ a t. record t { airtime_tier = a })
      ∷ required int_codec (codes "packet_len") (λ t. t.packet_len)
          (λ a t. record t { packet_len = a })
      ∷ required int_codec (codes "rssi") (λ t. t.rssi) (λ a t. record t { rssi = a })
      ∷ required bool_codec (codes "is_tx") (λ t. t.is_tx) (λ a t. record t { is_tx = a })
      ∷ omitempty text_codec (codes "src_addr") (λ t. t.src_addr) (λ a t. record t { src_addr = a })
      ∷ [];
  zero = record {
    seq = pos 0;
    timestamp_ms = pos 0;
    pkt_type = pos 0;
    category = [];
    airtime_tier = [];
    packet_len = pos 0;
    rssi = pos 0;
    is_tx = false;
    src_addr = [];
  };
  makes = λ t.
      ((λ j u. refl), refl, refl)
      ⊗ ((λ j u. refl), refl, refl)
      ⊗ ((λ j u. refl), refl, refl)
      ⊗ ((λ j u. refl), refl, refl)
      ⊗ ((λ j u. refl), refl, refl)
      ⊗ ((λ j u. refl), refl, refl)
      ⊗ ((λ j u. refl), refl, refl)
      ⊗ ((λ j u. refl), refl, refl)
      ⊗ ((λ j u. refl), refl, refl)
      ⊗ refl;
}

pub record TrafficEventsResponse : Type 0 where
  pub events : List TrafficEvent
  pub returned : ℤ
  pub total_available : ℤ

unfoldable pub traffic_events_response_json : {F : Type 0} → Struct F TrafficEventsResponse
unfolding pick equal decode_member int_codec_of slice_codec struct_codec
traffic_events_response_json = record {
  fields =
      required (slice_codec (struct_codec traffic_event_json)) (codes "events") (λ t. t.events)
        (λ a t. record t { events = a })
      ∷ required int_codec (codes "returned") (λ t. t.returned) (λ a t. record t { returned = a })
      ∷ required int_codec (codes "total_available") (λ t. t.total_available)
          (λ a t. record t { total_available = a })
      ∷ [];
  zero = record { events = []; returned = pos 0; total_available = pos 0 };
  makes = λ t.
      ((λ j u. refl), refl, refl)
      ⊗ ((λ j u. refl), refl, refl)
      ⊗ ((λ j u. refl), refl, refl)
      ⊗ refl;
}
