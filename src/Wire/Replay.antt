-- ===== src/Wire/Replay.antt =====
-- types.go: the replay of delivery events, and the result of a probe's start. `V` is what
-- encoding/json makes of a value of type `any`, with its codec as a parameter.
use bramble_go.Prelude.{refl, List, [], ◌∷◌, Bytes, codes, ℤ, pos}
use bramble_go.Text.{equal}
use bramble_go.Client.Messages.{SendProbeResult}
use bramble_go.Json.{Codec, text_codec, bool_codec, int_codec, uint32_codec, int_codec_of}
use bramble_go.Json.Compound.{slice_codec}
use bramble_go.Json.Map.{map_codec}
use bramble_go.Json.Struct.{Field, required, omitempty, pick, decode_member}
use bramble_go.Json.Laws.{◌⊗◌, Struct, struct_codec}

pub record DeliveryReplayEvent (V : Type 0) : Type 0 where
  pub event_seq : ℤ
  pub event_id : Bytes
  pub event_type : Bytes
  pub packet_id : Bytes
  pub broadcast_id : Bytes
  pub timestamp_ms : ℤ
  pub payload : List (Bytes × V)

unfoldable pub delivery_replay_event_json :
    {F V : Type 0} → Codec F V → Struct F (DeliveryReplayEvent V)
unfolding pick equal decode_member int_codec_of text_codec map_codec
delivery_replay_event_json any = record {
  fields =
      required uint32_codec (codes "event_seq") (λ t. t.event_seq)
        (λ a t. record t { event_seq = a })
      ∷ omitempty text_codec (codes "event_id") (λ t. t.event_id) (λ a t. record t { event_id = a })
      ∷ required text_codec (codes "event_type") (λ t. t.event_type)
          (λ a t. record t { event_type = a })
      ∷ omitempty text_codec (codes "packet_id") (λ t. t.packet_id)
          (λ a t. record t { packet_id = a })
      ∷ omitempty text_codec (codes "broadcast_id") (λ t. t.broadcast_id)
          (λ a t. record t { broadcast_id = a })
      ∷ required int_codec (codes "timestamp_ms") (λ t. t.timestamp_ms)
          (λ a t. record t { timestamp_ms = a })
      ∷ omitempty (map_codec any) (codes "payload") (λ t. t.payload)
          (λ a t. record t { payload = a })
      ∷ [];
  zero = record {
    event_seq = pos 0;
    event_id = [];
    event_type = [];
    packet_id = [];
    broadcast_id = [];
    timestamp_ms = pos 0;
    payload = [];
  };
  makes = λ t.
      ((λ j u. refl), refl, refl)
      ⊗ ((λ j u. refl), refl, refl)
      ⊗ ((λ j u. refl), refl, refl)
      ⊗ ((λ j u. refl), refl, refl)
      ⊗ ((λ j u. refl), refl, refl)
      ⊗ ((λ j u. refl), refl, refl)
      ⊗ ((λ j u. refl), refl, refl)
      ⊗ refl;
}

pub record DeliveryReplayResponse (V : Type 0) : Type 0 where
  pub events : List (DeliveryReplayEvent V)
  pub latest_event_seq : ℤ

unfoldable pub delivery_replay_response_json :
    {F V : Type 0} → Codec F V → Struct F (DeliveryReplayResponse V)
unfolding pick equal decode_member int_codec_of slice_codec struct_codec
delivery_replay_response_json any = record {
  fields =
      required (slice_codec (struct_codec (delivery_replay_event_json any))) (codes "events")
        (λ t. t.events) (λ a t. record t { events = a })
      ∷ required uint32_codec (codes "latest_event_seq") (λ t. t.latest_event_seq)
          (λ a t. record t { latest_event_seq = a })
      ∷ [];
  zero = record { events = []; latest_event_seq = pos 0 };
  makes = λ t. ((λ j u. refl), refl, refl) ⊗ ((λ j u. refl), refl, refl) ⊗ refl;
}

-- `SendProbeResult`, whose field `ProbeID` is no member
unfoldable pub send_probe_result_fields : {F : Type 0} → List (Field F SendProbeResult)
send_probe_result_fields =
    omitempty text_codec (codes "probe_id") (λ t. t.probe_id_hex)
      (λ a t. record t { probe_id_hex = a })
    ∷ omitempty int_codec (codes "ack_window") (λ t. t.ack_window)
        (λ a t. record t { ack_window = a })
    ∷ omitempty bool_codec (codes "ok") (λ t. t.ok_flag) (λ a t. record t { ok_flag = a })
    ∷ []
