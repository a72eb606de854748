-- ===== src/Wire/Messages.antt =====
-- types.go: messages and their delivery.
use bramble_go.Prelude.{refl, Bool, false, List, [], ◌∷◌, none, Bytes, codes, ℤ, pos}
use bramble_go.Text.{equal}
use bramble_go.Json.{text_codec, bool_codec, int_codec, int_codec_of}
use bramble_go.Json.Compound.{pointer_codec, slice_codec}
use bramble_go.Json.Struct.{required, omitempty, pick, decode_member}
use bramble_go.Json.Laws.{◌⊗◌, Struct, struct_codec}
use bramble_go.Client.Messages.{SendResult}

pub record Message : Type 0 where
  pub from : Bytes
  pub to : Bytes
  pub text : Bytes
  pub tier : Bytes
  pub timestamp : ℤ
  pub msg_id : Bytes
  pub status : Bytes
  pub broadcast : Bool
  pub channel : ℤ

unfoldable pub message_json : {F : Type 0} → Struct F Message
unfolding pick equal decode_member bool_codec int_codec_of text_codec
message_json = record {
  fields =
      required text_codec (codes "from") (λ t. t.from) (λ a t. record t { from = a })
      ∷ required text_codec (codes "to") (λ t. t.to) (λ a t. record t { to = a })
      ∷ required text_codec (codes "text") (λ t. t.text) (λ a t. record t { text = a })
      ∷ omitempty text_codec (codes "tier") (λ t. t.tier) (λ a t. record t { tier = a })
      ∷ required int_codec (codes "timestamp_s") (λ t. t.timestamp)
          (λ a t. record t { timestamp = a })
      ∷ omitempty text_codec (codes "msg_id") (λ t. t.msg_id) (λ a t. record t { msg_id = a })
      ∷ omitempty text_codec (codes "status") (λ t. t.status) (λ a t. record t { status = a })
      ∷ omitempty bool_codec (codes "broadcast") (λ t. t.broadcast)
          (λ a t. record t { broadcast = a })
      ∷ omitempty int_codec (codes "channel") (λ t. t.channel) (λ a t. record t { channel = a })
      ∷ [];
  zero = record {
    from = [];
    to = [];
    text = [];
    tier = [];
    timestamp = pos 0;
    msg_id = [];
    status = [];
    broadcast = false;
    channel = pos 0;
  };
  makes = λ t.
      ((λ j u. refl), refl, refl)
      ⊗ ((λ j u. refl), refl, refl)
      ⊗ ((λ j u. refl), refl, refl)
      ⊗ ((λ j u. refl), refl, refl)
      ⊗ ((λ j u. refl), refl, refl)
      ⊗ ((λ j u. refl), refl, refl)
      ⊗ ((λ j u. refl), refl, refl)
      ⊗ ((λ j u. refl), refl, refl)
      ⊗ ((λ j u. refl), refl, refl)
      ⊗ refl;
}

unfoldable pub send_result_json : {F : Type 0} → Struct F SendResult
unfolding pick equal decode_member bool_codec int_codec_of pointer_codec text_codec
send_result_json = record {
  fields =
      omitempty text_codec (codes "message_id") (λ t. t.message_id)
        (λ a t. record t { message_id = a })
      ∷ omitempty text_codec (codes "packet_id") (λ t. t.packet_id)
          (λ a t. record t { packet_id = a })
      ∷ omitempty text_codec (codes "broadcast_id") (λ t. t.broadcast_id)
          (λ a t. record t { broadcast_id = a })
      ∷ required text_codec (codes "status") (λ t. t.status) (λ a t. record t { status = a })
      ∷ omitempty bool_codec (codes "fragmented") (λ t. t.fragmented)
          (λ a t. record t { fragmented = a })
      ∷ omitempty int_codec (codes "fragments_total") (λ t. t.fragments_total)
          (λ a t. record t { fragments_total = a })
      ∷ omitempty int_codec (codes "max_bytes") (λ t. t.max_bytes)
          (λ a t. record t { max_bytes = a })
      ∷ omitempty int_codec (codes "actual_bytes") (λ t. t.actual_bytes)
          (λ a t. record t { actual_bytes = a })
      ∷ omitempty bool_codec (codes "broadcast") (λ t. t.broadcast)
          (λ a t. record t { broadcast = a })
      ∷ omitempty (pointer_codec int_codec) (codes "channel") (λ t. t.channel)
          (λ a t. record t { channel = a })
      ∷ [];
  zero = record {
    message_id = [];
    packet_id = [];
    broadcast_id = [];
    status = [];
    fragmented = false;
    fragments_total = pos 0;
    max_bytes = pos 0;
    actual_bytes = pos 0;
    broadcast = false;
    channel = none;
  };
  makes = λ t.
      ((λ j u. refl), refl, refl)
      ⊗ ((λ j u. refl), refl, refl)
      ⊗ ((λ j u. refl), refl, refl)
      ⊗ ((λ j u. refl), refl, refl)
      ⊗ ((λ j u. refl), refl, refl)
      ⊗ ((λ j u. refl), refl, refl)
      ⊗ ((λ j u. refl), refl, refl)
      ⊗ ((λ j u. refl), refl, refl)
      ⊗ ((λ j u. refl), refl, refl)
      ⊗ ((λ j u. refl), refl, refl)
      ⊗ refl;
}

pub record RelayHop : Type 0 where
  pub addr : Bytes
  pub rssi : ℤ

unfoldable pub relay_hop_json : {F : Type 0} → Struct F RelayHop
unfolding pick equal decode_member int_codec_of text_codec
relay_hop_json = record {
  fields =
      required text_codec (codes "addr") (λ t. t.addr) (λ a t. record t { addr = a })
      ∷ required int_codec (codes "rssi") (λ t. t.rssi) (λ a t. record t { rssi = a })
      ∷ [];
  zero = record { addr = []; rssi = pos 0 };
  makes = λ t. ((λ j u. refl), refl, refl) ⊗ ((λ j u. refl), refl, refl) ⊗ refl;
}

pub record Ack : Type 0 where
  pub from : Bytes
  pub packet_id : Bytes
  pub status : Bytes
  pub rssi_at_dest : ℤ
  pub relay_path : List RelayHop

unfoldable pub ack_json : {F : Type 0} → Struct F Ack
unfolding pick equal decode_member int_codec_of slice_codec struct_codec text_codec
ack_json = record {
  fields =
      omitempty text_codec (codes "from") (λ t. t.from) (λ a t. record t { from = a })
      ∷ required text_codec (codes "packet_id") (λ t. t.packet_id)
          (λ a t. record t { packet_id = a })
      ∷ required text_codec (codes "status") (λ t. t.status) (λ a t. record t { status = a })
      ∷ omitempty int_codec (codes "rssi_at_dest") (λ t. t.rssi_at_dest)
          (λ a t. record t { rssi_at_dest = a })
      ∷ omitempty (slice_codec (struct_codec relay_hop_json)) (codes "relay_path")
          (λ t. t.relay_path) (λ a t. record t { relay_path = a })
      ∷ [];
  zero = record { from = []; packet_id = []; status = []; rssi_at_dest = pos 0; relay_path = [] };
  makes = λ t.
      ((λ j u. refl), refl, refl)
      ⊗ ((λ j u. refl), refl, refl)
      ⊗ ((λ j u. refl), refl, refl)
      ⊗ ((λ j u. refl), refl, refl)
      ⊗ ((λ j u. refl), refl, refl)
      ⊗ refl;
}

pub record BroadcastDelivery : Type 0 where
  pub broadcast_id : Bytes
  pub recipient : Bytes
  pub status : Bytes
  pub timestamp_ms : ℤ

unfoldable pub broadcast_delivery_json : {F : Type 0} → Struct F BroadcastDelivery
unfolding pick equal decode_member int_codec_of text_codec
broadcast_delivery_json = record {
  fields =
      required text_codec (codes "broadcast_id") (λ t. t.broadcast_id)
        (λ a t. record t { broadcast_id = a })
      ∷ required text_codec (codes "recipient") (λ t. t.recipient)
          (λ a t. record t { recipient = a })
      ∷ required text_codec (codes "status") (λ t. t.status) (λ a t. record t { status = a })
      ∷ omitempty int_codec (codes "timestamp_ms") (λ t. t.timestamp_ms)
          (λ a t. record t { timestamp_ms = a })
      ∷ [];
  zero = record { broadcast_id = []; recipient = []; status = []; timestamp_ms = pos 0 };
  makes = λ t.
      ((λ j u. refl), refl, refl)
      ⊗ ((λ j u. refl), refl, refl)
      ⊗ ((λ j u. refl), refl, refl)
      ⊗ ((λ j u. refl), refl, refl)
      ⊗ refl;
}
