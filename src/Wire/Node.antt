-- ===== src/Wire/Node.antt =====
-- types.go: the node's state.
use bramble_go.Prelude.{refl, Bool, false, [], ◌∷◌, Bytes, codes, ℤ, pos}
use bramble_go.Text.{equal}
use bramble_go.Json.{text_codec, bool_codec, int_codec, int_codec_of}
use bramble_go.Json.Struct.{required, omitempty, pick, decode_member}
use bramble_go.Json.Laws.{◌⊗◌, Struct}
use bramble_go.Client.Connection.{VersionResponse}

pub record StatusResponse : Type 0 where
  pub address : Bytes
  pub firmware_version : Bytes
  pub protocol_version : Bytes
  pub hardware : Bytes
  pub radio_ok : Bool
  pub peers : ℤ
  pub beacon_tx : ℤ
  pub beacon_rx : ℤ
  pub packets_tx : ℤ
  pub packets_rx : ℤ
  pub uptime_sec : ℤ
  pub supports_delivery_event_sync : Bool

unfoldable pub status_response_json : {F : Type 0} → Struct F StatusResponse
unfolding pick equal decode_member bool_codec int_codec_of text_codec
status_response_json = record {
  fields =
      required text_codec (codes "address") (λ t. t.address) (λ a t. record t { address = a })
      ∷ required text_codec (codes "firmware_version") (λ t. t.firmware_version)
          (λ a t. record t { firmware_version = a })
      ∷ required text_codec (codes "protocol_version") (λ t. t.protocol_version)
          (λ a t. record t { protocol_version = a })
      ∷ required text_codec (codes "hardware") (λ t. t.hardware) (λ a t. record t { hardware = a })
      ∷ required bool_codec (codes "radio_ok") (λ t. t.radio_ok) (λ a t. record t { radio_ok = a })
      ∷ required int_codec (codes "peers") (λ t. t.peers) (λ a t. record t { peers = a })
      ∷ required int_codec (codes "beacon_tx") (λ t. t.beacon_tx)
          (λ a t. record t { beacon_tx = a })
      ∷ required int_codec (codes "beacon_rx") (λ t. t.beacon_rx)
          (λ a t. record t { beacon_rx = a })
      ∷ required int_codec (codes "packets_tx") (λ t. t.packets_tx)
          (λ a t. record t { packets_tx = a })
      ∷ required int_codec (codes "packets_rx") (λ t. t.packets_rx)
          (λ a t. record t { packets_rx = a })
      ∷ required int_codec (codes "uptime_s") (λ t. t.uptime_sec)
          (λ a t. record t { uptime_sec = a })
      ∷ omitempty bool_codec (codes "supports_delivery_event_sync")
          (λ t. t.supports_delivery_event_sync)
          (λ a t. record t { supports_delivery_event_sync = a })
      ∷ [];
  zero = record {
    address = [];
    firmware_version = [];
    protocol_version = [];
    hardware = [];
    radio_ok = false;
    peers = pos 0;
    beacon_tx = pos 0;
    beacon_rx = pos 0;
    packets_tx = pos 0;
    packets_rx = pos 0;
    uptime_sec = pos 0;
    supports_delivery_event_sync = false;
  };
  makes = λ t.
      ((λ j u. refl), refl, refl)
      ⊗ ((λ j u. refl), refl, refl)
      ⊗ ((λ j u. refl), refl, refl)
      ⊗ ((λ j u. refl), refl, refl)
      ⊗ ((λ j u. refl), refl, refl)
      ⊗ ((λ j u. refl), refl, refl)
      ⊗ ((λ j u. refl), refl, refl)
      ⊗ ((λ j u. refl), refl, refl)
      ⊗ ((λ j u. refl), refl, refl)
      ⊗ ((λ j u. refl), refl, refl)
      ⊗ ((λ j u. refl), refl, refl)
      ⊗ ((λ j u. refl), refl, refl)
      ⊗ refl;
}

unfoldable pub version_response_json : {F : Type 0} → Struct F VersionResponse
unfolding pick equal decode_member bool_codec text_codec
version_response_json = record {
  fields =
      required text_codec (codes "firmware_version") (λ t. t.firmware_version)
        (λ a t. record t { firmware_version = a })
      ∷ required text_codec (codes "protocol_version") (λ t. t.protocol_version)
          (λ a t. record t { protocol_version = a })
      ∷ required text_codec (codes "hardware") (λ t. t.hardware) (λ a t. record t { hardware = a })
      ∷ omitempty bool_codec (codes "supports_delivery_event_sync")
          (λ t. t.supports_delivery_event_sync)
          (λ a t. record t { supports_delivery_event_sync = a })
      ∷ [];
  zero = record {
    firmware_version = [];
    protocol_version = [];
    hardware = [];
    supports_delivery_event_sync = false;
  };
  makes = λ t.
      ((λ j u. refl), refl, refl)
      ⊗ ((λ j u. refl), refl, refl)
      ⊗ ((λ j u. refl), refl, refl)
      ⊗ ((λ j u. refl), refl, refl)
      ⊗ refl;
}

pub record PingResponse : Type 0 where
  pub pong : Bool
  pub address : Bytes
  pub protocol_version : Bytes

unfoldable pub ping_response_json : {F : Type 0} → Struct F PingResponse
unfolding pick equal decode_member bool_codec text_codec
ping_response_json = record {
  fields =
      required bool_codec (codes "pong") (λ t. t.pong) (λ a t. record t { pong = a })
      ∷ required text_codec (codes "address") (λ t. t.address) (λ a t. record t { address = a })
      ∷ required text_codec (codes "protocol_version") (λ t. t.protocol_version)
          (λ a t. record t { protocol_version = a })
      ∷ [];
  zero = record { pong = false; address = []; protocol_version = [] };
  makes = λ t.
      ((λ j u. refl), refl, refl)
      ⊗ ((λ j u. refl), refl, refl)
      ⊗ ((λ j u. refl), refl, refl)
      ⊗ refl;
}

pub record IdentityResponse : Type 0 where
  pub address : Bytes
  pub pubkey_hash : Bytes
  pub ed25519_pub : Bytes

unfoldable pub identity_response_json : {F : Type 0} → Struct F IdentityResponse
unfolding pick equal decode_member text_codec
identity_response_json = record {
  fields =
      required text_codec (codes "address") (λ t. t.address) (λ a t. record t { address = a })
      ∷ required text_codec (codes "pubkey_hash") (λ t. t.pubkey_hash)
          (λ a t. record t { pubkey_hash = a })
      ∷ omitempty text_codec (codes "ed25519_pub") (λ t. t.ed25519_pub)
          (λ a t. record t { ed25519_pub = a })
      ∷ [];
  zero = record { address = []; pubkey_hash = []; ed25519_pub = [] };
  makes = λ t.
      ((λ j u. refl), refl, refl)
      ⊗ ((λ j u. refl), refl, refl)
      ⊗ ((λ j u. refl), refl, refl)
      ⊗ refl;
}

pub record StorageInfo : Type 0 where
  pub sd_present : Bool
  pub mount_point : Bytes

unfoldable pub storage_info_json : {F : Type 0} → Struct F StorageInfo
unfolding pick equal decode_member bool_codec text_codec
storage_info_json = record {
  fields =
      required bool_codec (codes "sd_present") (λ t. t.sd_present)
        (λ a t. record t { sd_present = a })
      ∷ omitempty text_codec (codes "mount_point") (λ t. t.mount_point)
          (λ a t. record t { mount_point = a })
      ∷ [];
  zero = record { sd_present = false; mount_point = [] };
  makes = λ t. ((λ j u. refl), refl, refl) ⊗ ((λ j u. refl), refl, refl) ⊗ refl;
}
