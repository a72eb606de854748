-- ===== src/Wire/Config.antt =====
-- types.go: the configuration.
use bramble_go.Prelude.{refl, List, [], ◌∷◌, none, Bytes, codes, ℤ, pos}
use bramble_go.Text.{equal}
use bramble_go.Json.{Floats, text_codec, int_codec, int_codec_of, float_codec}
use bramble_go.Json.Compound.{pointer_codec, slice_codec}
use bramble_go.Json.Struct.{required, omitempty, pick, decode_member}
use bramble_go.Json.Laws.{◌⊗◌, Struct, struct_codec}
use bramble_go.Client.Commands.{RadioConfig}
use bramble_go.Wire.Location.{LocationConfig, location_config_json}
use bramble_go.Wire.Mesh.{Channel, channel_json}

pub record ConfigRadio : Type 0 where
  pub frequency_mhz : ℤ
  pub sf : ℤ
  pub bw_hz : ℤ
  pub tx_power_dbm : ℤ
  pub profile : Bytes

unfoldable pub config_radio_json : {F : Type 0} → Struct F ConfigRadio
unfolding pick equal decode_member int_codec_of text_codec
config_radio_json = record {
  fields =
      required int_codec (codes "frequency_mhz") (λ t. t.frequency_mhz)
        (λ a t. record t { frequency_mhz = a })
      ∷ required int_codec (codes "sf") (λ t. t.sf) (λ a t. record t { sf = a })
      ∷ required int_codec (codes "bw_hz") (λ t. t.bw_hz) (λ a t. record t { bw_hz = a })
      ∷ required int_codec (codes "tx_power_dbm") (λ t. t.tx_power_dbm)
          (λ a t. record t { tx_power_dbm = a })
      ∷ required text_codec (codes "profile") (λ t. t.profile) (λ a t. record t { profile = a })
      ∷ [];
  zero = record {
    frequency_mhz = pos 0;
    sf = pos 0;
    bw_hz = pos 0;
    tx_power_dbm = pos 0;
    profile = [];
  };
  makes = λ t.
      ((λ j u. refl), refl, refl)
      ⊗ ((λ j u. refl), refl, refl)
      ⊗ ((λ j u. refl), refl, refl)
      ⊗ ((λ j u. refl), refl, refl)
      ⊗ ((λ j u. refl), refl, refl)
      ⊗ refl;
}

pub record ConfigResponse (F : Type 0) : Type 0 where
  pub node_name : Bytes
  pub address : Bytes
  pub radio : ConfigRadio
  pub channels : List Channel
  pub location : LocationConfig F

unfoldable pub config_response_json : {F : Type 0} → Floats F → Struct F (ConfigResponse F)
unfolding pick equal decode_member slice_codec struct_codec text_codec
config_response_json floats = record {
  fields =
      required text_codec (codes "node_name") (λ t. t.node_name) (λ a t. record t { node_name = a })
      ∷ required text_codec (codes "address") (λ t. t.address) (λ a t. record t { address = a })
      ∷ required (struct_codec config_radio_json) (codes "radio") (λ t. t.radio)
          (λ a t. record t { radio = a })
      ∷ required (slice_codec (struct_codec channel_json)) (codes "channels") (λ t. t.channels)
          (λ a t. record t { channels = a })
      ∷ required (struct_codec (location_config_json floats)) (codes "location") (λ t. t.location)
          (λ a t. record t { location = a })
      ∷ [];
  zero = record {
    node_name = [];
    address = [];
    radio = Struct.zero config_radio_json;
    channels = [];
    location = Struct.zero (location_config_json floats);
  };
  makes = λ t.
      ((λ j u. refl), refl, refl)
      ⊗ ((λ j u. refl), refl, refl)
      ⊗ ((λ j u. refl), refl, refl)
      ⊗ ((λ j u. refl), refl, refl)
      ⊗ ((λ j u. refl), refl, refl)
      ⊗ refl;
}

unfoldable pub radio_config_json : {F : Type 0} → Floats F → Struct F (RadioConfig F)
unfolding pick equal decode_member float_codec int_codec_of pointer_codec
radio_config_json floats = record {
  fields =
      omitempty (pointer_codec int_codec) (codes "tx_power_dbm") (λ t. t.tx_power_dbm)
        (λ a t. record t { tx_power_dbm = a })
      ∷ omitempty (pointer_codec int_codec) (codes "sf") (λ t. t.sf) (λ a t. record t { sf = a })
      ∷ omitempty (pointer_codec int_codec) (codes "bw_hz") (λ t. t.bw_hz)
          (λ a t. record t { bw_hz = a })
      ∷ omitempty (pointer_codec int_codec) (codes "cr") (λ t. t.cr) (λ a t. record t { cr = a })
      ∷ omitempty (pointer_codec (float_codec floats.of_int floats.is_zero)) (codes "frequency_mhz")
          (λ t. t.frequency_mhz) (λ a t. record t { frequency_mhz = a })
      ∷ [];
  zero = record { tx_power_dbm = none; sf = none; bw_hz = none; cr = none; frequency_mhz = none };
  makes = λ t.
      ((λ j u. refl), refl, refl)
      ⊗ ((λ j u. refl), refl, refl)
      ⊗ ((λ j u. refl), refl, refl)
      ⊗ ((λ j u. refl), refl, refl)
      ⊗ ((λ j u. refl), refl, refl)
      ⊗ refl;
}
