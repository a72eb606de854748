-- ===== src/Wire/Location.antt =====
-- types.go: locations.
use bramble_go.Prelude.{refl, Bool, false, List, [], ◌∷◌, Option, none, Bytes, codes, ℤ, pos}
use bramble_go.Text.{equal}
use bramble_go.Json.{Floats, text_codec, bool_codec, int_codec, int_codec_of, float_codec}
use bramble_go.Json.Compound.{pointer_codec, slice_codec}
use bramble_go.Json.Struct.{required, omitempty, pick, decode_member}
use bramble_go.Json.Laws.{◌⊗◌, Struct, struct_codec}
use bramble_go.Client.Location.{LocationContactRule}
use bramble_go.Wire.Sensors.{Position, position_json}

pub record LocationPeer (F : Type 0) : Type 0 where
  pub addr : Bytes
  pub name : Bytes
  pub tier : Bytes
  pub position : Option (Position F)
  pub grid_square : Bytes
  pub online : Bool
  pub last_updated_ms : ℤ

unfoldable pub location_peer_json : {F : Type 0} → Floats F → Struct F (LocationPeer F)
unfolding pick equal decode_member bool_codec int_codec_of pointer_codec struct_codec text_codec
location_peer_json floats = record {
  fields =
      required text_codec (codes "addr") (λ t. t.addr) (λ a t. record t { addr = a })
      ∷ required text_codec (codes "name") (λ t. t.name) (λ a t. record t { name = a })
      ∷ required text_codec (codes "tier") (λ t. t.tier) (λ a t. record t { tier = a })
      ∷ omitempty (pointer_codec (struct_codec (position_json floats))) (codes "position")
          (λ t. t.position) (λ a t. record t { position = a })
      ∷ omitempty text_codec (codes "grid_square") (λ t. t.grid_square)
          (λ a t. record t { grid_square = a })
      ∷ required bool_codec (codes "online") (λ t. t.online) (λ a t. record t { online = a })
      ∷ required int_codec (codes "last_updated_ms") (λ t. t.last_updated_ms)
          (λ a t. record t { last_updated_ms = a })
      ∷ [];
  zero = record {
    addr = [];
    name = [];
    tier = [];
    position = none;
    grid_square = [];
    online = false;
    last_updated_ms = pos 0;
  };
  makes = λ t.
      ((λ j u. refl), refl, refl)
      ⊗ ((λ j u. refl), refl, refl)
      ⊗ ((λ j u. refl), refl, refl)
      ⊗ ((λ j u. refl), refl, refl)
      ⊗ ((λ j u. refl), refl, refl)
      ⊗ ((λ j u. refl), refl, refl)
      ⊗ ((λ j u. refl), refl, refl)
      ⊗ refl;
}

pub record LocationUpdate (F : Type 0) : Type 0 where
  pub addr : Bytes
  pub name : Bytes
  pub tier : Bytes
  pub position : Option (Position F)
  pub online : Bool
  pub last_updated_ms : ℤ

unfoldable pub location_update_json : {F : Type 0} → Floats F → Struct F (LocationUpdate F)
unfolding pick equal decode_member bool_codec int_codec_of pointer_codec struct_codec text_codec
location_update_json floats = record {
  fields =
      required text_codec (codes "addr") (λ t. t.addr) (λ a t. record t { addr = a })
      ∷ required text_codec (codes "name") (λ t. t.name) (λ a t. record t { name = a })
      ∷ required text_codec (codes "tier") (λ t. t.tier) (λ a t. record t { tier = a })
      ∷ omitempty (pointer_codec (struct_codec (position_json floats))) (codes "position")
          (λ t. t.position) (λ a t. record t { position = a })
      ∷ required bool_codec (codes "online") (λ t. t.online) (λ a t. record t { online = a })
      ∷ required int_codec (codes "last_updated_ms") (λ t. t.last_updated_ms)
          (λ a t. record t { last_updated_ms = a })
      ∷ [];
  zero = record {
    addr = [];
    name = [];
    tier = [];
    position = none;
    online = false;
    last_updated_ms = pos 0;
  };
  makes = λ t.
      ((λ j u. refl), refl, refl)
      ⊗ ((λ j u. refl), refl, refl)
      ⊗ ((λ j u. refl), refl, refl)
      ⊗ ((λ j u. refl), refl, refl)
      ⊗ ((λ j u. refl), refl, refl)
      ⊗ ((λ j u. refl), refl, refl)
      ⊗ refl;
}

unfoldable pub location_contact_rule_json : {F : Type 0} → Struct F LocationContactRule
unfolding pick equal decode_member bool_codec int_codec_of pointer_codec text_codec
location_contact_rule_json = record {
  fields =
      required text_codec (codes "address") (λ t. t.address) (λ a t. record t { address = a })
      ∷ omitempty (pointer_codec bool_codec) (codes "enabled") (λ t. t.enabled)
          (λ a t. record t { enabled = a })
      ∷ omitempty text_codec (codes "tier") (λ t. t.tier) (λ a t. record t { tier = a })
      ∷ omitempty (pointer_codec int_codec) (codes "interval_s") (λ t. t.interval_s)
          (λ a t. record t { interval_s = a })
      ∷ [];
  zero = record { address = []; enabled = none; tier = []; interval_s = none };
  makes = λ t.
      ((λ j u. refl), refl, refl)
      ⊗ ((λ j u. refl), refl, refl)
      ⊗ ((λ j u. refl), refl, refl)
      ⊗ ((λ j u. refl), refl, refl)
      ⊗ refl;
}

pub record LocationChannelTarget : Type 0 where
  pub channel : ℤ
  pub enabled : Option Bool
  pub tier : Bytes
  pub interval_s : Option ℤ

unfoldable pub location_channel_target_json : {F : Type 0} → Struct F LocationChannelTarget
unfolding pick equal decode_member bool_codec int_codec_of pointer_codec text_codec
location_channel_target_json = record {
  fields =
      required int_codec (codes "channel") (λ t. t.channel) (λ a t. record t { channel = a })
      ∷ omitempty (pointer_codec bool_codec) (codes "enabled") (λ t. t.enabled)
          (λ a t. record t { enabled = a })
      ∷ omitempty text_codec (codes "tier") (λ t. t.tier) (λ a t. record t { tier = a })
      ∷ omitempty (pointer_codec int_codec) (codes "interval_s") (λ t. t.interval_s)
          (λ a t. record t { interval_s = a })
      ∷ [];
  zero = record { channel = pos 0; enabled = none; tier = []; interval_s = none };
  makes = λ t.
      ((λ j u. refl), refl, refl)
      ⊗ ((λ j u. refl), refl, refl)
      ⊗ ((λ j u. refl), refl, refl)
      ⊗ ((λ j u. refl), refl, refl)
      ⊗ refl;
}

pub record LocationConfig (F : Type 0) : Type 0 where
  pub enabled : Option Bool
  pub default_tier : Option Bytes
  pub interval_s : Option ℤ
  pub source : Option Bytes
  pub lat : Option F
  pub lon : Option F
  pub contact_rules : List LocationContactRule
  pub channel_targets : List LocationChannelTarget

unfoldable pub location_config_json : {F : Type 0} → Floats F → Struct F (LocationConfig F)
unfolding pick equal decode_member bool_codec float_codec int_codec_of pointer_codec slice_codec
    struct_codec text_codec
location_config_json floats = record {
  fields =
      omitempty (pointer_codec bool_codec) (codes "enabled") (λ t. t.enabled)
        (λ a t. record t { enabled = a })
      ∷ omitempty (pointer_codec text_codec) (codes "default_tier") (λ t. t.default_tier)
          (λ a t. record t { default_tier = a })
      ∷ omitempty (pointer_codec int_codec) (codes "interval_s") (λ t. t.interval_s)
          (λ a t. record t { interval_s = a })
      ∷ omitempty (pointer_codec text_codec) (codes "source") (λ t. t.source)
          (λ a t. record t { source = a })
      ∷ omitempty (pointer_codec (float_codec floats.of_int floats.is_zero)) (codes "lat")
          (λ t. t.lat) (λ a t. record t { lat = a })
      ∷ omitempty (pointer_codec (float_codec floats.of_int floats.is_zero)) (codes "lon")
          (λ t. t.lon) (λ a t. record t { lon = a })
      ∷ omitempty (slice_codec (struct_codec location_contact_rule_json)) (codes "contact_rules")
          (λ t. t.contact_rules) (λ a t. record t { contact_rules = a })
      ∷ omitempty (slice_codec (struct_codec location_channel_target_json))
          (codes "channel_targets") (λ t. t.channel_targets)
          (λ a t. record t { channel_targets = a })
      ∷ [];
  zero = record {
    enabled = none;
    default_tier = none;
    interval_s = none;
    source = none;
    lat = none;
    lon = none;
    contact_rules = [];
    channel_targets = [];
  };
  makes = λ t.
      ((λ j u. refl), refl, refl)
      ⊗ ((λ j u. refl), refl, refl)
      ⊗ ((λ j u. refl), refl, refl)
      ⊗ ((λ j u. refl), refl, refl)
      ⊗ ((λ j u. refl), refl, refl)
      ⊗ ((λ j u. refl), refl, refl)
      ⊗ ((λ j u. refl), refl, refl)
      ⊗ ((λ j u. refl), refl, refl)
      ⊗ refl;
}
