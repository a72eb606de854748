-- ===== src/Wire/Topology.antt =====
-- types.go: the export of the topology.
use bramble_go.Prelude.{refl, Bool, false, List, [], ◌∷◌, Bytes, codes, ℤ, pos}
use bramble_go.Text.{equal}
use bramble_go.Json.{Floats, text_codec, bool_codec, int_codec, int_codec_of, float_codec}
use bramble_go.Json.Compound.{slice_codec}
use bramble_go.Json.Struct.{required, omitempty, pick, decode_member}
use bramble_go.Json.Laws.{◌⊗◌, Struct, struct_codec}
use bramble_go.Wire.Mesh.{Neighbor, Route, neighbor_json, route_json}

pub record TopologyNode : Type 0 where
  pub address : Bytes
  pub name : Bytes
  pub firmware_version : Bytes
  pub protocol_version : Bytes
  pub hardware : Bytes
  pub uptime_s : ℤ

unfoldable pub topology_node_json : {F : Type 0} → Struct F TopologyNode
unfolding pick equal decode_member int_codec_of text_codec
topology_node_json = record {
  fields =
      required text_codec (codes "address") (λ t. t.address) (λ a t. record t { address = a })
      ∷ omitempty text_codec (codes "name") (λ t. t.name) (λ a t. record t { name = a })
      ∷ required text_codec (codes "firmware_version") (λ t. t.firmware_version)
          (λ a t. record t { firmware_version = a })
      ∷ required text_codec (codes "protocol_version") (λ t. t.protocol_version)
          (λ a t. record t { protocol_version = a })
      ∷ required text_codec (codes "hardware") (λ t. t.hardware) (λ a t. record t { hardware = a })
      ∷ required int_codec (codes "uptime_s") (λ t. t.uptime_s) (λ a t. record t { uptime_s = a })
      ∷ [];
  zero = record {
    address = [];
    name = [];
    firmware_version = [];
    protocol_version = [];
    hardware = [];
    uptime_s = pos 0;
  };
  makes = λ t.
      ((λ j u. refl), refl, refl)
      ⊗ ((λ j u. refl), refl, refl)
      ⊗ ((λ j u. refl), refl, refl)
      ⊗ ((λ j u. refl), refl, refl)
      ⊗ ((λ j u. refl), refl, refl)
      ⊗ ((λ j u. refl), refl, refl)
      ⊗ refl;
}

pub record TopologyRadio (F : Type 0) : Type 0 where
  pub frequency_mhz : F
  pub sf : ℤ
  pub bw_hz : ℤ
  pub coding_rate : ℤ
  pub tx_power_dbm : ℤ
  pub region : Bytes
  pub regulatory : Bytes
  pub max_duty_cycle_pct : ℤ
  pub duty_cycle_enforced : Bool

unfoldable pub topology_radio_json : {F : Type 0} → Floats F → Struct F (TopologyRadio F)
unfolding pick equal decode_member bool_codec float_codec int_codec_of text_codec
topology_radio_json floats = record {
  fields =
      required (float_codec floats.of_int floats.is_zero) (codes "frequency_mhz")
        (λ t. t.frequency_mhz) (λ a t. record t { frequency_mhz = a })
      ∷ required int_codec (codes "sf") (λ t. t.sf) (λ a t. record t { sf = a })
      ∷ required int_codec (codes "bw_hz") (λ t. t.bw_hz) (λ a t. record t { bw_hz = a })
      ∷ required int_codec (codes "coding_rate") (λ t. t.coding_rate)
          (λ a t. record t { coding_rate = a })
      ∷ required int_codec (codes "tx_power_dbm") (λ t. t.tx_power_dbm)
          (λ a t. record t { tx_power_dbm = a })
      ∷ required text_codec (codes "region") (λ t. t.region) (λ a t. record t { region = a })
      ∷ required text_codec (codes "regulatory") (λ t. t.regulatory)
          (λ a t. record t { regulatory = a })
      ∷ required int_codec (codes "max_duty_cycle_pct") (λ t. t.max_duty_cycle_pct)
          (λ a t. record t { max_duty_cycle_pct = a })
      ∷ required bool_codec (codes "duty_cycle_enforced") (λ t. t.duty_cycle_enforced)
          (λ a t. record t { duty_cycle_enforced = a })
      ∷ [];
  zero = record {
    frequency_mhz = floats.of_int (pos 0);
    sf = pos 0;
    bw_hz = pos 0;
    coding_rate = pos 0;
    tx_power_dbm = pos 0;
    region = [];
    regulatory = [];
    max_duty_cycle_pct = pos 0;
    duty_cycle_enforced = false;
  };
  makes = λ t.
      ((λ j u. refl), refl, refl)
      ⊗ ((λ j u. refl), refl, refl)
      ⊗ ((λ j u. refl), refl, refl)
      ⊗ ((λ j u. refl), refl, refl)
      ⊗ ((λ j u. refl), refl, refl)
      ⊗ ((λ j u. refl), refl, refl)
      ⊗ ((λ j u. refl), refl, refl)
      ⊗ ((λ j u. refl), refl, refl)
      ⊗ ((λ j u. refl), refl, refl)
      ⊗ refl;
}

pub record TopologyExport (F : Type 0) : Type 0 where
  pub twin_schema : ℤ
  pub node : TopologyNode
  pub radio : TopologyRadio F
  pub neighbors : List (Neighbor F)
  pub routes : List Route

unfoldable pub topology_export_json : {F : Type 0} → Floats F → Struct F (TopologyExport F)
unfolding pick equal decode_member int_codec_of slice_codec struct_codec
topology_export_json floats = record {
  fields =
      required int_codec (codes "twin_schema") (λ t. t.twin_schema)
        (λ a t. record t { twin_schema = a })
      ∷ required (struct_codec topology_node_json) (codes "node") (λ t. t.node)
          (λ a t. record t { node = a })
      ∷ required (struct_codec (topology_radio_json floats)) (codes "radio") (λ t. t.radio)
          (λ a t. record t { radio = a })
      ∷ required (slice_codec (struct_codec (neighbor_json floats))) (codes "neighbors")
          (λ t. t.neighbors) (λ a t. record t { neighbors = a })
      ∷ required (slice_codec (struct_codec route_json)) (codes "routes") (λ t. t.routes)
          (λ a t. record t { routes = a })
      ∷ [];
  zero = record {
    twin_schema = pos 0;
    node = Struct.zero topology_node_json;
    radio = Struct.zero (topology_radio_json floats);
    neighbors = [];
    routes = [];
  };
  makes = λ t.
      ((λ j u. refl), refl, refl)
      ⊗ ((λ j u. refl), refl, refl)
      ⊗ ((λ j u. refl), refl, refl)
      ⊗ ((λ j u. refl), refl, refl)
      ⊗ ((λ j u. refl), refl, refl)
      ⊗ refl;
}
