-- ===== src/Wire/Mesh.antt =====
-- types.go: the mesh and its air time.
use bramble_go.Prelude.{refl, Bool, false, List, [], ◌∷◌, Bytes, codes, ℤ, pos}
use bramble_go.Text.{equal}
use bramble_go.Json.{Floats, text_codec, bool_codec, int_codec, int_codec_of, float_codec}
use bramble_go.Json.Compound.{slice_codec}
use bramble_go.Json.Struct.{required, omitempty, pick, decode_member}
use bramble_go.Json.Laws.{◌⊗◌, Struct, struct_codec}
use bramble_go.Client.Messages.{AirtimeTier}

pub record Neighbor (F : Type 0) : Type 0 where
  pub address : Bytes
  pub name : Bytes
  pub rssi : ℤ
  pub snr : F
  pub last_seen_ago_ms : ℤ
  pub delivery_rate : ℤ
  pub airtime_remaining : ℤ

unfoldable pub neighbor_json : {F : Type 0} → Floats F → Struct F (Neighbor F)
unfolding pick equal decode_member float_codec int_codec_of text_codec
neighbor_json floats = record {
  fields =
      required text_codec (codes "address") (λ t. t.address) (λ a t. record t { address = a })
      ∷ omitempty text_codec (codes "name") (λ t. t.name) (λ a t. record t { name = a })
      ∷ required int_codec (codes "rssi") (λ t. t.rssi) (λ a t. record t { rssi = a })
      ∷ required (float_codec floats.of_int floats.is_zero) (codes "snr") (λ t. t.snr)
          (λ a t. record t { snr = a })
      ∷ required int_codec (codes "last_seen_ms") (λ t. t.last_seen_ago_ms)
          (λ a t. record t { last_seen_ago_ms = a })
      ∷ required int_codec (codes "deliveryRate") (λ t. t.delivery_rate)
          (λ a t. record t { delivery_rate = a })
      ∷ required int_codec (codes "airtimeRemaining") (λ t. t.airtime_remaining)
          (λ a t. record t { airtime_remaining = a })
      ∷ [];
  zero = record {
    address = [];
    name = [];
    rssi = pos 0;
    snr = floats.of_int (pos 0);
    last_seen_ago_ms = pos 0;
    delivery_rate = pos 0;
    airtime_remaining = pos 0;
  };
  makes = λ t.
      ((λ j u. refl), refl, refl)
      ⊗ ((λ j u. refl), refl, refl)
      ⊗ ((λ j u. refl), refl, refl)
      ⊗ ((λ j u. refl), refl, refl)
      ⊗ ((λ j u. refl), refl, refl)
      ⊗ ((λ j u. refl), refl, refl)
      ⊗ ((λ j u. refl), refl, refl)
      ⊗ refl;
}

pub record Route : Type 0 where
  pub dest : Bytes
  pub next_hop : Bytes
  pub hop_count : ℤ
  pub metric : ℤ
  pub state : Bytes
  pub use_count : ℤ

unfoldable pub route_json : {F : Type 0} → Struct F Route
unfolding pick equal decode_member int_codec_of text_codec
route_json = record {
  fields =
      required text_codec (codes "dest") (λ t. t.dest) (λ a t. record t { dest = a })
      ∷ required text_codec (codes "next_hop") (λ t. t.next_hop) (λ a t. record t { next_hop = a })
      ∷ required int_codec (codes "hop_count") (λ t. t.hop_count)
          (λ a t. record t { hop_count = a })
      ∷ required int_codec (codes "metric") (λ t. t.metric) (λ a t. record t { metric = a })
      ∷ required text_codec (codes "state") (λ t. t.state) (λ a t. record t { state = a })
      ∷ required int_codec (codes "use_count") (λ t. t.use_count)
          (λ a t. record t { use_count = a })
      ∷ [];
  zero = record {
    dest = [];
    next_hop = [];
    hop_count = pos 0;
    metric = pos 0;
    state = [];
    use_count = pos 0;
  };
  makes = λ t.
      ((λ j u. refl), refl, refl)
      ⊗ ((λ j u. refl), refl, refl)
      ⊗ ((λ j u. refl), refl, refl)
      ⊗ ((λ j u. refl), refl, refl)
      ⊗ ((λ j u. refl), refl, refl)
      ⊗ ((λ j u. refl), refl, refl)
      ⊗ refl;
}

pub record Channel : Type 0 where
  pub id : ℤ
  pub name : Bytes
  pub has_psk : Bool
  pub epoch : ℤ
  pub is_default : Bool

unfoldable pub channel_json : {F : Type 0} → Struct F Channel
unfolding pick equal decode_member bool_codec int_codec_of text_codec
channel_json = record {
  fields =
      required int_codec (codes "id") (λ t. t.id) (λ a t. record t { id = a })
      ∷ required text_codec (codes "name") (λ t. t.name) (λ a t. record t { name = a })
      ∷ omitempty bool_codec (codes "has_psk") (λ t. t.has_psk) (λ a t. record t { has_psk = a })
      ∷ omitempty int_codec (codes "epoch") (λ t. t.epoch) (λ a t. record t { epoch = a })
      ∷ required bool_codec (codes "is_default") (λ t. t.is_default)
          (λ a t. record t { is_default = a })
      ∷ [];
  zero = record { id = pos 0; name = []; has_psk = false; epoch = pos 0; is_default = false };
  makes = λ t.
      ((λ j u. refl), refl, refl)
      ⊗ ((λ j u. refl), refl, refl)
      ⊗ ((λ j u. refl), refl, refl)
      ⊗ ((λ j u. refl), refl, refl)
      ⊗ ((λ j u. refl), refl, refl)
      ⊗ refl;
}

unfoldable pub airtime_tier_json : {F : Type 0} → Struct F AirtimeTier
unfolding pick equal decode_member int_codec_of text_codec
airtime_tier_json = record {
  fields =
      required text_codec (codes "name") (λ t. t.name) (λ a t. record t { name = a })
      ∷ required int_codec (codes "remaining_ms") (λ t. t.remaining_ms)
          (λ a t. record t { remaining_ms = a })
      ∷ required int_codec (codes "max_ms") (λ t. t.max_ms) (λ a t. record t { max_ms = a })
      ∷ required int_codec (codes "used_pct") (λ t. t.used_pct) (λ a t. record t { used_pct = a })
      ∷ required int_codec (codes "refill_at_ms") (λ t. t.refill_at_ms)
          (λ a t. record t { refill_at_ms = a })
      ∷ [];
  zero = record {
    name = [];
    remaining_ms = pos 0;
    max_ms = pos 0;
    used_pct = pos 0;
    refill_at_ms = pos 0;
  };
  makes = λ t.
      ((λ j u. refl), refl, refl)
      ⊗ ((λ j u. refl), refl, refl)
      ⊗ ((λ j u. refl), refl, refl)
      ⊗ ((λ j u. refl), refl, refl)
      ⊗ ((λ j u. refl), refl, refl)
      ⊗ refl;
}

pub record AirtimeStats : Type 0 where
  pub tiers : List AirtimeTier

unfoldable pub airtime_stats_json : {F : Type 0} → Struct F AirtimeStats
unfolding pick equal decode_member slice_codec struct_codec
airtime_stats_json = record {
  fields =
      required (slice_codec (struct_codec airtime_tier_json)) (codes "tiers") (λ t. t.tiers)
        (λ a t. record t { tiers = a })
      ∷ [];
  zero = record { tiers = [] };
  makes = λ t. ((λ j u. refl), refl, refl) ⊗ refl;
}
