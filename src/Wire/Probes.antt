-- ===== src/Wire/Probes.antt =====
-- types.go: probes.
use bramble_go.Prelude.{refl, List, [], ◌∷◌, Bytes, codes, ℤ, pos}
use bramble_go.Text.{equal}
use bramble_go.Json.{Floats, text_codec, int_codec, int_codec_of, float_codec}
use bramble_go.Json.Compound.{slice_codec}
use bramble_go.Json.Struct.{required, omitempty, pick, decode_member}
use bramble_go.Json.Laws.{◌⊗◌, Struct, struct_codec}

pub record ProbeResult (F : Type 0) : Type 0 where
  pub address : Bytes
  pub hops : ℤ
  pub rssi : ℤ
  pub snr : F
  pub latency_ms : ℤ
  pub probe_round : ℤ
  pub probe_id : Bytes

unfoldable pub probe_result_json : {F : Type 0} → Floats F → Struct F (ProbeResult F)
unfolding pick equal decode_member float_codec int_codec_of text_codec
probe_result_json floats = record {
  fields =
      required text_codec (codes "address") (λ t. t.address) (λ a t. record t { address = a })
      ∷ required int_codec (codes "hops") (λ t. t.hops) (λ a t. record t { hops = a })
      ∷ required int_codec (codes "rssi") (λ t. t.rssi) (λ a t. record t { rssi = a })
      ∷ required (float_codec floats.of_int floats.is_zero) (codes "snr") (λ t. t.snr)
          (λ a t. record t { snr = a })
      ∷ required int_codec (codes "latency_ms") (λ t. t.latency_ms)
          (λ a t. record t { latency_ms = a })
      ∷ required int_codec (codes "probe_round") (λ t. t.probe_round)
          (λ a t. record t { probe_round = a })
      ∷ omitempty text_codec (codes "probe_id") (λ t. t.probe_id) (λ a t. record t { probe_id = a })
      ∷ [];
  zero = record {
    address = [];
    hops = pos 0;
    rssi = pos 0;
    snr = floats.of_int (pos 0);
    latency_ms = pos 0;
    probe_round = pos 0;
    probe_id = [];
  };
  makes = λ t.
      ((λ j u. refl), refl, refl)
      ⊗ ((λ j u. refl), refl, refl)
      ⊗ ((λ j u. refl), refl, refl)
      ⊗ ((λ j u. refl), refl, refl)
      ⊗ ((λ j u. refl), refl, refl)
      ⊗ ((λ j u. refl), refl, refl)
      ⊗ ((λ j u. refl), refl, refl)
      ⊗ refl;
}

pub record ProbeResponder (F : Type 0) : Type 0 where
  pub address : Bytes
  pub hops : ℤ
  pub rssi : ℤ
  pub snr : F
  pub latency_ms : ℤ
  pub seen_rounds : ℤ

unfoldable pub probe_responder_json : {F : Type 0} → Floats F → Struct F (ProbeResponder F)
unfolding pick equal decode_member float_codec int_codec_of text_codec
probe_responder_json floats = record {
  fields =
      required text_codec (codes "address") (λ t. t.address) (λ a t. record t { address = a })
      ∷ required int_codec (codes "hops") (λ t. t.hops) (λ a t. record t { hops = a })
      ∷ required int_codec (codes "rssi") (λ t. t.rssi) (λ a t. record t { rssi = a })
      ∷ required (float_codec floats.of_int floats.is_zero) (codes "snr") (λ t. t.snr)
          (λ a t. record t { snr = a })
      ∷ required int_codec (codes "latency_ms") (λ t. t.latency_ms)
          (λ a t. record t { latency_ms = a })
      ∷ required int_codec (codes "seen_rounds") (λ t. t.seen_rounds)
          (λ a t. record t { seen_rounds = a })
      ∷ [];
  zero = record {
    address = [];
    hops = pos 0;
    rssi = pos 0;
    snr = floats.of_int (pos 0);
    latency_ms = pos 0;
    seen_rounds = pos 0;
  };
  makes = λ t.
      ((λ j u. refl), refl, refl)
      ⊗ ((λ j u. refl), refl, refl)
      ⊗ ((λ j u. refl), refl, refl)
      ⊗ ((λ j u. refl), refl, refl)
      ⊗ ((λ j u. refl), refl, refl)
      ⊗ ((λ j u. refl), refl, refl)
      ⊗ refl;
}

pub record ProbeComplete (F : Type 0) : Type 0 where
  pub probe_id : Bytes
  pub unique_count : ℤ
  pub duration_ms : ℤ
  pub rounds_total : ℤ
  pub responders : List (ProbeResponder F)

unfoldable pub probe_complete_json : {F : Type 0} → Floats F → Struct F (ProbeComplete F)
unfolding pick equal decode_member int_codec_of slice_codec struct_codec text_codec
probe_complete_json floats = record {
  fields =
      required text_codec (codes "probe_id") (λ t. t.probe_id) (λ a t. record t { probe_id = a })
      ∷ required int_codec (codes "unique_count") (λ t. t.unique_count)
          (λ a t. record t { unique_count = a })
      ∷ required int_codec (codes "duration_ms") (λ t. t.duration_ms)
          (λ a t. record t { duration_ms = a })
      ∷ required int_codec (codes "rounds_total") (λ t. t.rounds_total)
          (λ a t. record t { rounds_total = a })
      ∷ omitempty (slice_codec (struct_codec (probe_responder_json floats))) (codes "responders")
          (λ t. t.responders) (λ a t. record t { responders = a })
      ∷ [];
  zero = record {
    probe_id = [];
    unique_count = pos 0;
    duration_ms = pos 0;
    rounds_total = pos 0;
    responders = [];
  };
  makes = λ t.
      ((λ j u. refl), refl, refl)
      ⊗ ((λ j u. refl), refl, refl)
      ⊗ ((λ j u. refl), refl, refl)
      ⊗ ((λ j u. refl), refl, refl)
      ⊗ ((λ j u. refl), refl, refl)
      ⊗ refl;
}
