-- ===== src/Wire/Beacon.antt =====
-- types.go: beacon policy.
use bramble_go.Prelude.{refl, Bool, false, [], ◌∷◌, Option, none, Bytes, codes, ℤ, pos}
use bramble_go.Text.{equal}
use bramble_go.Json.{text_codec, bool_codec, int_codec, int_codec_of}
use bramble_go.Json.Compound.{pointer_codec}
use bramble_go.Json.Struct.{required, omitempty, pick, decode_member}
use bramble_go.Json.Laws.{◌⊗◌, Struct, struct_codec}

pub record BeaconPolicyConfig : Type 0 where
  pub enabled : Bool
  pub mode : Bytes
  pub base_interval_ms : ℤ
  pub min_interval_ms : ℤ
  pub max_interval_ms : ℤ
  pub dense_threshold : ℤ
  pub churn_threshold : ℤ
  pub churn_window_ms : ℤ

unfoldable pub beacon_policy_config_json : {F : Type 0} → Struct F BeaconPolicyConfig
unfolding pick equal decode_member bool_codec int_codec_of text_codec
beacon_policy_config_json = record {
  fields =
      required bool_codec (codes "enabled") (λ t. t.enabled) (λ a t. record t { enabled = a })
      ∷ required text_codec (codes "mode") (λ t. t.mode) (λ a t. record t { mode = a })
      ∷ required int_codec (codes "baseIntervalMs") (λ t. t.base_interval_ms)
          (λ a t. record t { base_interval_ms = a })
      ∷ required int_codec (codes "minIntervalMs") (λ t. t.min_interval_ms)
          (λ a t. record t { min_interval_ms = a })
      ∷ required int_codec (codes "maxIntervalMs") (λ t. t.max_interval_ms)
          (λ a t. record t { max_interval_ms = a })
      ∷ required int_codec (codes "denseThreshold") (λ t. t.dense_threshold)
          (λ a t. record t { dense_threshold = a })
      ∷ required int_codec (codes "churnThreshold") (λ t. t.churn_threshold)
          (λ a t. record t { churn_threshold = a })
      ∷ required int_codec (codes "churnWindowMs") (λ t. t.churn_window_ms)
          (λ a t. record t { churn_window_ms = a })
      ∷ [];
  zero = record {
    enabled = false;
    mode = [];
    base_interval_ms = pos 0;
    min_interval_ms = pos 0;
    max_interval_ms = pos 0;
    dense_threshold = pos 0;
    churn_threshold = pos 0;
    churn_window_ms = pos 0;
  };
  makes = λ t.
      ((λ j u. refl), refl, refl)
      ⊗ ((λ j u. refl), refl, refl)
      ⊗ ((λ j u. refl), refl, refl)
      ⊗ ((λ j u. refl), refl, refl)
      ⊗ ((λ j u. refl), refl, refl)
      ⊗ ((λ j u. refl), refl, refl)
      ⊗ ((λ j u. refl), refl, refl)
      ⊗ ((λ j u. refl), refl, refl)
      ⊗ refl;
}

pub record BeaconPolicyStatus : Type 0 where
  pub active_mode : Bytes
  pub current_interval_ms : ℤ
  pub neighbor_count : ℤ
  pub churn_events : ℤ
  pub last_transition_ms : ℤ
  pub in_backoff : Bool

unfoldable pub beacon_policy_status_json : {F : Type 0} → Struct F BeaconPolicyStatus
unfolding pick equal decode_member bool_codec int_codec_of text_codec
beacon_policy_status_json = record {
  fields =
      required text_codec (codes "activeMode") (λ t. t.active_mode)
        (λ a t. record t { active_mode = a })
      ∷ required int_codec (codes "currentIntervalMs") (λ t. t.current_interval_ms)
          (λ a t. record t { current_interval_ms = a })
      ∷ required int_codec (codes "neighborCount") (λ t. t.neighbor_count)
          (λ a t. record t { neighbor_count = a })
      ∷ required int_codec (codes "churnEvents") (λ t. t.churn_events)
          (λ a t. record t { churn_events = a })
      ∷ required int_codec (codes "lastTransitionMs") (λ t. t.last_transition_ms)
          (λ a t. record t { last_transition_ms = a })
      ∷ required bool_codec (codes "inBackoff") (λ t. t.in_backoff)
          (λ a t. record t { in_backoff = a })
      ∷ [];
  zero = record {
    active_mode = [];
    current_interval_ms = pos 0;
    neighbor_count = pos 0;
    churn_events = pos 0;
    last_transition_ms = pos 0;
    in_backoff = false;
  };
  makes = λ t.
      ((λ j u. refl), refl, refl)
      ⊗ ((λ j u. refl), refl, refl)
      ⊗ ((λ j u. refl), refl, refl)
      ⊗ ((λ j u. refl), refl, refl)
      ⊗ ((λ j u. refl), refl, refl)
      ⊗ ((λ j u. refl), refl, refl)
      ⊗ refl;
}

pub record BeaconPolicyResponse : Type 0 where
  pub config : BeaconPolicyConfig
  pub status : BeaconPolicyStatus

unfoldable pub beacon_policy_response_json : {F : Type 0} → Struct F BeaconPolicyResponse
unfolding pick equal decode_member struct_codec
beacon_policy_response_json = record {
  fields =
      required (struct_codec beacon_policy_config_json) (codes "config") (λ t. t.config)
        (λ a t. record t { config = a })
      ∷ required (struct_codec beacon_policy_status_json) (codes "status") (λ t. t.status)
          (λ a t. record t { status = a })
      ∷ [];
  zero = record {
    config = Struct.zero beacon_policy_config_json;
    status = Struct.zero beacon_policy_status_json;
  };
  makes = λ t. ((λ j u. refl), refl, refl) ⊗ ((λ j u. refl), refl, refl) ⊗ refl;
}

pub record SetBeaconPolicyParams : Type 0 where
  pub enabled : Option Bool
  pub mode : Bytes
  pub base_interval_ms : Option ℤ
  pub min_interval_ms : Option ℤ
  pub max_interval_ms : Option ℤ
  pub dense_threshold : Option ℤ
  pub churn_threshold : Option ℤ
  pub churn_window_ms : Option ℤ

unfoldable pub set_beacon_policy_params_json : {F : Type 0} → Struct F SetBeaconPolicyParams
unfolding pick equal decode_member bool_codec int_codec_of pointer_codec text_codec
set_beacon_policy_params_json = record {
  fields =
      omitempty (pointer_codec bool_codec) (codes "enabled") (λ t. t.enabled)
        (λ a t. record t { enabled = a })
      ∷ omitempty text_codec (codes "mode") (λ t. t.mode) (λ a t. record t { mode = a })
      ∷ omitempty (pointer_codec int_codec) (codes "baseIntervalMs") (λ t. t.base_interval_ms)
          (λ a t. record t { base_interval_ms = a })
      ∷ omitempty (pointer_codec int_codec) (codes "minIntervalMs") (λ t. t.min_interval_ms)
          (λ a t. record t { min_interval_ms = a })
      ∷ omitempty (pointer_codec int_codec) (codes "maxIntervalMs") (λ t. t.max_interval_ms)
          (λ a t. record t { max_interval_ms = a })
      ∷ omitempty (pointer_codec int_codec) (codes "denseThreshold") (λ t. t.dense_threshold)
          (λ a t. record t { dense_threshold = a })
      ∷ omitempty (pointer_codec int_codec) (codes "churnThreshold") (λ t. t.churn_threshold)
          (λ a t. record t { churn_threshold = a })
      ∷ omitempty (pointer_codec int_codec) (codes "churnWindowMs") (λ t. t.churn_window_ms)
          (λ a t. record t { churn_window_ms = a })
      ∷ [];
  zero = record {
    enabled = none;
    mode = [];
    base_interval_ms = none;
    min_interval_ms = none;
    max_interval_ms = none;
    dense_threshold = none;
    churn_threshold = none;
    churn_window_ms = none;
  };
  makes = λ t.
      ((λ j u. refl), refl, refl)
      ⊗ ((λ j u. refl), refl, refl)
      ⊗ ((λ j u. refl), refl, refl)
      ⊗ ((λ j u. refl), refl, refl)
      ⊗ ((λ j u. refl), refl, refl)
      ⊗ ((λ j u. refl), refl, refl)
      ⊗ ((λ j u. refl), refl, refl)
      ⊗ ((λ j u. refl), refl, refl)
      ⊗ refl;
}
