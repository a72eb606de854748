-- ===== src/Wire/Diagnostics.antt =====
-- types.go: diagnostics.
use bramble_go.Prelude.{refl, Bool, false, List, [], ◌∷◌, Option, none, Bytes, codes, ℤ, pos}
use bramble_go.Text.{equal}
use bramble_go.Json.{Floats, text_codec, bool_codec, int_codec, int_codec_of, float_codec}
use bramble_go.Json.Compound.{pointer_codec, slice_codec}
use bramble_go.Json.Struct.{required, omitempty, pick, decode_member}
use bramble_go.Json.Laws.{◌⊗◌, Struct, struct_codec}
use bramble_go.Wire.Memory.{
  DiagnosticsBackpressure, DiagnosticsHeap, TaskStackHwm, diagnostics_backpressure_json,
  diagnostics_heap_json, task_stack_hwm_json,
}

pub record DiagnosticsRadioHealth : Type 0 where
  pub supported : Bool
  pub tx_power_dbm : ℤ
  pub chip : Option Bytes
  pub pa_fault : Option Bool
  pub pll_fault : Option Bool
  pub oscillator_fault : Option Bool
  pub calibration_fault : Option Bool
  pub config_verified : Option Bool
  pub detail : Option Bytes

unfoldable pub diagnostics_radio_health_json : {F : Type 0} → Struct F DiagnosticsRadioHealth
unfolding pick equal decode_member bool_codec int_codec_of pointer_codec text_codec
diagnostics_radio_health_json = record {
  fields =
      required bool_codec (codes "supported") (λ t. t.supported) (λ a t. record t { supported = a })
      ∷ required int_codec (codes "tx_power_dbm") (λ t. t.tx_power_dbm)
          (λ a t. record t { tx_power_dbm = a })
      ∷ omitempty (pointer_codec text_codec) (codes "chip") (λ t. t.chip)
          (λ a t. record t { chip = a })
      ∷ omitempty (pointer_codec bool_codec) (codes "pa_fault") (λ t. t.pa_fault)
          (λ a t. record t { pa_fault = a })
      ∷ omitempty (pointer_codec bool_codec) (codes "pll_fault") (λ t. t.pll_fault)
          (λ a t. record t { pll_fault = a })
      ∷ omitempty (pointer_codec bool_codec) (codes "oscillator_fault") (λ t. t.oscillator_fault)
          (λ a t. record t { oscillator_fault = a })
      ∷ omitempty (pointer_codec bool_codec) (codes "calibration_fault") (λ t. t.calibration_fault)
          (λ a t. record t { calibration_fault = a })
      ∷ omitempty (pointer_codec bool_codec) (codes "config_verified") (λ t. t.config_verified)
          (λ a t. record t { config_verified = a })
      ∷ omitempty (pointer_codec text_codec) (codes "detail") (λ t. t.detail)
          (λ a t. record t { detail = a })
      ∷ [];
  zero = record {
    supported = false;
    tx_power_dbm = pos 0;
    chip = none;
    pa_fault = none;
    pll_fault = none;
    oscillator_fault = none;
    calibration_fault = none;
    config_verified = none;
    detail = none;
  };
  makes = λ t.
      ((λ j u. refl), refl, refl)
      ⊗ ((λ j u. refl), refl, refl)
      ⊗ ((λ j u. refl), refl, refl)
      ⊗ ((λ j u. refl), refl, refl)
      ⊗ ((λ j u. refl), refl, refl)
      ⊗ ((λ j u. refl), refl, refl)
      ⊗ ((λ j u. refl), refl, refl)
      ⊗ ((λ j u. refl), refl, refl)
      ⊗ ((λ j u. refl), refl, refl)
      ⊗ refl;
}

pub record DiagnosticsResponse (F : Type 0) : Type 0 where
  pub uptime_s : F
  pub free_heap : F
  pub heap : DiagnosticsHeap F
  pub task_stack_hwm : List (TaskStackHwm F)
  pub backpressure : Option (DiagnosticsBackpressure F)
  pub radio_health : Option DiagnosticsRadioHealth
  pub gps_rx_bytes : Option F
  pub gps_rx_lines : Option F
  pub gps_chip : Option Bytes
  pub gps_rx_overruns : Option F
  pub gps_rx_errors : Option F
  pub gps_rx_disabled : Option F
  pub gps_rx_rearm_fail : Option F

unfoldable pub diagnostics_response_json :
    {F : Type 0} → Floats F → Struct F (DiagnosticsResponse F)
unfolding pick equal decode_member float_codec pointer_codec slice_codec struct_codec text_codec
diagnostics_response_json floats = record {
  fields =
      required (float_codec floats.of_int floats.is_zero) (codes "uptime_s") (λ t. t.uptime_s)
        (λ a t. record t { uptime_s = a })
      ∷ required (float_codec floats.of_int floats.is_zero) (codes "free_heap") (λ t. t.free_heap)
          (λ a t. record t { free_heap = a })
      ∷ required (struct_codec (diagnostics_heap_json floats)) (codes "heap") (λ t. t.heap)
          (λ a t. record t { heap = a })
      ∷ required (slice_codec (struct_codec (task_stack_hwm_json floats))) (codes "task_stack_hwm")
          (λ t. t.task_stack_hwm) (λ a t. record t { task_stack_hwm = a })
      ∷ omitempty (pointer_codec (struct_codec (diagnostics_backpressure_json floats)))
          (codes "backpressure") (λ t. t.backpressure) (λ a t. record t { backpressure = a })
      ∷ omitempty (pointer_codec (struct_codec diagnostics_radio_health_json))
          (codes "radio_health") (λ t. t.radio_health) (λ a t. record t { radio_health = a })
      ∷ omitempty (pointer_codec (float_codec floats.of_int floats.is_zero)) (codes "gps_rx_bytes")
          (λ t. t.gps_rx_bytes) (λ a t. record t { gps_rx_bytes = a })
      ∷ omitempty (pointer_codec (float_codec floats.of_int floats.is_zero)) (codes "gps_rx_lines")
          (λ t. t.gps_rx_lines) (λ a t. record t { gps_rx_lines = a })
      ∷ omitempty (pointer_codec text_codec) (codes "gps_chip") (λ t. t.gps_chip)
          (λ a t. record t { gps_chip = a })
      ∷ omitempty (pointer_codec (float_codec floats.of_int floats.is_zero))
          (codes "gps_rx_overruns") (λ t. t.gps_rx_overruns)
          (λ a t. record t { gps_rx_overruns = a })
      ∷ omitempty (pointer_codec (float_codec floats.of_int floats.is_zero)) (codes "gps_rx_errors")
          (λ t. t.gps_rx_errors) (λ a t. record t { gps_rx_errors = a })
      ∷ omitempty (pointer_codec (float_codec floats.of_int floats.is_zero))
          (codes "gps_rx_disabled") (λ t. t.gps_rx_disabled)
          (λ a t. record t { gps_rx_disabled = a })
      ∷ omitempty (pointer_codec (float_codec floats.of_int floats.is_zero))
          (codes "gps_rx_rearm_fail") (λ t. t.gps_rx_rearm_fail)
          (λ a t. record t { gps_rx_rearm_fail = a })
      ∷ [];
  zero = record {
    uptime_s = floats.of_int (pos 0);
    free_heap = floats.of_int (pos 0);
    heap = Struct.zero (diagnostics_heap_json floats);
    task_stack_hwm = [];
    backpressure = none;
    radio_health = none;
    gps_rx_bytes = none;
    gps_rx_lines = none;
    gps_chip = none;
    gps_rx_overruns = none;
    gps_rx_errors = none;
    gps_rx_disabled = none;
    gps_rx_rearm_fail = none;
  };
  makes = λ t.
      ((λ j u. refl), refl, refl)
      ⊗ ((λ j u. refl), refl, refl)
      ⊗ ((λ j u. refl), refl, refl)
      ⊗ ((λ j u. refl), refl, refl)
      ⊗ ((λ j u. refl), refl, refl)
      ⊗ ((λ j u. refl), refl, refl)
      ⊗ ((λ j u. refl), refl, refl)
      ⊗ ((λ j u. refl), refl, refl)
      ⊗ ((λ j u. refl), refl, refl)
      ⊗ ((λ j u. refl), refl, refl)
      ⊗ ((λ j u. refl), refl, refl)
      ⊗ ((λ j u. refl), refl, refl)
      ⊗ ((λ j u. refl), refl, refl)
      ⊗ refl;
}
