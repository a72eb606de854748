-- ===== src/Wire/Memory.antt =====
-- types.go: memory, stacks and back pressure, of the diagnostics.
use bramble_go.Prelude.{refl, [], ◌∷◌, Bytes, codes, pos}
use bramble_go.Text.{equal}
use bramble_go.Json.{Floats, text_codec, float_codec}
use bramble_go.Json.Struct.{required, pick, decode_member}
use bramble_go.Json.Laws.{◌⊗◌, Struct, struct_codec}

pub record DiagnosticsHeap (F : Type 0) : Type 0 where
  pub internal_free : F
  pub internal_min_ever_free : F
  pub internal_largest_free_block : F
  pub dma_free : F
  pub dma_largest_free_block : F
  pub psram_free : F
  pub psram_min_ever_free : F

unfoldable pub diagnostics_heap_json : {F : Type 0} → Floats F → Struct F (DiagnosticsHeap F)
unfolding pick equal decode_member float_codec
diagnostics_heap_json floats = record {
  fields =
      required (float_codec floats.of_int floats.is_zero) (codes "internal_free")
        (λ t. t.internal_free) (λ a t. record t { internal_free = a })
      ∷ required (float_codec floats.of_int floats.is_zero) (codes "internal_min_ever_free")
          (λ t. t.internal_min_ever_free) (λ a t. record t { internal_min_ever_free = a })
      ∷ required (float_codec floats.of_int floats.is_zero) (codes "internal_largest_free_block")
          (λ t. t.internal_largest_free_block) (λ a t. record t { internal_largest_free_block = a })
      ∷ required (float_codec floats.of_int floats.is_zero) (codes "dma_free") (λ t. t.dma_free)
          (λ a t. record t { dma_free = a })
      ∷ required (float_codec floats.of_int floats.is_zero) (codes "dma_largest_free_block")
          (λ t. t.dma_largest_free_block) (λ a t. record t { dma_largest_free_block = a })
      ∷ required (float_codec floats.of_int floats.is_zero) (codes "psram_free") (λ t. t.psram_free)
          (λ a t. record t { psram_free = a })
      ∷ required (float_codec floats.of_int floats.is_zero) (codes "psram_min_ever_free")
          (λ t. t.psram_min_ever_free) (λ a t. record t { psram_min_ever_free = a })
      ∷ [];
  zero = record {
    internal_free = floats.of_int (pos 0);
    internal_min_ever_free = floats.of_int (pos 0);
    internal_largest_free_block = floats.of_int (pos 0);
    dma_free = floats.of_int (pos 0);
    dma_largest_free_block = floats.of_int (pos 0);
    psram_free = floats.of_int (pos 0);
    psram_min_ever_free = floats.of_int (pos 0);
  };
  makes = λ t.
      ((λ j u. refl), refl, refl)
      ⊗ ((λ j u. refl), refl, refl)
      ⊗ ((λ j u. refl), refl, refl)
      ⊗ ((λ j u. refl), refl, refl)
      ⊗ ((λ j u. refl), refl, refl)
      ⊗ ((λ j u. refl), refl, refl)
      ⊗ ((λ j u. refl), refl, refl)
      ⊗ refl;
}

pub record TaskStackHwm (F : Type 0) : Type 0 where
  pub task : Bytes
  pub hwm_words : F
  pub hwm_bytes : F

unfoldable pub task_stack_hwm_json : {F : Type 0} → Floats F → Struct F (TaskStackHwm F)
unfolding pick equal decode_member float_codec text_codec
task_stack_hwm_json floats = record {
  fields =
      required text_codec (codes "task") (λ t. t.task) (λ a t. record t { task = a })
      ∷ required (float_codec floats.of_int floats.is_zero) (codes "hwm_words") (λ t. t.hwm_words)
          (λ a t. record t { hwm_words = a })
      ∷ required (float_codec floats.of_int floats.is_zero) (codes "hwm_bytes") (λ t. t.hwm_bytes)
          (λ a t. record t { hwm_bytes = a })
      ∷ [];
  zero = record { task = []; hwm_words = floats.of_int (pos 0); hwm_bytes = floats.of_int (pos 0) };
  makes = λ t.
      ((λ j u. refl), refl, refl)
      ⊗ ((λ j u. refl), refl, refl)
      ⊗ ((λ j u. refl), refl, refl)
      ⊗ refl;
}

pub record DiagnosticsProbeIngress (F : Type 0) : Type 0 where
  pub accepted : F
  pub dropped_reply : F
  pub dropped_forward : F

unfoldable pub diagnostics_probe_ingress_json :
    {F : Type 0} → Floats F → Struct F (DiagnosticsProbeIngress F)
unfolding pick equal decode_member float_codec
diagnostics_probe_ingress_json floats = record {
  fields =
      required (float_codec floats.of_int floats.is_zero) (codes "accepted") (λ t. t.accepted)
        (λ a t. record t { accepted = a })
      ∷ required (float_codec floats.of_int floats.is_zero) (codes "dropped_reply")
          (λ t. t.dropped_reply) (λ a t. record t { dropped_reply = a })
      ∷ required (float_codec floats.of_int floats.is_zero) (codes "dropped_forward")
          (λ t. t.dropped_forward) (λ a t. record t { dropped_forward = a })
      ∷ [];
  zero = record {
    accepted = floats.of_int (pos 0);
    dropped_reply = floats.of_int (pos 0);
    dropped_forward = floats.of_int (pos 0);
  };
  makes = λ t.
      ((λ j u. refl), refl, refl)
      ⊗ ((λ j u. refl), refl, refl)
      ⊗ ((λ j u. refl), refl, refl)
      ⊗ refl;
}

pub record DiagnosticsBackpressure (F : Type 0) : Type 0 where
  pub flood_relay_drops : F
  pub probe_ingress : DiagnosticsProbeIngress F

unfoldable pub diagnostics_backpressure_json :
    {F : Type 0} → Floats F → Struct F (DiagnosticsBackpressure F)
unfolding pick equal decode_member float_codec struct_codec
diagnostics_backpressure_json floats = record {
  fields =
      required (float_codec floats.of_int floats.is_zero) (codes "flood_relay_drops")
        (λ t. t.flood_relay_drops) (λ a t. record t { flood_relay_drops = a })
      ∷ required (struct_codec (diagnostics_probe_ingress_json floats)) (codes "probe_ingress")
          (λ t. t.probe_ingress) (λ a t. record t { probe_ingress = a })
      ∷ [];
  zero = record {
    flood_relay_drops = floats.of_int (pos 0);
    probe_ingress = Struct.zero (diagnostics_probe_ingress_json floats);
  };
  makes = λ t. ((λ j u. refl), refl, refl) ⊗ ((λ j u. refl), refl, refl) ⊗ refl;
}
