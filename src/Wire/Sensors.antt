-- ===== src/Wire/Sensors.antt =====
-- types.go: the node's position, power and light.
use bramble_go.Prelude.{refl, Bool, false, [], ◌∷◌, Bytes, codes, ℤ, pos}
use bramble_go.Text.{equal}
use bramble_go.Json.{Floats, text_codec, bool_codec, int_codec, int_codec_of, float_codec}
use bramble_go.Json.Struct.{required, omitempty, pick, decode_member}
use bramble_go.Json.Laws.{◌⊗◌, Struct}

pub record Position (F : Type 0) : Type 0 where
  pub lat : F
  pub lon : F
  pub alt : F
  pub accuracy : F
  pub speed : F
  pub heading : F
  pub timestamp_ms : ℤ

unfoldable pub position_json : {F : Type 0} → Floats F → Struct F (Position F)
unfolding pick equal decode_member float_codec int_codec_of
position_json floats = record {
  fields =
      required (float_codec floats.of_int floats.is_zero) (codes "lat") (λ t. t.lat)
        (λ a t. record t { lat = a })
      ∷ required (float_codec floats.of_int floats.is_zero) (codes "lon") (λ t. t.lon)
          (λ a t. record t { lon = a })
      ∷ required (float_codec floats.of_int floats.is_zero) (codes "alt") (λ t. t.alt)
          (λ a t. record t { alt = a })
      ∷ required (float_codec floats.of_int floats.is_zero) (codes "accuracy") (λ t. t.accuracy)
          (λ a t. record t { accuracy = a })
      ∷ omitempty (float_codec floats.of_int floats.is_zero) (codes "speed") (λ t. t.speed)
          (λ a t. record t { speed = a })
      ∷ omitempty (float_codec floats.of_int floats.is_zero) (codes "heading") (λ t. t.heading)
          (λ a t. record t { heading = a })
      ∷ required int_codec (codes "timestamp_ms") (λ t. t.timestamp_ms)
          (λ a t. record t { timestamp_ms = a })
      ∷ [];
  zero = record {
    lat = floats.of_int (pos 0);
    lon = floats.of_int (pos 0);
    alt = floats.of_int (pos 0);
    accuracy = floats.of_int (pos 0);
    speed = floats.of_int (pos 0);
    heading = floats.of_int (pos 0);
    timestamp_ms = pos 0;
  };
  makes = λ t.
      ((λ j u. refl), refl, refl)
      ⊗ ((λ j u. refl), refl, refl)
      ⊗ ((λ j u. refl), refl, refl)
      ⊗ ((λ j u. refl), refl, refl)
      ⊗ ((λ j u. refl), refl, refl)
      ⊗ ((λ j u. refl), refl, refl)
      ⊗ ((λ j u. refl), refl, refl)
      ⊗ refl;
}

pub record BatteryStatus : Type 0 where
  pub voltage_mv : ℤ
  pub percentage : ℤ

unfoldable pub battery_status_json : {F : Type 0} → Struct F BatteryStatus
unfolding pick equal decode_member int_codec_of
battery_status_json = record {
  fields =
      required int_codec (codes "voltage_mv") (λ t. t.voltage_mv)
        (λ a t. record t { voltage_mv = a })
      ∷ required int_codec (codes "percentage") (λ t. t.percentage)
          (λ a t. record t { percentage = a })
      ∷ [];
  zero = record { voltage_mv = pos 0; percentage = pos 0 };
  makes = λ t. ((λ j u. refl), refl, refl) ⊗ ((λ j u. refl), refl, refl) ⊗ refl;
}

pub record GpsPosition (F : Type 0) : Type 0 where
  pub lat : F
  pub lon : F
  pub alt : F
  pub speed_kmh : F
  pub heading_deg : F
  pub accuracy_m : F
  pub timestamp : ℤ
  pub valid : Bool

unfoldable pub gps_position_json : {F : Type 0} → Floats F → Struct F (GpsPosition F)
unfolding pick equal decode_member bool_codec float_codec int_codec_of
gps_position_json floats = record {
  fields =
      omitempty (float_codec floats.of_int floats.is_zero) (codes "lat") (λ t. t.lat)
        (λ a t. record t { lat = a })
      ∷ omitempty (float_codec floats.of_int floats.is_zero) (codes "lon") (λ t. t.lon)
          (λ a t. record t { lon = a })
      ∷ omitempty (float_codec floats.of_int floats.is_zero) (codes "alt") (λ t. t.alt)
          (λ a t. record t { alt = a })
      ∷ omitempty (float_codec floats.of_int floats.is_zero) (codes "speed_kmh") (λ t. t.speed_kmh)
          (λ a t. record t { speed_kmh = a })
      ∷ omitempty (float_codec floats.of_int floats.is_zero) (codes "heading_deg")
          (λ t. t.heading_deg) (λ a t. record t { heading_deg = a })
      ∷ omitempty (float_codec floats.of_int floats.is_zero) (codes "accuracy_m")
          (λ t. t.accuracy_m) (λ a t. record t { accuracy_m = a })
      ∷ omitempty int_codec (codes "timestamp") (λ t. t.timestamp)
          (λ a t. record t { timestamp = a })
      ∷ required bool_codec (codes "valid") (λ t. t.valid) (λ a t. record t { valid = a })
      ∷ [];
  zero = record {
    lat = floats.of_int (pos 0);
    lon = floats.of_int (pos 0);
    alt = floats.of_int (pos 0);
    speed_kmh = floats.of_int (pos 0);
    heading_deg = floats.of_int (pos 0);
    accuracy_m = floats.of_int (pos 0);
    timestamp = pos 0;
    valid = false;
  };
  makes = λ t.
      ((λ j u. refl), refl, refl)
      ⊗ ((λ j u. refl), refl, refl)
      ⊗ ((λ j u. refl), refl, refl)
      ⊗ ((λ j u. refl), refl, refl)
      ⊗ ((λ j u. refl), refl, refl)
      ⊗ ((λ j u. refl), refl, refl)
      ⊗ ((λ j u. refl), refl, refl)
      ⊗ ((λ j u. refl), refl, refl)
      ⊗ refl;
}

pub record BacklightResponse : Type 0 where
  pub level : ℤ

unfoldable pub backlight_response_json : {F : Type 0} → Struct F BacklightResponse
unfolding pick equal decode_member int_codec_of
backlight_response_json = record {
  fields = required int_codec (codes "level") (λ t. t.level) (λ a t. record t { level = a }) ∷ [];
  zero = record { level = pos 0 };
  makes = λ t. ((λ j u. refl), refl, refl) ⊗ refl;
}

pub record SleepResponse : Type 0 where
  pub is_ok : Bool
  pub wake_after_s : ℤ
  pub note : Bytes

unfoldable pub sleep_response_json : {F : Type 0} → Struct F SleepResponse
unfolding pick equal decode_member bool_codec int_codec_of text_codec
sleep_response_json = record {
  fields =
      required bool_codec (codes "ok") (λ t. t.is_ok) (λ a t. record t { is_ok = a })
      ∷ omitempty int_codec (codes "wake_after_s") (λ t. t.wake_after_s)
          (λ a t. record t { wake_after_s = a })
      ∷ omitempty text_codec (codes "note") (λ t. t.note) (λ a t. record t { note = a })
      ∷ [];
  zero = record { is_ok = false; wake_after_s = pos 0; note = [] };
  makes = λ t.
      ((λ j u. refl), refl, refl)
      ⊗ ((λ j u. refl), refl, refl)
      ⊗ ((λ j u. refl), refl, refl)
      ⊗ refl;
}
