-- ===== src/Wire/Events.antt =====
-- types.go: events.
use bramble_go.Prelude.{refl, Bool, false, [], ◌∷◌, Bytes, codes, ℤ, pos}
use bramble_go.Text.{equal}
use bramble_go.Json.{Floats, text_codec, bool_codec, int_codec, int_codec_of, float_codec}
use bramble_go.Json.Struct.{required, omitempty, pick, decode_member}
use bramble_go.Json.Laws.{◌⊗◌, Struct}
use bramble_go.Wire.Tier.{tier_codec}

pub record WifiEvent : Type 0 where
  pub event : Bytes
  pub mode : Bytes
  pub connected : Bool
  pub ssid : Bytes
  pub ip : Bytes
  pub rssi : ℤ

unfoldable pub wifi_event_json : {F : Type 0} → Struct F WifiEvent
unfolding pick equal decode_member bool_codec int_codec_of text_codec
wifi_event_json = record {
  fields =
      required text_codec (codes "event") (λ t. t.event) (λ a t. record t { event = a })
      ∷ required text_codec (codes "mode") (λ t. t.mode) (λ a t. record t { mode = a })
      ∷ required bool_codec (codes "connected") (λ t. t.connected)
          (λ a t. record t { connected = a })
      ∷ omitempty text_codec (codes "ssid") (λ t. t.ssid) (λ a t. record t { ssid = a })
      ∷ omitempty text_codec (codes "ip") (λ t. t.ip) (λ a t. record t { ip = a })
      ∷ omitempty int_codec (codes "rssi") (λ t. t.rssi) (λ a t. record t { rssi = a })
      ∷ [];
  zero = record { event = []; mode = []; connected = false; ssid = []; ip = []; rssi = pos 0 };
  makes = λ t.
      ((λ j u. refl), refl, refl)
      ⊗ ((λ j u. refl), refl, refl)
      ⊗ ((λ j u. refl), refl, refl)
      ⊗ ((λ j u. refl), refl, refl)
      ⊗ ((λ j u. refl), refl, refl)
      ⊗ ((λ j u. refl), refl, refl)
      ⊗ refl;
}

pub record GpsEvent (F : Type 0) : Type 0 where
  pub event : Bytes
  pub valid : Bool
  pub lat : F
  pub lon : F
  pub alt_m : ℤ
  pub sats : ℤ

unfoldable pub gps_event_json : {F : Type 0} → Floats F → Struct F (GpsEvent F)
unfolding pick equal decode_member bool_codec float_codec int_codec_of text_codec
gps_event_json floats = record {
  fields =
      required text_codec (codes "event") (λ t. t.event) (λ a t. record t { event = a })
      ∷ omitempty bool_codec (codes "valid") (λ t. t.valid) (λ a t. record t { valid = a })
      ∷ omitempty (float_codec floats.of_int floats.is_zero) (codes "lat") (λ t. t.lat)
          (λ a t. record t { lat = a })
      ∷ omitempty (float_codec floats.of_int floats.is_zero) (codes "lon") (λ t. t.lon)
          (λ a t. record t { lon = a })
      ∷ omitempty int_codec (codes "alt_m") (λ t. t.alt_m) (λ a t. record t { alt_m = a })
      ∷ omitempty int_codec (codes "sats") (λ t. t.sats) (λ a t. record t { sats = a })
      ∷ [];
  zero = record {
    event = [];
    valid = false;
    lat = floats.of_int (pos 0);
    lon = floats.of_int (pos 0);
    alt_m = pos 0;
    sats = pos 0;
  };
  makes = λ t.
      ((λ j u. refl), refl, refl)
      ⊗ ((λ j u. refl), refl, refl)
      ⊗ ((λ j u. refl), refl, refl)
      ⊗ ((λ j u. refl), refl, refl)
      ⊗ ((λ j u. refl), refl, refl)
      ⊗ ((λ j u. refl), refl, refl)
      ⊗ refl;
}

pub record LocationEvent : Type 0 where
  pub event : Bytes
  pub peer : Bytes
  pub tier : Bytes
  pub timestamp_ms : ℤ
  pub rssi : ℤ
  pub snr : ℤ
  pub count : ℤ

unfoldable pub location_event_json : {F : Type 0} → Struct F LocationEvent
unfolding pick equal decode_member int_codec_of text_codec tier_codec
location_event_json = record {
  fields =
      required text_codec (codes "event") (λ t. t.event) (λ a t. record t { event = a })
      ∷ omitempty text_codec (codes "peer") (λ t. t.peer) (λ a t. record t { peer = a })
      ∷ required tier_codec (codes "tier") (λ t. t.tier) (λ a t. record t { tier = a })
      ∷ required int_codec (codes "timestamp_ms") (λ t. t.timestamp_ms)
          (λ a t. record t { timestamp_ms = a })
      ∷ omitempty int_codec (codes "rssi") (λ t. t.rssi) (λ a t. record t { rssi = a })
      ∷ omitempty int_codec (codes "snr") (λ t. t.snr) (λ a t. record t { snr = a })
      ∷ omitempty int_codec (codes "count") (λ t. t.count) (λ a t. record t { count = a })
      ∷ [];
  zero = record {
    event = [];
    peer = [];
    tier = [];
    timestamp_ms = pos 0;
    rssi = pos 0;
    snr = pos 0;
    count = pos 0;
  };
  makes = λ t.
      ((λ j u. refl), refl, refl)
      ⊗ ((λ j u. refl), refl, refl)
      ⊗ ((λ j u. refl), refl, refl)
      ⊗ ((λ j u. refl), refl, refl)
      ⊗ ((λ j u. refl), refl, refl)
      ⊗ ((λ j u. refl), refl, refl)
      ⊗ ((λ j u. refl), refl, refl)
      ⊗ refl;
}
