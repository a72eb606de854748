-- ===== src/Wire/Links.antt =====
-- types.go: the node's own links and sounds.
use bramble_go.Prelude.{refl, Bool, false, [], ◌∷◌, Bytes, codes, ℤ, pos}
use bramble_go.Text.{equal}
use bramble_go.Json.{text_codec, bool_codec, int_codec, int_codec_of}
use bramble_go.Json.Struct.{required, omitempty, pick, decode_member}
use bramble_go.Json.Laws.{◌⊗◌, Struct}

-- the values of `BleSecurityMode`
abbrev pub ble_security_mode_passkey_display : Bytes
ble_security_mode_passkey_display = codes "passkey-display"

abbrev pub ble_security_mode_static_passkey : Bytes
ble_security_mode_static_passkey = codes "static-passkey"

abbrev pub ble_security_mode_just_works : Bytes
ble_security_mode_just_works = codes "just-works"

pub record WifiStatus : Type 0 where
  pub mode : Bytes
  pub ssid : Bytes
  pub ip : Bytes
  pub rssi : ℤ
  pub mac : Bytes
  pub clients : ℤ

unfoldable pub wifi_status_json : {F : Type 0} → Struct F WifiStatus
unfolding pick equal decode_member int_codec_of text_codec
wifi_status_json = record {
  fields =
      required text_codec (codes "mode") (λ t. t.mode) (λ a t. record t { mode = a })
      ∷ required text_codec (codes "ssid") (λ t. t.ssid) (λ a t. record t { ssid = a })
      ∷ required text_codec (codes "ip") (λ t. t.ip) (λ a t. record t { ip = a })
      ∷ required int_codec (codes "rssi") (λ t. t.rssi) (λ a t. record t { rssi = a })
      ∷ required text_codec (codes "mac") (λ t. t.mac) (λ a t. record t { mac = a })
      ∷ required int_codec (codes "clients") (λ t. t.clients) (λ a t. record t { clients = a })
      ∷ [];
  zero = record { mode = []; ssid = []; ip = []; rssi = pos 0; mac = []; clients = pos 0 };
  makes = λ t.
      ((λ j u. refl), refl, refl)
      ⊗ ((λ j u. refl), refl, refl)
      ⊗ ((λ j u. refl), refl, refl)
      ⊗ ((λ j u. refl), refl, refl)
      ⊗ ((λ j u. refl), refl, refl)
      ⊗ ((λ j u. refl), refl, refl)
      ⊗ refl;
}

pub record SetWifiConfigResponse : Type 0 where
  pub is_ok : Bool
  pub applied : Bytes

unfoldable pub set_wifi_config_response_json : {F : Type 0} → Struct F SetWifiConfigResponse
unfolding pick equal decode_member bool_codec text_codec
set_wifi_config_response_json = record {
  fields =
      required bool_codec (codes "ok") (λ t. t.is_ok) (λ a t. record t { is_ok = a })
      ∷ required text_codec (codes "applied") (λ t. t.applied) (λ a t. record t { applied = a })
      ∷ [];
  zero = record { is_ok = false; applied = [] };
  makes = λ t. ((λ j u. refl), refl, refl) ⊗ ((λ j u. refl), refl, refl) ⊗ refl;
}

pub record BleSecurity : Type 0 where
  pub mode : Bytes
  pub static_passkey_set : Bool

unfoldable pub ble_security_json : {F : Type 0} → Struct F BleSecurity
unfolding pick equal decode_member bool_codec text_codec
ble_security_json = record {
  fields =
      required text_codec (codes "mode") (λ t. t.mode) (λ a t. record t { mode = a })
      ∷ required bool_codec (codes "staticPasskeySet") (λ t. t.static_passkey_set)
          (λ a t. record t { static_passkey_set = a })
      ∷ [];
  zero = record { mode = []; static_passkey_set = false };
  makes = λ t. ((λ j u. refl), refl, refl) ⊗ ((λ j u. refl), refl, refl) ⊗ refl;
}

pub record SetBlePasskeyResponse : Type 0 where
  pub is_ok : Bool
  pub mode : Bytes
  pub error : Bytes

unfoldable pub set_ble_passkey_response_json : {F : Type 0} → Struct F SetBlePasskeyResponse
unfolding pick equal decode_member bool_codec text_codec
set_ble_passkey_response_json = record {
  fields =
      required bool_codec (codes "ok") (λ t. t.is_ok) (λ a t. record t { is_ok = a })
      ∷ omitempty text_codec (codes "mode") (λ t. t.mode) (λ a t. record t { mode = a })
      ∷ omitempty text_codec (codes "error") (λ t. t.error) (λ a t. record t { error = a })
      ∷ [];
  zero = record { is_ok = false; mode = []; error = [] };
  makes = λ t.
      ((λ j u. refl), refl, refl)
      ⊗ ((λ j u. refl), refl, refl)
      ⊗ ((λ j u. refl), refl, refl)
      ⊗ refl;
}

pub record AudioStatus : Type 0 where
  pub available : Bool
  pub volume : ℤ
  pub muted : Bool
  pub playing : Bool

unfoldable pub audio_status_json : {F : Type 0} → Struct F AudioStatus
unfolding pick equal decode_member bool_codec int_codec_of
audio_status_json = record {
  fields =
      required bool_codec (codes "available") (λ t. t.available) (λ a t. record t { available = a })
      ∷ required int_codec (codes "volume") (λ t. t.volume) (λ a t. record t { volume = a })
      ∷ required bool_codec (codes "muted") (λ t. t.muted) (λ a t. record t { muted = a })
      ∷ required bool_codec (codes "playing") (λ t. t.playing) (λ a t. record t { playing = a })
      ∷ [];
  zero = record { available = false; volume = pos 0; muted = false; playing = false };
  makes = λ t.
      ((λ j u. refl), refl, refl)
      ⊗ ((λ j u. refl), refl, refl)
      ⊗ ((λ j u. refl), refl, refl)
      ⊗ ((λ j u. refl), refl, refl)
      ⊗ refl;
}

pub record SetBroadcastTelemetryModeResponse : Type 0 where
  pub is_ok : Bool
  pub broadcast_telemetry_mode : Bytes

unfoldable pub set_broadcast_telemetry_mode_response_json :
    {F : Type 0} → Struct F SetBroadcastTelemetryModeResponse
unfolding pick equal decode_member bool_codec text_codec
set_broadcast_telemetry_mode_response_json = record {
  fields =
      required bool_codec (codes "ok") (λ t. t.is_ok) (λ a t. record t { is_ok = a })
      ∷ required text_codec (codes "broadcast_telemetry_mode") (λ t. t.broadcast_telemetry_mode)
          (λ a t. record t { broadcast_telemetry_mode = a })
      ∷ [];
  zero = record { is_ok = false; broadcast_telemetry_mode = [] };
  makes = λ t. ((λ j u. refl), refl, refl) ⊗ ((λ j u. refl), refl, refl) ⊗ refl;
}

pub record OtaUpdateParams : Type 0 where
  pub url : Bytes

unfoldable pub ota_update_params_json : {F : Type 0} → Struct F OtaUpdateParams
unfolding pick equal decode_member text_codec
ota_update_params_json = record {
  fields = required text_codec (codes "url") (λ t. t.url) (λ a t. record t { url = a }) ∷ [];
  zero = record { url = [] };
  makes = λ t. ((λ j u. refl), refl, refl) ⊗ refl;
}

pub record OtaUpdateResponse : Type 0 where
  pub is_ok : Bool
  pub note : Bytes
  pub partition : Bytes

unfoldable pub ota_update_response_json : {F : Type 0} → Struct F OtaUpdateResponse
unfolding pick equal decode_member bool_codec text_codec
ota_update_response_json = record {
  fields =
      required bool_codec (codes "ok") (λ t. t.is_ok) (λ a t. record t { is_ok = a })
      ∷ omitempty text_codec (codes "note") (λ t. t.note) (λ a t. record t { note = a })
      ∷ omitempty text_codec (codes "partition") (λ t. t.partition)
          (λ a t. record t { partition = a })
      ∷ [];
  zero = record { is_ok = false; note = []; partition = [] };
  makes = λ t.
      ((λ j u. refl), refl, refl)
      ⊗ ((λ j u. refl), refl, refl)
      ⊗ ((λ j u. refl), refl, refl)
      ⊗ refl;
}

pub record OkResponse : Type 0 where
  pub is_ok : Bool

unfoldable pub ok_response_json : {F : Type 0} → Struct F OkResponse
unfolding pick equal decode_member bool_codec
ok_response_json = record {
  fields = required bool_codec (codes "ok") (λ t. t.is_ok) (λ a t. record t { is_ok = a }) ∷ [];
  zero = record { is_ok = false };
  makes = λ t. ((λ j u. refl), refl, refl) ⊗ refl;
}

pub record AddChannelResult : Type 0 where
  pub index : ℤ

unfoldable pub add_channel_result_json : {F : Type 0} → Struct F AddChannelResult
unfolding pick equal decode_member int_codec_of
add_channel_result_json = record {
  fields = required int_codec (codes "index") (λ t. t.index) (λ a t. record t { index = a }) ∷ [];
  zero = record { index = pos 0 };
  makes = λ t. ((λ j u. refl), refl, refl) ⊗ refl;
}

pub record IdentityChangeEvent : Type 0 where
  pub new_address : Bytes
  pub reason : Bytes

unfoldable pub identity_change_event_json : {F : Type 0} → Struct F IdentityChangeEvent
unfolding pick equal decode_member text_codec
identity_change_event_json = record {
  fields =
      required text_codec (codes "new_address") (λ t. t.new_address)
        (λ a t. record t { new_address = a })
      ∷ required text_codec (codes "reason") (λ t. t.reason) (λ a t. record t { reason = a })
      ∷ [];
  zero = record { new_address = []; reason = [] };
  makes = λ t. ((λ j u. refl), refl, refl) ⊗ ((λ j u. refl), refl, refl) ⊗ refl;
}
