-- ===== src/Client/Commands.antt =====
-- client.go: the methods that change the node's configuration. `read_ok` reads the member `ok`.
use bramble_go.Prelude.{
  is_empty, Bool, List, [], ◌∷◌, ◌++◌, Option, none, some, Bytes, codes, ℤ, pos, Result, lt_int,
  if◌then◌else◌,
}
use bramble_go.Protocol.{CallError}
use bramble_go.Client.{optional, Value, text, int, bool, float, Params, Api, query, command}

-- `RadioConfig`; the library has no floats, so that `F` stands for `float64`.
pub record RadioConfig (F : Type 0) : Type 0 where
  pub tx_power_dbm : Option ℤ
  pub sf : Option ℤ
  pub bw_hz : Option ℤ
  pub cr : Option ℤ
  pub frequency_mhz : Option F

-- the map that `SetRadio` fills
pub radio_params : {F : Type 0} → RadioConfig F → List (Bytes × Value F)
radio_params config =
    optional (codes "tx_power_dbm") int config.tx_power_dbm
    ++ (optional (codes "sf") int config.sf
        ++ (optional (codes "bw_hz") int config.bw_hz
            ++ (optional (codes "coding_rate") int config.cr
                ++ optional (codes "frequency_mhz") float config.frequency_mhz)))

module _ {F S : Type 0} (call : Bytes → Params F → S → Result CallError Bytes × S) where
  module _ (read_ok : Bytes → Option Bool) where
    pub set_network_key : Bytes → Api S (Unit {0})
    set_network_key key_hex =
        command call read_ok (codes "bramble.setNetworkKey") (codes "setNetworkKey")
          (some ((codes "key", text key_hex) ∷ []))

    pub set_anchor : Bytes → Api S (Unit {0})
    set_anchor anchor_pub_hex =
        command call read_ok (codes "bramble.setAnchor") (codes "setAnchor")
          (some ((codes "anchor_pubkey", text anchor_pub_hex) ∷ []))

    pub set_endorsement : Bytes → Bytes → Api S (Unit {0})
    set_endorsement not_after_hex sig_hex =
        command call read_ok (codes "bramble.setEndorsement") (codes "setEndorsement") (
          some (
            (codes "not_after", text not_after_hex) ∷ (codes "endorsement_sig", text sig_hex) ∷ []))

    pub set_node_name : Bytes → Api S (Unit {0})
    set_node_name name =
        command call read_ok (codes "bramble.setNodeName") (codes "setNodeName")
          (some ((codes "name", text name) ∷ []))

    pub set_auth_token : Bytes → Api S (Unit {0})
    set_auth_token token =
        command call read_ok (codes "bramble.setAuthToken") (codes "setAuthToken")
          (some ((codes "token", text token) ∷ []))

    pub play_tone : Bytes → Api S (Unit {0})
    play_tone tone =
        command call read_ok (codes "bramble.playTone") (codes "playTone")
          (some ((codes "tone", text tone) ∷ []))

    pub set_volume : ℤ → Api S (Unit {0})
    set_volume volume =
        command call read_ok (codes "bramble.setVolume") (codes "setVolume")
          (some ((codes "volume", int volume) ∷ []))

    pub set_muted : Bool → Api S (Unit {0})
    set_muted muted =
        command call read_ok (codes "bramble.setMuted") (codes "setMuted")
          (some ((codes "muted", bool muted) ∷ []))

    pub remove_channel : ℤ → Api S (Unit {0})
    remove_channel index =
        command call read_ok (codes "bramble.removeChannel") (codes "removeChannel")
          (some ((codes "index", int index) ∷ []))

    pub set_default_channel : ℤ → Api S (Unit {0})
    set_default_channel index =
        command call read_ok (codes "bramble.setDefaultChannel") (codes "setDefaultChannel")
          (some ((codes "index", int index) ∷ []))

    pub set_mailbox : Bool → Api S (Unit {0})
    set_mailbox enabled =
        command call read_ok (codes "bramble.setMailbox") (codes "setMailbox")
          (some ((codes "enabled", bool enabled) ∷ []))

    -- the members of the struct, as its marshalling gives them
    pub set_beacon_policy : List (Bytes × Value F) → Api S (Unit {0})
    set_beacon_policy params =
        command call read_ok (codes "bramble.setBeaconPolicy") (codes "setBeaconPolicy")
          (some params)

    pub set_location_config : List (Bytes × Value F) → Api S (Unit {0})
    set_location_config config =
        command call read_ok (codes "bramble.setLocationConfig") (codes "setLocationConfig")
          (some config)

    pub set_radio : RadioConfig F → Api S (Unit {0})
    unfolding radio_params
    set_radio config =
        command call read_ok (codes "bramble.setRadio") (codes "setRadio")
          (some (radio_params config))

    pub reboot : Api S (Unit {0})
    reboot = command call read_ok (codes "bramble.reboot") (codes "reboot") none

  pub set_wifi_config : {T : Type 0} → (Bytes → Option T) → Bytes → Bytes → Api S T
  set_wifi_config unmarshal ssid password =
      query call (codes "bramble.setWifiConfig")
        (some ((codes "ssid", text ssid) ∷ (codes "password", text password) ∷ []))
        (codes "SetWifiConfigResponse") unmarshal

  -- an empty text is left out of the request
  pub start_roll_call : {T : Type 0} → (Bytes → Option T) → Bytes → Api S T
  start_roll_call unmarshal payload =
      query call (codes "bramble.startRollCall")
        (some (if is_empty payload then [] else (codes "text", text payload) ∷ []))
        (codes "StartRollCallResponse") unmarshal

  pub set_ble_passkey : {T : Type 0} → (Bytes → Option T) → Bytes → Api S T
  set_ble_passkey unmarshal passkey =
      query call (codes "bramble.setBlePasskey") (some ((codes "passkey", text passkey) ∷ []))
        (codes "SetBlePasskeyResponse") unmarshal

  pub set_broadcast_telemetry_mode : {T : Type 0} → (Bytes → Option T) → Bytes → Api S T
  set_broadcast_telemetry_mode unmarshal mode =
      query call (codes "bramble.setBroadcastTelemetryMode") (some ((codes "mode", text mode) ∷ []))
        (codes "SetBroadcastTelemetryModeResponse") unmarshal

  pub set_backlight : {T : Type 0} → (Bytes → Option T) → ℤ → Api S T
  set_backlight unmarshal level =
      query call (codes "bramble.setBacklight") (some ((codes "level", int level) ∷ []))
        (codes "BacklightResponse") unmarshal

  pub add_channel : {T : Type 0} → (Bytes → Option T) → Bytes → Bytes → Api S T
  add_channel unmarshal name psk =
      query call (codes "bramble.addChannel")
        (some ((codes "name", text name) ∷ (codes "psk", text psk) ∷ [])) (codes "AddChannelResult")
        unmarshal

  pub ota_update : {T : Type 0} → (Bytes → Option T) → Bytes → Api S T
  ota_update unmarshal url =
      query call (codes "bramble.otaUpdate") (some ((codes "url", text url) ∷ []))
        (codes "OTAUpdateResponse") unmarshal

  pub sleep : {T : Type 0} → (Bytes → Option T) → ℤ → Api S T
  sleep unmarshal wake_after_s =
      query call (codes "bramble.sleep")
        (some (
          if lt_int (pos 0) wake_after_s
          then (codes "wake_after_s", int wake_after_s) ∷ []
          else []))
        (codes "SleepResponse") unmarshal

  pub set_traffic_debug : {T : Type 0} → (Bytes → Option T) → List (Bytes × Value F) → Api S T
  set_traffic_debug unmarshal params =
      query call (codes "bramble.setTrafficDebug") (some params) (codes "SetTrafficDebugResponse")
        unmarshal
