-- ===== src/Client/Messages.antt =====
-- client.go: sending messages and probes, and the airtime report in its two formats.
mod ProbeId
pub mod Probe
pub mod Ids
unfoldable pub use ProbeId.*
use bramble_go.Prelude.{
  ℕ, ◌+◌, ◌-◌, ◌*◌, ◌/◌, ◌%◌, ◌^◌, zero, suc, Bool, true, false, List, [], ◌∷◌, Option, none, some,
  Bytes, codes, ℤ, pos, negsuc, eq_int, Result, ok, err, if◌then◌else◌, is_empty, not, ◌&&◌, ltb,
  leb, ◌==◌, length, drop,
}
use bramble_go.Prelude.Maybe
use bramble_go.Text.{leading_space}
use bramble_go.Protocol.{CallError}
use bramble_go.Client.{
  Value, text, int, bool, Params, Error, decode_failed, Api, done, ◌>>=◌, invoke, query,
}

upper_digit : ℕ → ℕ
upper_digit n = if ltb n 10 then b'0' + n else b'A' + (n - 10)

-- `fmt.Sprintf("%08X", n)` of a uint32
unfoldable pub format_address : ℕ → Bytes
unfolding upper_digit
format_address n =
    upper_digit (n / 2 ^ 28 % 16)
    ∷ upper_digit (n / 2 ^ 24 % 16)
    ∷ upper_digit (n / 2 ^ 20 % 16)
    ∷ upper_digit (n / 2 ^ 16 % 16)
    ∷ upper_digit (n / 2 ^ 12 % 16)
    ∷ upper_digit (n / 2 ^ 8 % 16)
    ∷ upper_digit (n / 2 ^ 4 % 16)
    ∷ upper_digit (n % 16)
    ∷ []

pub record SendResult : Type 0 where
  pub message_id : Bytes
  pub packet_id : Bytes
  pub broadcast_id : Bytes
  pub status : Bytes
  pub fragmented : Bool
  pub fragments_total : ℤ
  pub max_bytes : ℤ
  pub actual_bytes : ℤ
  pub broadcast : Bool
  pub channel : Option ℤ

unfoldable pub fill_message_id : SendResult → SendResult
fill_message_id r =
    if is_empty r.message_id && not (is_empty r.packet_id)
    then record r { message_id = r.packet_id }
    else r

unfoldable pub fill_broadcast_id : SendResult → SendResult
fill_broadcast_id r =
    if is_empty r.broadcast_id && not (is_empty r.message_id)
    then record r { broadcast_id = r.message_id }
    else r

pub record AirtimeTier : Type 0 where
  pub name : Bytes
  pub remaining_ms : ℤ
  pub max_ms : ℤ
  pub used_pct : ℤ
  pub refill_at_ms : ℤ

-- the flat fields of the current firmware
pub record FlatAirtime : Type 0 where
  pub critical_remaining_ms : ℤ
  pub normal_remaining_ms : ℤ
  pub broadcast_remaining_ms : ℤ
  pub critical_max_ms : ℤ
  pub normal_max_ms : ℤ
  pub broadcast_max_ms : ℤ
  pub next_refill_ms : ℤ

pub tier : Bytes → ℤ → ℤ → ℤ → AirtimeTier
tier name remaining max refill = record {
  name = name;
  remaining_ms = remaining;
  max_ms = max;
  used_pct = pos 0;
  refill_at_ms = refill;
}

flat_tiers : Option FlatAirtime → Result Error (List AirtimeTier)
unfolding tier
flat_tiers none = err (decode_failed (codes "AirtimeStats"))
flat_tiers (some f) = ok (
    tier (codes "critical") f.critical_remaining_ms f.critical_max_ms f.next_refill_ms
    ∷ tier (codes "normal") f.normal_remaining_ms f.normal_max_ms f.next_refill_ms
    ∷ tier (codes "broadcast") f.broadcast_remaining_ms f.broadcast_max_ms f.next_refill_ms
    ∷ [])

-- the tiers of the newer format, unless there are none
airtime_tiers : Option (List AirtimeTier) → Option FlatAirtime → Result Error (List AirtimeTier)
unfolding flat_tiers
airtime_tiers (some (t ∷ ts)) flat = ok (t ∷ ts)
airtime_tiers (some []) flat = flat_tiers flat
airtime_tiers none flat = flat_tiers flat

module _ {F S : Type 0} (call : Bytes → Params F → S → Result CallError Bytes × S) where
  -- `unmarshal` reads a `SendResult`.
  module _ (unmarshal : Bytes → Option SendResult) where
    unfoldable pub send_message_with_params : List (Bytes × Value F) → Api S SendResult
    unfolding fill_message_id
    send_message_with_params params = do
      r ← query call (codes "bramble.sendMessage") (some params) (codes "SendResult") unmarshal
      done (ok (fill_message_id r))

    unfoldable pub send_broadcast_with_params : List (Bytes × Value F) → Api S SendResult
    unfolding fill_broadcast_id
    send_broadcast_with_params params = do
      r ← query call (codes "bramble.sendBroadcast") (some params) (codes "SendResult") unmarshal
      done (ok (fill_broadcast_id r))

    pub send : ℕ → Bytes → Api S SendResult
    unfolding send_message_with_params
    send dest words =
        send_message_with_params
          ((codes "dest", text (format_address dest)) ∷ (codes "text", text words) ∷ [])

    pub send_critical : ℕ → Bytes → Api S SendResult
    send_critical dest words = send_message_with_params (
        (codes "dest", text (format_address dest))
        ∷ (codes "text", text words)
        ∷ (codes "critical", bool true)
        ∷ [])

    pub send_broadcast : Bytes → Api S SendResult
    send_broadcast words = send_broadcast_with_params ((codes "text", text words) ∷ [])

    pub send_broadcast_critical : Bytes → Api S SendResult
    send_broadcast_critical words =
        send_broadcast_with_params ((codes "text", text words) ∷ (codes "critical", bool true) ∷ [])

    pub broadcast_on_channel : ℤ → Bytes → Api S SendResult
    broadcast_on_channel channel words = send_message_with_params (
        (codes "dest", text (codes "FFFFFFFE"))
        ∷ (codes "text", text words)
        ∷ (codes "channel", int channel)
        ∷ [])

    pub broadcast_on_channel_critical : ℤ → Bytes → Api S SendResult
    broadcast_on_channel_critical channel words = send_message_with_params (
        (codes "dest", text (codes "FFFFFFFE"))
        ∷ (codes "text", text words)
        ∷ (codes "channel", int channel)
        ∷ (codes "critical", bool true)
        ∷ [])

  unfoldable pub send_probe : (Bytes → Option SendProbeResult) → Api S SendProbeResult
  unfolding fill_probe_id
  send_probe unmarshal = do
    r ← query call (codes "bramble.sendProbe") none (codes "SendProbeResult") unmarshal
    done (ok (fill_probe_id r))

  -- `read_tiers` and `read_flat` read the two formats.
  pub airtime :
      (Bytes → Option (List AirtimeTier)) → (Bytes → Option FlatAirtime) → Api S (List AirtimeTier)
  unfolding airtime_tiers
  airtime read_tiers read_flat = do
    raw ← invoke call (codes "bramble.getAirtime") none
    done (airtime_tiers (read_tiers raw) (read_flat raw))
