-- ===== src/Ble/Connect/Scan.antt =====
-- transport/ble.go: which device of a scan `Connect` takes.
use bramble_go.Prelude.{
  ℕ, Bool, false, not, ◌||◌, List, [], ◌∷◌, Option, none, some, Bytes, if◌then◌else◌, is_empty,
}
use bramble_go.Text.{to_lower, search, equal}

-- The UUIDs of the Nordic UART Service
abbrev pub nus_uuid : ℕ → Bytes
nus_uuid n =
    0x6e ∷ 0x40 ∷ 0x00 ∷ n ∷ 0xb5 ∷ 0xa3 ∷ 0xf3 ∷ 0x93 ∷ 0xe0 ∷ 0xa9 ∷ 0xe5 ∷ 0x0e ∷ 0x24 ∷ 0xdc
    ∷ 0xca ∷ 0x9e ∷ []

abbrev pub nus_service_uuid : Bytes
nus_service_uuid = nus_uuid 1

abbrev pub nus_tx_uuid : Bytes
nus_tx_uuid = nus_uuid 2

abbrev pub nus_rx_uuid : Bytes
nus_rx_uuid = nus_uuid 3

-- A `ScanResult`, with an address of `A`.
pub record Advert (A : Type 0) : Type 0 where
  pub local_name : Bytes
  pub service_uuids : List Bytes
  pub address : A

pub has_uuid : Bytes → List Bytes → Bool
has_uuid uuid [] = false
has_uuid uuid (u ∷ us) = equal u uuid || has_uuid uuid us

-- whether the callback of the scan takes a device
unfoldable pub is_wanted : {A : Type 0} → Bytes → Advert A → Bool
unfolding has_uuid to_lower search
is_wanted device_name r =
    if is_empty device_name
    then has_uuid nus_service_uuid r.service_uuids || not (is_empty r.local_name)
    else search (to_lower r.local_name) (to_lower device_name)

unfoldable pub first_wanted : {A : Type 0} → Bytes → List (Advert A) → Option (Advert A)
unfolding is_wanted
first_wanted device_name [] = none
first_wanted device_name (r ∷ rs) =
    let rest = first_wanted device_name rs in if is_wanted device_name r then some r else rest
