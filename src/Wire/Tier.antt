-- ===== src/Wire/Tier.antt =====
-- types.go: `LocationTier`, which the node writes as a text or as a number.
use bramble_go.Prelude.{
  refl, zero, suc, [], Option, none, some, Bytes, codes, ℤ, pos, is_empty, if◌then◌else◌,
}
use bramble_go.Json.{Json, null, int, text, Codec, fits_int, is_empty_lem}

abbrev pub location_tier_full : Bytes
location_tier_full = codes "full"

abbrev pub location_tier_coarse : Bytes
location_tier_coarse = codes "coarse"

abbrev pub location_tier_presence : Bytes
location_tier_presence = codes "presence"

unfoldable pub location_tier_from_int : ℤ → Bytes
location_tier_from_int (pos zero) = location_tier_full
location_tier_from_int (pos (suc zero)) = location_tier_coarse
location_tier_from_int (pos (suc (suc zero))) = location_tier_presence
location_tier_from_int _ = location_tier_coarse

-- `UnmarshalJSON`: `null` reads as an empty text
unfoldable pub unmarshal_tier : {F : Type 0} → Json F → Bytes → Option Bytes
unfolding location_tier_from_int
unmarshal_tier null b = some []
unmarshal_tier (text t) b = some t
unmarshal_tier (int i) b = if fits_int i then some (location_tier_from_int i) else none
unmarshal_tier _ b = none

unfoldable pub tier_codec : {F : Type 0} → Codec F Bytes
unfolding unmarshal_tier
tier_codec = record {
  decode = unmarshal_tier;
  encode = text;
  zero = [];
  is_zero = is_empty;
  IsValid = λ t. Unit;
  decode-encode = λ t h. refl;
  zero_only = λ t h. is_empty_lem t;
}
