-- ===== src/NetworkKey/Tests.antt =====
-- Runs of network_key.go on single inputs.
use bramble_go.Prelude.{ℕ, zero, suc, [], ◌∷◌, ◌++◌, Bytes, codes, ◌≡◌, refl, arith, ok, err}
use bramble_go.Text.{trim_space, cut_prefix, split, cut, contains}
use bramble_go.Hex
use bramble_go.Query
use bramble_go.Anchor.{decode_hex_len}
use bramble_go.NetworkKey.{
  encode_network_key_share, parse_network_key_share, missing_k, malformed_query,
}
use bramble_go.NetworkKey.Share.{parse_network_key_share_roundtrip}

abbrev repeat : ℕ → ℕ → Bytes
repeat zero b = []
repeat (suc n) b = b ∷ repeat n b

abbrev key : Bytes
key = repeat 32 0x5c

no_k : parse_network_key_share (codes "bramble://net/v1?name=fleet") ≡ err missing_k
unfolding parse_network_key_share trim_space cut_prefix split cut contains Query.parse_query
    Query.unescape Query.get
no_k = refl

semicolon : parse_network_key_share (codes "bramble://net/v1?k=00;x") ≡ err malformed_query
unfolding parse_network_key_share trim_space cut_prefix split cut contains Query.parse_query
semicolon = refl

parse_network_key_share_roundtrip_example :
    (text : Bytes) × (encode_network_key_share key ≡ ok text)
    × (parse_network_key_share (codes "  " ++ (text ++ (0x0d ∷ 0x0a ∷ []))) ≡ ok key)
    × (parse_network_key_share (codes "  " ++ (Hex.encode key ++ (0x0d ∷ 0x0a ∷ []))) ≡ ok key)
parse_network_key_share_roundtrip_example =
    parse_network_key_share_roundtrip (codes "  ") (0x0d ∷ 0x0a ∷ []) key (refl, (refl, tt))
      (refl, (refl, tt)) (omega arith) refl

abbrev share : Bytes
share = codes "bramble://net/v1?k=5c5c5c5c5c5c5c5c5c5c5c5c5c5c5c5c5c5c5c5c5c5c5c5c5c5c5c5c5c5c5c5c"

shared : encode_network_key_share key ≡ ok share
unfolding encode_network_key_share Hex.encode Query.encode_one Query.escape
shared = refl

read_share : parse_network_key_share share ≡ ok key
unfolding parse_network_key_share trim_space cut_prefix split cut contains Query.parse_query
    Query.unescape Query.get decode_hex_len Hex.decode
read_share = refl
