-- ===== src/NetworkKey.antt =====
-- network_key.go: the fleet's network key, its fingerprint and its share text.
pub mod Share
mod Tests
use bramble_go.Prelude.{
  ℕ, Bool, List, [], ◌∷◌, ◌++◌, Option, none, some, Bytes, codes, length, take, ◌==◌, if◌then◌else◌,
  is_empty, Result, ok, err, guard, or_err, map_err, ◌>>=◌, ◌>>◌, not,
}
use bramble_go.Text.{trim_space, cut_prefix}
use bramble_go.Hex
use bramble_go.Query
use bramble_go.Anchor.{network_key, decode_hex_len}
use bramble_go.Anchor

abbrev pub network_key_size : ℕ
network_key_size = 32

abbrev pub network_key_share_prefix : Bytes
network_key_share_prefix = codes "bramble://net/v1?"

pub data Error : Type 0 where
  key_error : Anchor.Error → Error
  malformed_query : Error
  missing_k : Error
  rng_failed : Error

pub generate_network_key_seed : (ℕ → Result (Unit {0}) Bytes) → Result Error Bytes
generate_network_key_seed read = map_err (λ _. rng_failed) (read network_key_size)

-- `SHA256(key)[0:4]` in hexadecimal
pub network_key_fingerprint : (Bytes → Bytes) → Bytes → Bytes
network_key_fingerprint sha256 key = Hex.encode (take 4 (sha256 key))

pub encode_network_key_share : Bytes → Result Error Bytes
encode_network_key_share key = do
  guard (length key == network_key_size)
      (key_error (Anchor.wrong_size network_key network_key_size (length key)))
  ok (network_key_share_prefix ++ Query.encode_one (codes "k") (Hex.encode key))

read_key : Bytes → Result Error Bytes
read_key s = map_err key_error (decode_hex_len s network_key_size network_key)

read_query : Bytes → Result Error Bytes
unfolding read_key
read_query rest = do
  params ← or_err (Query.parse_query rest) malformed_query
  guard (not (is_empty (Query.get (codes "k") params))) missing_k
  read_key (Query.get (codes "k") params)

-- the trimmed text, and what stands behind the prefix if it has that
read_trimmed : Bytes → Option Bytes → Result Error Bytes
unfolding read_query read_key
read_trimmed t (some rest) = read_query rest
read_trimmed t none = read_key t

pub parse_network_key_share : Bytes → Result Error Bytes
unfolding read_trimmed
parse_network_key_share s =
    read_trimmed (trim_space s) (cut_prefix (trim_space s) network_key_share_prefix)
