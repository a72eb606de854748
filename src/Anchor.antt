-- ===== src/Anchor.antt =====
-- anchor.go: the trust anchor's seed, endorsements and backup texts. Ed25519, SHA-256 and the
-- random source are parameters.
pub mod Message
pub mod Backup
pub mod Signing
mod Tests
use bramble_go.Prelude.{
  ℕ, ◌-◌, ◌/◌, ◌%◌, ◌^◌, ◌<◌, Bool, true, List, [], ◌∷◌, ◌++◌, Bytes, IsBytes, codes, length, take,
  ◌==◌, ◌≡◌, Result, ok, err, guard, or_err, map_err, ◌>>=◌, ◌>>◌,
}
use bramble_go.Text.{trim_space, trim_prefix}
use bramble_go.Hex

-- The `what` of a message.
pub data What : Type 0 where
  anchor_seed node_pub network_key : What

pub data Error : Type 0 where
  -- "%s: invalid hex"
  invalid_hex : What → Error
  -- "%s must be %d bytes, got %d"
  wrong_size : What → ℕ → ℕ → Error
  rng_failed : Error

abbrev pub seed_size : ℕ
seed_size = 32

abbrev pub public_key_size : ℕ
public_key_size = 32

abbrev pub endorsement_context : Bytes
endorsement_context = codes "bramble-endorse-v1"

abbrev pub anchor_backup_prefix : Bytes
anchor_backup_prefix = codes "bramble://anchor/v1?sk="

abbrev pub permanent_not_after : ℕ
permanent_not_after = 2 ^ 64 - 1

-- `crypto/ed25519`: a key pair is named by its seed.
pub record Ed25519 : Type 0 where
  pub public : Bytes → Bytes
  pub sign : Bytes → Bytes → Bytes
  pub verify : Bytes → Bytes → Bytes → Bool
  pub verify-sign :
      (seed msg : Bytes) → length seed ≡ seed_size → verify (public seed) msg (sign seed msg) ≡ true
  pub length-sign : (seed msg : Bytes) → length (sign seed msg) ≡ 64
  pub sign-IsBytes : (seed msg : Bytes) → IsBytes (sign seed msg)

-- `rand.Read` fills a buffer of the given size, or fails.
pub generate_anchor_seed : (ℕ → Result (Unit {0}) Bytes) → Result Error Bytes
generate_anchor_seed read = map_err (λ _. rng_failed) (read seed_size)

-- `SHA256(pub)[0:4]` in hexadecimal
pub anchor_fingerprint : (Bytes → Bytes) → Bytes → Bytes
anchor_fingerprint sha256 anchor_pub = Hex.encode (take 4 (sha256 anchor_pub))

-- `binary.BigEndian.PutUint64`
unfoldable pub put_uint64 : ℕ → Bytes
put_uint64 n =
    n / 2 ^ 56 % 256
    ∷ n / 2 ^ 48 % 256
    ∷ n / 2 ^ 40 % 256
    ∷ n / 2 ^ 32 % 256
    ∷ n / 2 ^ 24 % 256
    ∷ n / 2 ^ 16 % 256
    ∷ n / 2 ^ 8 % 256
    ∷ n % 256
    ∷ []

pub endorsement_message : Bytes → ℕ → Bytes
unfolding put_uint64
endorsement_message node_ed25519_pub not_after =
    endorsement_context ++ (node_ed25519_pub ++ put_uint64 not_after)

pub not_after_hex : ℕ → Bytes
unfolding put_uint64
not_after_hex not_after = Hex.encode (put_uint64 not_after)

unfoldable pub decode_hex_len : Bytes → ℕ → What → Result Error Bytes
decode_hex_len s want_bytes what = do
  b ← or_err (Hex.decode (trim_space s)) (invalid_hex what)
  guard (length b == want_bytes) (wrong_size what want_bytes (length b))
  ok b

module _ (e : Ed25519) where
  open e use {public, sign}

  pub anchor_public_key : Bytes → Result Error Bytes
  anchor_public_key seed = do
    guard (length seed == seed_size) (wrong_size anchor_seed seed_size (length seed))
    ok (public seed)

  pub sign_endorsement : Bytes → Bytes → ℕ → Result Error Bytes
  sign_endorsement seed node_ed25519_pub not_after = do
    guard (length seed == seed_size) (wrong_size anchor_seed seed_size (length seed))
    guard (length node_ed25519_pub == public_key_size)
        (wrong_size node_pub public_key_size (length node_ed25519_pub))
    ok (sign seed (endorsement_message node_ed25519_pub not_after))

  pub sign_endorsement_hex : Bytes → Bytes → ℕ → Result Error (Bytes × Bytes)
  sign_endorsement_hex seed_hex node_ed25519_pub_hex not_after = do
    seed ← decode_hex_len seed_hex seed_size anchor_seed
    node ← decode_hex_len node_ed25519_pub_hex public_key_size node_pub
    sig ← sign_endorsement seed node not_after
    ok (not_after_hex not_after, Hex.encode sig)

pub encode_anchor_backup : Bytes → Result Error Bytes
encode_anchor_backup seed = do
  guard (length seed == seed_size) (wrong_size anchor_seed seed_size (length seed))
  ok (anchor_backup_prefix ++ Hex.encode seed)

pub parse_anchor_backup : Bytes → Result Error Bytes
parse_anchor_backup s =
    decode_hex_len (trim_prefix (trim_space s) anchor_backup_prefix) seed_size anchor_seed
