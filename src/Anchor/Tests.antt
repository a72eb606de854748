-- ===== src/Anchor/Tests.antt =====
-- Runs of anchor.go on single inputs, with a toy signature scheme in place of Ed25519.
use bramble_go.Prelude.{
  ℕ, zero, suc, [], ◌∷◌, ◌++◌, some, Bytes, codes, length, ◌==◌, ◌≡◌, refl, arith, ok, err,
}
use bramble_go.Text.{trim_space, trim_prefix}
use bramble_go.Hex
use bramble_go.Anchor.{
  Ed25519, seed_size, public_key_size, not_after_hex, permanent_not_after, sign_endorsement,
  decode_hex_len, sign_endorsement_hex, encode_anchor_backup, parse_anchor_backup, anchor_seed,
  wrong_size,
}
use bramble_go.Anchor.Message.{endorsement_message_injective}
use bramble_go.Anchor.Backup.{parse_anchor_backup_roundtrip, parse_anchor_backup_canonical}
use bramble_go.Anchor.Signing.{Endorses, sign_endorsement_hex_complete, sign_endorsement_hex_sound}

abbrev repeat : ℕ → ℕ → Bytes
repeat zero b = []
repeat (suc n) b = b ∷ repeat n b

abbrev toy : Ed25519
toy = record {
  public = λ seed. seed;
  sign = λ seed msg. repeat 64 7;
  verify = λ key msg sig. length sig == 64;
  verify-sign = λ seed msg h. refl;
  length-sign = λ seed msg. refl;
  sign-IsBytes = λ seed msg. omega arith;
}

abbrev seed : Bytes
seed = repeat 32 0xab

abbrev node : Bytes
node = repeat 32 1

permanent : not_after_hex permanent_not_after ≡ codes "ffffffffffffffff"
unfolding not_after_hex Hex.encode
permanent = refl

short_seed : encode_anchor_backup (1 ∷ 2 ∷ []) ≡ err (wrong_size anchor_seed 32 2)
unfolding encode_anchor_backup
short_seed = refl

endorsement_message_injective_example : (node ≡ node) × (◌≡◌ {A = ℕ} 9 9)
endorsement_message_injective_example =
    endorsement_message_injective node node 9 9 refl refl (omega arith) (omega arith) refl

parse_anchor_backup_roundtrip_example :
    (text : Bytes) × (encode_anchor_backup seed ≡ ok text)
    × (parse_anchor_backup (codes " " ++ (text ++ (0x0a ∷ []))) ≡ ok seed)
    × (parse_anchor_backup (codes " " ++ (Hex.encode seed ++ (0x0a ∷ []))) ≡ ok seed)
parse_anchor_backup_roundtrip_example =
    parse_anchor_backup_roundtrip (codes " ") (0x0a ∷ []) seed (refl, tt) (refl, tt) (omega arith)
      refl

bare_seed : parse_anchor_backup (Hex.encode seed) ≡ ok seed
unfolding parse_anchor_backup Hex.encode Hex.decode trim_space trim_prefix decode_hex_len
bare_seed = refl

parse_anchor_backup_canonical_example :
    (length seed ≡ seed_size)
    × ((text : Bytes) × (encode_anchor_backup seed ≡ ok text)
        × (parse_anchor_backup text ≡ ok seed))
parse_anchor_backup_canonical_example =
    parse_anchor_backup_canonical (Hex.encode seed) seed bare_seed

sign_endorsement_hex_complete_example :
    (out : Bytes × Bytes) × (sign_endorsement_hex toy (Hex.encode seed) (Hex.encode node) 5
      ≡ ok out)
    × Endorses toy seed node 5 out
sign_endorsement_hex_complete_example =
    sign_endorsement_hex_complete toy seed node 5 (omega arith) (omega arith) refl refl

signed :
    sign_endorsement_hex toy (Hex.encode seed) (Hex.encode node) 5
    ≡ ok (not_after_hex 5, Hex.encode (repeat 64 7))
unfolding sign_endorsement_hex sign_endorsement Hex.encode Hex.decode trim_space decode_hex_len
signed = refl

sign_endorsement_hex_sound_example :
    (s n : Bytes) × (Hex.decode (trim_space (Hex.encode seed)) ≡ some s)
    × (Hex.decode (trim_space (Hex.encode node)) ≡ some n)
    × (length s ≡ seed_size)
    × (length n ≡ public_key_size)
    × Endorses toy s n 5 (not_after_hex 5, Hex.encode (repeat 64 7))
sign_endorsement_hex_sound_example =
    sign_endorsement_hex_sound toy (Hex.encode seed) (Hex.encode node) 5
      (not_after_hex 5, Hex.encode (repeat 64 7)) signed
