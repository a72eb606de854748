-- ===== src/Anchor/Signing.antt =====
-- anchor.go: the endorsements that `SignEndorsementHex` issues, for any Ed25519.
use bramble_go.Prelude.{
  ℕ, ◌*◌, true, some, Bytes, IsBytes, length, ◌≡◌, refl, ap, ◌∙◌, arith, ok, >>=-eq-ok,
}
use bramble_go.Text.{trim_space}
use bramble_go.Hex
use bramble_go.Hex.Laws.{decode-encode, length-encode}
use bramble_go.Anchor.{
  Ed25519, anchor_seed, node_pub, seed_size, public_key_size, decode_hex_len, endorsement_message,
  not_after_hex, sign_endorsement, sign_endorsement_hex,
}
use bramble_go.Anchor.Backup.{decode_hex_len-encode_bare, decode_hex_len_sound}

module _ (e : Ed25519) where
  open e use {public, sign, verify, verify-sign, length-sign, sign-IsBytes}

  -- The texts are those that `Client.SetEndorsement` sends: the expiry time, and a signature of the
  -- message over the node's key that the public key of the seed verifies.
  abbrev pub Endorses : Bytes → Bytes → ℕ → Bytes × Bytes → Type 0
  Endorses seed node n (time_hex, sig_hex) =
      (time_hex ≡ not_after_hex n)
      × (length sig_hex ≡ 128)
      × ((sig : Bytes) × (Hex.decode sig_hex ≡ some sig)
          × (verify (public seed) (endorsement_message node n) sig ≡ true))

  sign_endorsement_lem :
      (seed node : Bytes) (n : ℕ)
      → length seed ≡ seed_size
      → length node ≡ public_key_size
      → sign_endorsement e seed node n ≡ ok (sign seed (endorsement_message node n))
  unfolding sign_endorsement
  sign_endorsement_lem seed node n hs hn = ground arith

  issued_Endorses :
      (seed node : Bytes) (n : ℕ)
      → length seed ≡ seed_size
      → Endorses seed node n (not_after_hex n, Hex.encode (sign seed (endorsement_message node n)))
  issued_Endorses seed node n h =
      let sig = sign seed (endorsement_message node n) in
      (
        refl,
        length-encode sig ∙ ap (λ (k : ℕ). k * 2) (length-sign seed (endorsement_message node n)),
        (
          sig,
          decode-encode sig (sign-IsBytes seed (endorsement_message node n)),
          verify-sign seed (endorsement_message node n) h,
        ),
      )

  -- For a 32-byte seed and a 32-byte node key in hexadecimal `SignEndorsementHex` succeeds, and
  -- what it issues endorses the node under the seed's public key.
  pub sign_endorsement_hex_complete :
      (seed node : Bytes) (n : ℕ)
      → IsBytes seed
      → IsBytes node
      → length seed ≡ seed_size
      → length node ≡ public_key_size
      → (out : Bytes × Bytes) × (sign_endorsement_hex e (Hex.encode seed) (Hex.encode node) n
          ≡ ok out)
        × Endorses seed node n out
  unfolding sign_endorsement_hex
  sign_endorsement_hex_complete seed node n bs bn hs hn = (
    (not_after_hex n, Hex.encode (sign seed (endorsement_message node n))),
    rw (
      decode_hex_len-encode_bare seed seed_size anchor_seed bs hs (omega arith),
      decode_hex_len-encode_bare node public_key_size node_pub bn hn (omega arith),
      sign_endorsement_lem seed node n hs hn,
    ),
    issued_Endorses seed node n hs,
  )

  -- Whenever `SignEndorsementHex` succeeds, its texts decode to a 32-byte seed and a 32-byte node
  -- key, and what it issues endorses that node under that seed's public key.
  pub sign_endorsement_hex_sound :
      (seed_hex node_hex : Bytes) (n : ℕ) (out : Bytes × Bytes)
      → sign_endorsement_hex e seed_hex node_hex n ≡ ok out
      → (seed node : Bytes) × (Hex.decode (trim_space seed_hex) ≡ some seed)
        × (Hex.decode (trim_space node_hex) ≡ some node)
        × (length seed ≡ seed_size)
        × (length node ≡ public_key_size)
        × Endorses seed node n out
  unfolding sign_endorsement_hex
  sign_endorsement_hex_sound seed_hex node_hex n out h =
      let (seed, read_seed, h1) = >>=-eq-ok (decode_hex_len seed_hex seed_size anchor_seed) _ h in
      let (node, read_node, h2) =
        >>=-eq-ok (decode_hex_len node_hex public_key_size node_pub) _ h1 in
      let (ds, _, ls) = decode_hex_len_sound seed_hex seed seed_size anchor_seed read_seed in
      let (dn, _, ln) = decode_hex_len_sound node_hex node public_key_size node_pub read_node in
      let h3 = rw (sign_endorsement_lem seed node n ls ln) at h2 in
      let same : (not_after_hex n, Hex.encode (sign seed (endorsement_message node n))) ≡ out =
        cc in
      (seed, node, ds, dn, ls, ln, rw (← same) (issued_Endorses seed node n ls))
