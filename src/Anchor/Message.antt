-- ===== src/Anchor/Message.antt =====
-- anchor.go: the layout of the signed message, and the expiry time in hexadecimal.
use bramble_go.Prelude.{
  List, ℕ, ◌+◌, ◌*◌, ◌^◌, ◌<◌, [], ◌∷◌, ◌++◌, Bytes, length, take, drop, take_prefix, drop_prefix,
  ◌≡◌, sym, ap, ◌∙◌, arith,
}
use bramble_go.Anchor.{put_uint64, endorsement_message, endorsement_context, public_key_size}

-- The number that bytes spell in big-endian order behind `n`.
abbrev pub big_endian : ℕ → Bytes → ℕ
big_endian n [] = n
big_endian n (b ∷ bs) = big_endian (n * 256 + b) bs

big_endian-put_uint64 : (n : ℕ) → n < 2 ^ 64 → big_endian 0 (put_uint64 n) ≡ n
unfolding put_uint64
big_endian-put_uint64 n h = omega arith

append_cancel {ℓ} : {A : Type ℓ} (xs : List A) {ys zs : List A} → xs ++ ys ≡ xs ++ zs → ys ≡ zs
append_cancel [] h = h
append_cancel (x ∷ xs) h = append_cancel xs (cc)

-- The signed message determines its parts: two messages over 32-byte node keys and 64-bit times are
-- equal only if the keys and the times are.
pub endorsement_message_injective :
    (p q : Bytes) (m n : ℕ)
    → length p ≡ public_key_size
    → length q ≡ public_key_size
    → m < 2 ^ 64
    → n < 2 ^ 64
    → endorsement_message p m ≡ endorsement_message q n
    → (p ≡ q) × (m ≡ n)
unfolding endorsement_message
endorsement_message_injective p q m n hp hq hm hn h =
    let tail = append_cancel endorsement_context h in
    let key : p ≡ q =
      sym (take_of p (put_uint64 m) hp) ∙ ap (take 32) tail ∙ take_of q (put_uint64 n) hq in
    let time : put_uint64 m ≡ put_uint64 n =
      sym (drop_of p (put_uint64 m) hp) ∙ ap (drop 32) tail ∙ drop_of q (put_uint64 n) hq in
    (key, sym (big_endian-put_uint64 m hm) ∙ ap (big_endian 0) time ∙ big_endian-put_uint64 n hn)
  where
    take_of : (p r : Bytes) → length p ≡ public_key_size → take 32 (p ++ r) ≡ p
    take_of p r e = rw (← e) (take_prefix p r)

    drop_of : (p r : Bytes) → length p ≡ public_key_size → drop 32 (p ++ r) ≡ r
    drop_of p r e = rw (← e) (drop_prefix p r)
