-- ===== src/Base64/Laws.antt =====
-- Decoding undoes encoding.
use bramble_go.Prelude.{
  ℕ, ◌+◌, ◌*◌, ◌/◌, ◌%◌, ◌<◌, [], ◌∷◌, some, Bytes, IsBytes, All, ◌≡◌, ◌≢◌, refl, ◌∙◌, arith,
}
use bramble_go.Base64.{pad, sextet, digit, drop_breaks, quantum, quanta, decode_string, encode}

sextet-digit : (n : ℕ) → n < 64 → sextet (digit n) ≡ some n
unfolding sextet digit
sextet-digit n h = ground arith

-- a digit is neither padding nor a line break
abbrev IsPlain : ℕ → Type 0
IsPlain c = (c ≢ 0x0a) × (c ≢ 0x0d)

digit-IsPlain : (n : ℕ) → n < 64 → IsPlain (digit n) × (digit n ≢ pad)
unfolding digit
digit-IsPlain n h = ground arith

drop_breaks_plain : (s : Bytes) → All IsPlain s → drop_breaks s ≡ s
unfolding drop_breaks
drop_breaks_plain [] h = refl
drop_breaks_plain (c ∷ s) h = ground (arith, drop_breaks_plain s h.1)

encode-IsPlain : (s : Bytes) → IsBytes s → All IsPlain (encode s)
unfolding encode
encode-IsPlain [] h = tt
encode-IsPlain (p ∷ []) h = (
  (digit-IsPlain (p / 4) (omega arith)).0,
  ((digit-IsPlain (p % 4 * 16) (omega arith)).0, omega arith),
)
encode-IsPlain (p ∷ q ∷ []) h = (
  (digit-IsPlain (p / 4) (omega arith)).0,
  (
    (digit-IsPlain (p % 4 * 16 + q / 16) (omega arith)).0,
    ((digit-IsPlain (q % 16 * 4) (omega arith)).0, omega arith),
  ),
)
encode-IsPlain (p ∷ q ∷ r ∷ s) h = (
  (digit-IsPlain (p / 4) (omega arith)).0,
  (
    (digit-IsPlain (p % 4 * 16 + q / 16) (omega arith)).0,
    (
      (digit-IsPlain (q % 16 * 4 + r / 64) (omega arith)).0,
      ((digit-IsPlain (r % 64) (omega arith)).0, encode-IsPlain s h.1.1.1),
    ),
  ),
)

module _ (x y : ℕ) (hx : x < 64) (hy : y < 64) where
  quantum_one : quantum (digit x) (digit y) pad pad [] (some []) ≡ some ((x * 4 + y / 16) ∷ [])
  unfolding quantum
  quantum_one = rw (sextet-digit x hx, sextet-digit y hy)

  quantum_two :
      (z : ℕ)
      → z < 64
      → quantum (digit x) (digit y) (digit z) pad [] (some [])
        ≡ some ((x * 4 + y / 16) ∷ (y % 16 * 16 + z / 4) ∷ [])
  unfolding quantum
  quantum_two z hz =
      let plain = (digit-IsPlain z hz).1 in
      rw (sextet-digit x hx, sextet-digit y hy) (ground (arith, sextet-digit z hz))

  quantum_three :
      (z w : ℕ) (s r : Bytes)
      → z < 64
      → w < 64
      → quantum (digit x) (digit y) (digit z) (digit w) s (some r)
        ≡ some ((x * 4 + y / 16) ∷ (y % 16 * 16 + z / 4) ∷ (z % 4 * 64 + w) ∷ r)
  unfolding quantum
  quantum_three z w s r hz hw =
      let plain_z = (digit-IsPlain z hz).1 in
      let plain_w = (digit-IsPlain w hw).1 in
      rw (sextet-digit x hx, sextet-digit y hy)
        (ground (arith, sextet-digit z hz, sextet-digit w hw))

quanta-encode : (s : Bytes) → IsBytes s → quanta (encode s) ≡ some s
unfolding quanta encode
quanta-encode [] h = refl
quanta-encode (p ∷ []) h =
    quantum_one (p / 4) (p % 4 * 16) (omega arith) (omega arith) ∙ ground arith
quanta-encode (p ∷ q ∷ []) h =
    quantum_two (p / 4) (p % 4 * 16 + q / 16) (omega arith) (omega arith) (q % 16 * 4) (omega arith)
    ∙ ground arith
quanta-encode (p ∷ q ∷ r ∷ s) h = rw (quanta-encode s h.1.1.1) (
    quantum_three (p / 4) (p % 4 * 16 + q / 16) (omega arith) (omega arith) (q % 16 * 4 + r / 64)
      (r % 64) (encode s) s (omega arith) (omega arith)
    ∙ ground arith)

-- Decoding undoes encoding, for every text of bytes.
pub decode_string-encode : (s : Bytes) → IsBytes s → decode_string (encode s) ≡ some s
unfolding decode_string
decode_string-encode s h =
    rw (drop_breaks_plain (encode s) (encode-IsPlain s h)) (quanta-encode s h)
