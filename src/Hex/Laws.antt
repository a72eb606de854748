-- ===== src/Hex/Laws.antt =====
-- Hexadecimal text and the bytes that it spells.
use bramble_go.Prelude.{
  All, ◌⊎◌, ◌≤◌, ℕ, ◌+◌, ◌*◌, ◌/◌, ◌%◌, ◌<◌, ◌&&◌, [], ◌∷◌, some, map, Bytes, IsBytes, length, leb,
  if◌then◌else◌, ◌≡◌, refl, arith,
}
use bramble_go.Prelude.Maybe.{>>=-eq-some}
use bramble_go.Hex.{digit, encode, nibble, decode}

nibble-digit : (n : ℕ) → n < 16 → nibble (digit n) ≡ some n
unfolding nibble digit
nibble-digit n h = ground arith

-- Decoding undoes encoding.
pub decode-encode : (bs : Bytes) → IsBytes bs → decode (encode bs) ≡ some bs
unfolding decode encode
decode-encode [] h = refl
decode-encode (b ∷ bs) h =
    ground (arith, nibble-digit (b / 16), nibble-digit (b % 16), decode-encode bs h.1)

pub length-encode : (bs : Bytes) → length (encode bs) ≡ length bs * 2
unfolding encode
length-encode [] = omega arith
length-encode (b ∷ bs) = omega (arith, length-encode bs)

-- The lower-case form of a digit.
abbrev pub lower : ℕ → ℕ
lower c = if leb b'A' c && leb c b'Z' then c + 32 else c

digit-nibble : (c n : ℕ) → nibble c ≡ some n → (digit n ≡ lower c) × (n < 16)
unfolding nibble digit
digit-nibble c n h = ground arith

decode_pair :
    (a b x y : ℕ)
    → nibble a ≡ some x
    → nibble b ≡ some y
    → (s rest : Bytes) → encode rest ≡ map lower s
    → encode ((x * 16 + y) ∷ rest) ≡ map lower (a ∷ b ∷ s)
unfolding encode
decode_pair a b x y ha hb s rest h =
    let (da, la) = digit-nibble a x ha in
    let (db, lb) = digit-nibble b y hb in
    let high : (x * 16 + y) / 16 ≡ x = omega arith in
    let low : (x * 16 + y) % 16 ≡ y = omega arith in rw (high, low, da, db, h)

-- A decoded text spells its bytes, in digits of either case.
pub decode_sound :
    (s r : Bytes)
    → decode s ≡ some r
    → (encode r ≡ map lower s) × IsBytes r × (length s ≡ length r * 2)
unfolding decode encode
decode_sound [] r h = let e : [] ≡ r = cc in rw (← e) (refl, tt, refl)
decode_sound (a ∷ []) r h = cc
decode_sound (a ∷ b ∷ s) r h =
    let (x, hx, h1) = >>=-eq-some (nibble a) _ h in
    let (y, hy, h2) = >>=-eq-some (nibble b) _ h1 in
    let small_x = (digit-nibble a x hx).1 in
    let small_y = (digit-nibble b y hy).1 in
    let (rest, hs, h3) = >>=-eq-some (decode s) _ h2 in
    let e : (x * 16 + y) ∷ rest ≡ r = cc in
    let (spelt, bytes, size) = decode_sound s rest hs in
    rw (← e) (decode_pair a b x y hx hy s rest spelt, (omega arith, bytes), omega arith)

-- A digit as `encode` writes it.
abbrev pub IsHexDigit : ℕ → Type 0
IsHexDigit c = ((b'0' ≤ c) × (c ≤ b'9')) ⊎ ((b'a' ≤ c) × (c ≤ b'f'))

digit-IsHexDigit : (n : ℕ) → n < 16 → IsHexDigit (digit n)
unfolding digit
digit-IsHexDigit n h = ground arith

pub encode-IsHexDigit : (bs : Bytes) → IsBytes bs → All IsHexDigit (encode bs)
unfolding encode
encode-IsHexDigit [] h = tt
encode-IsHexDigit (b ∷ bs) h = (
  digit-IsHexDigit (b / 16) (omega arith),
  (digit-IsHexDigit (b % 16) (omega arith), encode-IsHexDigit bs h.1),
)
