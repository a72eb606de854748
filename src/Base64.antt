-- ===== src/Base64.antt =====
-- `encoding/base64`: `StdEncoding.DecodeString`, which drops line breaks, wants the padding and
-- ignores the unused bits of the last digit, and the encoder that a device runs.
pub mod Laws
use bramble_go.Prelude.{
  ℕ, ◌+◌, ◌-◌, ◌*◌, ◌/◌, ◌%◌, ◌&&◌, ◌||◌, [], ◌∷◌, Option, none, some, Bytes, ltb, leb, ◌==◌,
  if◌then◌else◌, is_empty,
}
use bramble_go.Prelude.Maybe.{◌>>=◌}

abbrev pub pad : ℕ
pad = b'='

sextet : ℕ → Option ℕ
sextet c =
    if leb b'A' c && leb c b'Z'
    then some (c - b'A')
    else if leb b'a' c && leb c b'z'
    then some (c - b'a' + 26)
    else if leb b'0' c && leb c b'9'
    then some (c - b'0' + 52)
    else if c == b'+'
    then some 62
    else if c == b'/'
    then some 63
    else none

digit : ℕ → ℕ
digit n =
    if ltb n 26
    then n + b'A'
    else if ltb n 52
    then n - 26 + b'a'
    else if ltb n 62
    then n - 52 + b'0'
    else if n == 62
    then b'+'
    else b'/'

drop_breaks : Bytes → Bytes
drop_breaks [] = []
drop_breaks (c ∷ s) = let rest = drop_breaks s in if c == 0x0a || c == 0x0d then rest else c ∷ rest

-- four digits, the first two read, the text behind them and what it decodes to
quantum_end : ℕ → ℕ → ℕ → ℕ → Bytes → Option Bytes → Option Bytes
quantum_end x y c d s rest =
    if c == pad
    then if d == pad && is_empty s then some ((x * 4 + y / 16) ∷ []) else none
    else if d == pad
    then (sextet c >>= λ z.
        if is_empty s then some ((x * 4 + y / 16) ∷ (y % 16 * 16 + z / 4) ∷ []) else none)
    else (do
      z ← sextet c
      w ← sextet d
      r ← rest
      some ((x * 4 + y / 16) ∷ (y % 16 * 16 + z / 4) ∷ (z % 4 * 64 + w) ∷ r))

quantum : ℕ → ℕ → ℕ → ℕ → Bytes → Option Bytes → Option Bytes
unfolding quantum_end
quantum a b c d s rest = do x ← sextet a; y ← sextet b; quantum_end x y c d s rest

quanta : Bytes → Option Bytes
unfolding quantum sextet
quanta [] = some []
quanta (a ∷ b ∷ c ∷ d ∷ s) = quantum a b c d s (quanta s)
quanta _ = none

unfoldable pub decode_string : Bytes → Option Bytes
unfolding quanta drop_breaks
decode_string s = quanta (drop_breaks s)

-- `StdEncoding.EncodeToString`
unfoldable pub encode : Bytes → Bytes
unfolding digit
encode [] = []
encode (p ∷ []) = digit (p / 4) ∷ digit (p % 4 * 16) ∷ pad ∷ pad ∷ []
encode (p ∷ q ∷ []) = digit (p / 4) ∷ digit (p % 4 * 16 + q / 16) ∷ digit (q % 16 * 4) ∷ pad ∷ []
encode (p ∷ q ∷ r ∷ s) =
    digit (p / 4)
    ∷ digit (p % 4 * 16 + q / 16)
    ∷ digit (q % 16 * 4 + r / 64)
    ∷ digit (r % 64)
    ∷ encode s
