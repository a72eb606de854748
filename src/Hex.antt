-- ===== src/Hex.antt =====
-- `encoding/hex`, as anchor.go and network_key.go use it.
pub mod Laws
use bramble_go.Prelude.{
  ℕ, ◌+◌, ◌-◌, ◌*◌, ◌/◌, ◌%◌, ◌&&◌, [], ◌∷◌, Option, none, some, Bytes, ltb, leb, if◌then◌else◌,
}
use bramble_go.Prelude.Maybe.{◌>>=◌}

digit : ℕ → ℕ
digit n = if ltb n 10 then b'0' + n else b'a' + (n - 10)

-- `hex.EncodeToString`
unfoldable pub encode : Bytes → Bytes
unfolding digit
encode [] = []
encode (b ∷ bs) = digit (b / 16) ∷ digit (b % 16) ∷ encode bs

nibble : ℕ → Option ℕ
nibble c =
    if leb b'0' c && leb c b'9'
    then some (c - b'0')
    else if leb b'a' c && leb c b'f'
    then some (c - b'a' + 10)
    else if leb b'A' c && leb c b'F'
    then some (c - b'A' + 10)
    else none

-- `hex.DecodeString`: an odd length and a byte that is no digit are errors.
unfoldable pub decode : Bytes → Option Bytes
unfolding nibble
decode [] = some []
decode (a ∷ []) = none
decode (a ∷ b ∷ s) = do x ← nibble a; y ← nibble b; rest ← decode s; some ((x * 16 + y) ∷ rest)
