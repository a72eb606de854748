-- ===== src/Query/Laws.antt =====
-- Query strings whose keys and values are letters and digits.
use bramble_go.Prelude.{ℕ, ◌<◌, false, [], ◌∷◌, some, Bytes, All, codes, ◌≡◌, refl, arith}
use bramble_go.Text.{cut, contains}
use bramble_go.Text.Laws.{Lacks, split-Lacks}
use bramble_go.Hex.Laws.{IsHexDigit}
use bramble_go.Query.{escape, unescape, Values, encode_one, parse_part, parse_query, get}

pub escape-hex : (s : Bytes) → All IsHexDigit s → escape s ≡ s
unfolding escape
escape-hex [] h = refl
escape-hex (c ∷ s) h = ground (arith, escape-hex s h.1)

unescape-hex : (s : Bytes) → All IsHexDigit s → unescape s ≡ some s
unfolding unescape
unescape-hex [] h = refl
unescape-hex (c ∷ []) h = ground arith
unescape-hex (c ∷ a ∷ []) h = ground arith
unescape-hex (c ∷ a ∷ b ∷ s) h = ground (arith, unescape-hex (a ∷ b ∷ s) h.1)

hex-Lacks : (s : Bytes) (b : ℕ) → b < b'0' → All IsHexDigit s → Lacks b s
hex-Lacks [] b h v = tt
hex-Lacks (c ∷ s) b h v = (ground arith, hex-Lacks s b h v.1)

contains_hex : (s : Bytes) → All IsHexDigit s → contains s b';' ≡ false
unfolding contains
contains_hex [] h = refl
contains_hex (c ∷ s) h = ground (arith, contains_hex s h.1)

part_k : (s : Bytes) → All IsHexDigit s → parse_part (b'k' ∷ b'=' ∷ s) ≡ some ((codes "k", s) ∷ [])
unfolding parse_part contains cut unescape
part_k s h = rw (contains_hex s h, unescape-hex s h)

k-Lacks : (s : Bytes) → All IsHexDigit s → Lacks b'&' (b'k' ∷ b'=' ∷ s)
k-Lacks s h = (omega arith, (omega arith, hex-Lacks s b'&' (omega arith) h))

pub parse_query-k :
    (s : Bytes) → All IsHexDigit s → parse_query (b'k' ∷ b'=' ∷ s) ≡ some ((codes "k", s) ∷ [])
unfolding parse_query
parse_query-k s h = rw (split-Lacks (b'k' ∷ b'=' ∷ s) b'&' (k-Lacks s h), part_k s h)

pub get-k : (s : Bytes) (m : Values) → get (codes "k") ((codes "k", s) ∷ m) ≡ s
unfolding get
get-k s m = refl

pub encode_one-k : (s : Bytes) → All IsHexDigit s → encode_one (codes "k") s ≡ b'k' ∷ b'=' ∷ s
unfolding encode_one escape
encode_one-k s h = rw (escape-hex s h)
