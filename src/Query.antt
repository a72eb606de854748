-- ===== src/Query.antt =====
-- The query strings of `net/url`, as network_key.go uses them.
pub mod Laws
use bramble_go.Prelude.{
  ℕ, ◌+◌, ◌-◌, ◌*◌, ◌/◌, ◌%◌, Bool, true, false, ◌&&◌, ◌||◌, List, [], ◌∷◌, ◌++◌, Option, none,
  some, Bytes, ltb, leb, ◌==◌, if◌then◌else◌, is_empty,
}
use bramble_go.Prelude.Maybe.{◌>>=◌}
use bramble_go.Text.{split, cut, contains}

is_unreserved : ℕ → Bool
is_unreserved c =
    (leb b'a' c && leb c b'z')
    || (leb b'A' c && leb c b'Z')
    || (leb b'0' c && leb c b'9')
    || c == b'-'
    || c == b'_'
    || c == b'.'
    || c == b'~'

upper_digit : ℕ → ℕ
upper_digit n = if ltb n 10 then b'0' + n else b'A' + (n - 10)

escape_byte : ℕ → Bytes
unfolding is_unreserved upper_digit
escape_byte c =
    if c == b' '
    then b'+' ∷ []
    else if is_unreserved c
    then c ∷ []
    else b'%' ∷ upper_digit (c / 16) ∷ upper_digit (c % 16) ∷ []

-- `url.QueryEscape`
unfoldable pub escape : Bytes → Bytes
unfolding escape_byte
escape [] = []
escape (c ∷ s) = escape_byte c ++ escape s

hex_digit : ℕ → Option ℕ
hex_digit c =
    if leb b'0' c && leb c b'9'
    then some (c - b'0')
    else if leb b'a' c && leb c b'f'
    then some (c - b'a' + 10)
    else if leb b'A' c && leb c b'F'
    then some (c - b'A' + 10)
    else none

-- `url.QueryUnescape`: a percent sign wants two hexadecimal digits behind it.
unfoldable pub unescape : Bytes → Option Bytes
unfolding hex_digit
unescape [] = some []
unescape (c ∷ []) = if c == b'%' then none else some ((if c == b'+' then b' ' else c) ∷ [])
unescape (c ∷ a ∷ []) =
    let rest = unescape (a ∷ []) in
    if c == b'%' then none else (do r ← rest; some ((if c == b'+' then b' ' else c) ∷ r))
unescape (c ∷ a ∷ b ∷ s) =
    let decoded = unescape s in
    let rest = unescape (a ∷ b ∷ s) in
    if c == b'%'
    then (do x ← hex_digit a; y ← hex_digit b; r ← decoded; some ((x * 16 + y) ∷ r))
    else (do r ← rest; some ((if c == b'+' then b' ' else c) ∷ r))

-- `url.Values` in the order of its text: a key may stand in it more than once.
abbrev pub Values : Type 0
Values = List (Bytes × Bytes)

-- `Values.Encode` of a map with one key and one value
unfoldable pub encode_one : Bytes → Bytes → Bytes
encode_one k v = escape k ++ (b'=' ∷ escape v)

-- One part of a query between `&`s: what it adds to the values, or an error.
parse_part : Bytes → Option Values
parse_part part =
    if contains part b';'
    then none
    else if is_empty part
    then some []
    else (do k ← unescape (cut part b'=').0; v ← unescape (cut part b'=').1; some ((k, v) ∷ []))

parse_parts : List Bytes → Option Values
unfolding parse_part
parse_parts [] = some []
parse_parts (p ∷ ps) = do values ← parse_part p; rest ← parse_parts ps; some (values ++ rest)

-- `url.ParseQuery`; its caller drops the values where there is an error in any part.
unfoldable pub parse_query : Bytes → Option Values
unfolding parse_parts
parse_query s = parse_parts (split s b'&')

eq_bytes : Bytes → Bytes → Bool
eq_bytes [] [] = true
eq_bytes [] (b ∷ t) = false
eq_bytes (a ∷ s) [] = false
eq_bytes (a ∷ s) (b ∷ t) = a == b && eq_bytes s t

-- `Values.Get`: the first value of the key, or the empty text
unfoldable pub get : Bytes → Values → Bytes
unfolding eq_bytes
get k [] = []
get k ((j, v) ∷ m) = let rest = get k m in if eq_bytes j k then v else rest
