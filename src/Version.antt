-- ===== src/Version.antt =====
-- version.go: the protocol versions that the SDK can speak.
pub mod Range
pub mod Numerals
mod Tests
use bramble_go.Prelude.{
  ℕ, ◌+◌, ◌-◌, ◌*◌, ◌^◌, Bool, true, ◌&&◌, List, [], ◌∷◌, Option, none, some, Bytes, codes, ltb,
  leb, ◌==◌, if◌then◌else◌, ℤ, pos, negsuc, lt_int,
}
use bramble_go.Prelude.Maybe.{◌>>=◌}
use bramble_go.Text.{trim_prefix, split}

abbrev pub min_protocol_version : Bytes
min_protocol_version = codes "0.1.0"

abbrev pub max_protocol_version : Bytes
max_protocol_version = codes "0.5.0"

-- The value of decimal digits behind `n`; a byte that is no digit is an error.
digits : Bytes → ℕ → Option ℕ
digits [] n = some n
digits (c ∷ s) n =
    let rest = digits s (n * 10 + (c - b'0')) in if leb b'0' c && leb c b'9' then rest else none

-- one digit at least
number : Bytes → Option ℕ
unfolding digits
number [] = none
number (c ∷ s) = digits (c ∷ s) 0

-- the range of a 64-bit `int`
positive : ℕ → Option ℤ
positive n = if ltb n (2 ^ 63) then some (pos n) else none

negative : ℕ → Option ℤ
negative n = if n == 0 then some (pos 0) else if leb n (2 ^ 63) then some (negsuc (n - 1)) else none

-- `strconv.Atoi` with a 64-bit `int`: a sign, if any, and digits.
atoi : Bytes → Option ℤ
unfolding number positive negative
atoi [] = none
atoi (c ∷ s) =
    if c == b'-'
    then (do n ← number s; negative n)
    else if c == b'+'
    then (do n ← number s; positive n)
    else (do n ← number (c ∷ s); positive n)

-- The `[3]int` of a parsed version.
pub record Parts : Type 0 where
  pub major : ℤ
  pub minor : ℤ
  pub patch : ℤ

parse_segments : List Bytes → Option Parts
unfolding atoi
parse_segments (a ∷ b ∷ c ∷ []) = do
  x ← atoi a
  y ← atoi b
  z ← atoi c
  some (record { major = x; minor = y; patch = z })
parse_segments _ = none

pub parse_version : Bytes → Option Parts
unfolding parse_segments trim_prefix split
parse_version v = parse_segments (split (trim_prefix v (codes "v")) b'.')

-- one round of the loop of `compareVersion`
compare_part : ℤ → ℤ → ℤ → ℤ
compare_part a b rest = if lt_int a b then negsuc 0 else if lt_int b a then pos 1 else rest

compare_parts : Parts → Parts → ℤ
unfolding compare_part
compare_parts p q =
    compare_part p.major q.major
      (compare_part p.minor q.minor (compare_part p.patch q.patch (pos 0)))

compare_parsed : Option Parts → Option Parts → ℤ
unfolding compare_parts
compare_parsed none b = negsuc 0
compare_parsed (some p) none = negsuc 0
compare_parsed (some p) (some q) = compare_parts p q

pub compare_version : Bytes → Bytes → ℤ
unfolding compare_parsed
compare_version a b = compare_parsed (parse_version a) (parse_version b)

-- `c >= 0` and `c <= 0`
not_negative : ℤ → Bool
not_negative c = lt_int (negsuc 0) c

not_positive : ℤ → Bool
not_positive c = lt_int c (pos 1)

pub is_version_in_range : Bytes → Bytes → Bytes → Bool
unfolding not_negative not_positive
is_version_in_range version min max =
    not_negative (compare_version version min) && not_positive (compare_version version max)

pub is_compatible : Bytes → Bool
unfolding is_version_in_range
is_compatible version = is_version_in_range version min_protocol_version max_protocol_version
