-- ===== src/Text.antt =====
-- The functions of Go's `strings` package that the source calls, over the bytes of a string.
pub mod Laws
use bramble_go.Prelude.{
  is_empty, ◌+◌, ℕ, zero, suc, Bool, true, false, ◌&&◌, ◌||◌, List, [], ◌∷◌, Option, none, some,
  Bytes, length, drop, leb, ◌==◌, if◌then◌else◌,
}
use mathlib.Core.List.{reverse}

-- `strings.CutPrefix`
unfoldable pub cut_prefix : Bytes → Bytes → Option Bytes
cut_prefix s [] = some s
cut_prefix [] (p ∷ ps) = none
cut_prefix (c ∷ s) (p ∷ ps) = let rest = cut_prefix s ps in if c == p then rest else none

-- `strings.TrimPrefix`
unfoldable pub trim_prefix : Bytes → Bytes → Bytes
unfolding cut_prefix
trim_prefix s p = elim (cut_prefix s p) [ none ↦ s | some rest ↦ rest ]

abbrev cons_head : ℕ → List Bytes → List Bytes
cons_head c [] = (c ∷ []) ∷ []
cons_head c (p ∷ ps) = (c ∷ p) ∷ ps

-- `strings.Split` at a separator of one byte: always one part at least
unfoldable pub split : Bytes → ℕ → List Bytes
split [] sep = [] ∷ []
split (c ∷ s) sep = let parts = split s sep in if c == sep then [] ∷ parts else cons_head c parts

-- `strings.Cut` at a separator of one byte: what stands before it, and what stands behind it
unfoldable pub cut : Bytes → ℕ → Bytes × Bytes
cut [] sep = ([], [])
cut (c ∷ s) sep =
    let (before, after) = cut s sep in if c == sep then ([], s) else (c ∷ before, after)

-- `strings.Contains` for a byte
unfoldable pub contains : Bytes → ℕ → Bool
contains [] b = false
contains (c ∷ s) b = c == b || contains s b

abbrev ascii_space : ℕ → Bool
ascii_space c = (leb 0x09 c && leb c 0x0d) || c == 0x20

-- The bytes of the white-space rune at the start of a text, 0 if there is none: ASCII, U+0085,
-- U+00A0, U+1680, U+2000 to U+200A, U+2028, U+2029, U+202F, U+205F and U+3000.
space_three : ℕ → ℕ → ℕ → ℕ
space_three a b c =
    if (a == 0xe1 && b == 0x9a && c == 0x80)
      || (a == 0xe2
          && b == 0x80
          && ((leb 0x80 c && leb c 0x8a) || c == 0xa8 || c == 0xa9 || c == 0xaf))
      || (a == 0xe2 && b == 0x81 && c == 0x9f)
      || (a == 0xe3 && b == 0x80 && c == 0x80)
    then 3
    else 0

space_two : ℕ → ℕ → ℕ
space_two a b = if a == 0xc2 && (b == 0x85 || b == 0xa0) then 2 else 0

unfoldable pub leading_space : Bytes → ℕ
unfolding space_two space_three
leading_space [] = 0
leading_space (a ∷ []) = if ascii_space a then 1 else 0
leading_space (a ∷ b ∷ []) = if ascii_space a then 1 else space_two a b
leading_space (a ∷ b ∷ c ∷ s) =
    if ascii_space a then 1 else (if a == 0xc2 then space_two a b else space_three a b c)

-- The same at the end, over the reversed text.
trailing_space : Bytes → ℕ
unfolding space_two space_three
trailing_space [] = 0
trailing_space (a ∷ []) = if ascii_space a then 1 else 0
trailing_space (b ∷ a ∷ []) = if ascii_space b then 1 else space_two a b
trailing_space (c ∷ b ∷ a ∷ s) =
    if ascii_space c then 1 else (if b == 0xc2 then space_two b c else space_three a b c)

-- Drops white space while there is some; each round drops a byte at least, so that the length of
-- the text is enough fuel.
strip : (Bytes → ℕ) → ℕ → Bytes → Bytes
strip width zero s = s
strip width (suc fuel) s =
    let rest = strip width fuel (drop (width s) s) in if width s == 0 then s else rest

-- `strings.TrimSpace`
unfoldable pub trim_space : Bytes → Bytes
unfolding leading_space trailing_space strip
trim_space s =
    let t = strip leading_space (length s) s in
    reverse (strip trailing_space (length t) (reverse t))

-- `==` of strings
unfoldable pub equal : Bytes → Bytes → Bool
equal [] [] = true
equal [] (b ∷ t) = false
equal (a ∷ s) [] = false
equal (a ∷ s) (b ∷ t) = a == b && equal s t

-- `strings.ToLower`, as far as a search for ASCII sees it: of the letters outside ASCII only
-- U+0130, whose lower case is `i`, and U+212A, whose lower case is `k`, have one in it.
abbrev pub lower : ℕ → ℕ
lower c = if leb b'A' c then (if leb c b'Z' then c + 32 else c) else c

unfoldable pub to_lower : Bytes → Bytes
to_lower [] = []
to_lower (c ∷ []) = lower c ∷ []
to_lower (c ∷ d ∷ []) =
    if c == 0xc4 then (if d == 0xb0 then b'i' ∷ [] else c ∷ d ∷ []) else lower c ∷ lower d ∷ []
to_lower (c ∷ d ∷ e ∷ s) =
    let all = lower c ∷ to_lower (d ∷ e ∷ s) in
    let two = b'i' ∷ to_lower (e ∷ s) in
    let three = b'k' ∷ to_lower s in
    if c == 0xc4
    then (if d == 0xb0 then two else all)
    else if c == 0xe2
    then (if d == 0x84 then (if e == 0xaa then three else all) else all)
    else all

-- `strings.Contains`
unfoldable pub search : Bytes → Bytes → Bool
search [] part = is_empty part
search (c ∷ s) part =
    let rest = search s part in elim (cut_prefix (c ∷ s) part) [ none ↦ rest | some t ↦ true ]
