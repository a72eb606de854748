-- ===== src/Client/Messages/ProbeId.antt =====
-- client.go: how `SendProbe` reads the number of a probe, as `fmt.Sscanf` does.
use bramble_go.Prelude.{
  ℕ, ◌+◌, ◌-◌, ◌*◌, ◌^◌, zero, suc, Bool, true, false, [], ◌∷◌, Option, none, some, Bytes, ℤ, pos,
  negsuc, eq_int, if◌then◌else◌, is_empty, not, ◌&&◌, ltb, leb, ◌==◌, length, drop,
}
use bramble_go.Prelude.Maybe
use bramble_go.Text.{leading_space}

-- `SendProbeResult`; `probe_id` is no member of the text.
pub record SendProbeResult : Type 0 where
  pub probe_id_hex : Bytes
  pub ack_window : ℤ
  pub ok_flag : Bool
  pub probe_id : ℤ

unfoldable pub hex_value : ℕ → Option ℕ
hex_value c =
    if leb b'0' c && leb c b'9'
    then some (c - b'0')
    else if leb b'a' c && leb c b'f'
    then some (c - b'a' + 10)
    else if leb b'A' c && leb c b'F'
    then some (c - b'A' + 10)
    else none

-- the digits at the start of a text, behind the value `n`; what follows them is not read
unfoldable pub hex_digits : Bytes → ℕ → ℕ
unfolding hex_value
hex_digits [] n = n
hex_digits (c ∷ s) n = elim (hex_value c) [ none ↦ n | some d ↦ hex_digits s (n * 16 + d) ]

-- the token of a number, which needs a digit
unfoldable pub hex_number : Bytes → Option ℕ
unfolding hex_digits
hex_number [] = none
hex_number (c ∷ s) = elim (hex_value c) [ none ↦ none | some d ↦ some (hex_digits s d) ]

-- the range of `strconv.ParseInt` at 64 bits
unfoldable pub in_range : Bool → ℕ → Option ℤ
in_range false n = if ltb n (2 ^ 63) then some (pos n) else none
in_range true n =
    if n == 0 then some (pos 0) else if leb n (2 ^ 63) then some (negsuc (n - 1)) else none

unfoldable pub signed_number : Bytes → Option ℤ
unfolding hex_number in_range
signed_number [] = none
signed_number (c ∷ s) =
    if c == b'-'
    then Maybe.◌>>=◌ (hex_number s) (in_range true)
    else if c == b'+'
    then Maybe.◌>>=◌ (hex_number s) (in_range false)
    else Maybe.◌>>=◌ (hex_number (c ∷ s)) (in_range false)

-- `SkipSpace`: a line break is an error. Each round skips a byte at least, so that the length of
-- the text is enough fuel.
unfoldable pub skip_space : ℕ → Bytes → Option Bytes
skip_space zero s = some s
skip_space (suc fuel) [] = some []
skip_space (suc fuel) (c ∷ s) =
    let width = leading_space (c ∷ s) in
    let rest = skip_space fuel (drop width (c ∷ s)) in
    if c == 0x0a then none else if width == 0 then some (c ∷ s) else rest

-- `fmt.Sscanf(s, "%x", &parsed)`
unfoldable pub scan_hex : Bytes → Option ℤ
unfolding skip_space signed_number
scan_hex s = Maybe.◌>>=◌ (skip_space (length s) s) signed_number

unfoldable pub with_probe_id : SendProbeResult → Option ℤ → SendProbeResult
with_probe_id r none = r
with_probe_id r (some n) = record r { probe_id = n }

unfoldable pub fill_probe_id : SendProbeResult → SendProbeResult
unfolding with_probe_id
fill_probe_id r =
    if eq_int r.probe_id (pos 0) && not (is_empty r.probe_id_hex)
    then with_probe_id r (scan_hex r.probe_id_hex)
    else r
