-- ===== src/Client/Messages/Probe.antt =====
-- client.go: the identifier of a probe and the addresses, as numbers and in hexadecimal.
use bramble_go.Prelude.{
  ◌≡◌, refl, map, All, ap, ◌∙◌, arith, ℕ, ◌+◌, ◌*◌, ◌/◌, ◌%◌, ◌^◌, ◌<◌, zero, suc, true, false,
  List, [], ◌∷◌, Option, none, some, Bytes, pos, eq_int, is_empty, ◌==◌, length,
}
use bramble_go.Client.Messages.{
  upper_digit, format_address, hex_value, hex_digits, hex_number, signed_number, scan_hex,
  skip_space, in_range, fill_probe_id, SendProbeResult, with_probe_id,
}
use bramble_go.Text.Laws.{IsVisible, leading_visible}
use bramble_go.Prelude.Maybe

module _ (d : ℕ) (d<16 : d < 16) where
  hex_value-upper_digit : hex_value (upper_digit d) ≡ some d
  unfolding hex_value upper_digit
  hex_value-upper_digit = ground arith

  upper_digit-not_sign : (upper_digit d == b'-') ≡ false × (upper_digit d == b'+') ≡ false
  unfolding upper_digit
  upper_digit-not_sign = ground arith

  upper_digit-not_break : (upper_digit d == 0x0a) ≡ false
  unfolding upper_digit
  upper_digit-not_break = ground arith

  upper_digit-IsVisible : IsVisible (upper_digit d)
  unfolding upper_digit
  upper_digit-IsVisible = ground arith

module _ (d : ℕ) (d<16 : d < 16) (s : Bytes) where
  -- what `format_address` writes is read back digit by digit
  hex_digits-upper_digit : (n : ℕ) → hex_digits (upper_digit d ∷ s) n ≡ hex_digits s (n * 16 + d)
  unfolding hex_digits
  hex_digits-upper_digit n =
      ap (λ v. elim v [ none ↦ n | some e ↦ hex_digits s (n * 16 + e) ])
        (hex_value-upper_digit d d<16)

  hex_number-upper_digit : hex_number (upper_digit d ∷ s) ≡ some (hex_digits s d)
  unfolding hex_number
  hex_number-upper_digit =
      ap (λ v. elim v as (λ x. Option ℕ) [ none ↦ none | some e ↦ some (hex_digits s e) ])
        (hex_value-upper_digit d d<16)

  skip_space-upper_digit :
      (fuel : ℕ) → skip_space fuel (upper_digit d ∷ s) ≡ some (upper_digit d ∷ s)
  unfolding skip_space
  skip_space-upper_digit zero = refl
  skip_space-upper_digit (suc fuel) = rw (
    upper_digit-not_break d d<16,
    leading_visible (upper_digit d) s (upper_digit-IsVisible d d<16),
  )

  signed_number-upper_digit :
      signed_number (upper_digit d ∷ s)
      ≡ Maybe.◌>>=◌ (hex_number (upper_digit d ∷ s)) (in_range false)
  unfolding signed_number
  signed_number-upper_digit = rw ((upper_digit-not_sign d d<16).0, (upper_digit-not_sign d d<16).1)

  scan_hex-upper_digit : scan_hex (upper_digit d ∷ s) ≡ in_range false (hex_digits s d)
  unfolding scan_hex
  scan_hex-upper_digit =
      ap (λ t. Maybe.◌>>=◌ t signed_number) (skip_space-upper_digit (length (upper_digit d ∷ s)))
      ∙ signed_number-upper_digit
      ∙ ap (λ t. Maybe.◌>>=◌ t (in_range false)) hex_number-upper_digit

-- the number that some digits write, behind the value `n`
value : List ℕ → ℕ → ℕ
value [] n = n
value (d ∷ ds) n = value ds (n * 16 + d)

hex_digits-map :
    (ds : List ℕ) → All (λ d. d < 16) ds → (n : ℕ) → hex_digits (map upper_digit ds) n ≡ value ds n
unfolding hex_digits value
hex_digits-map [] h n = refl
hex_digits-map (d ∷ ds) h n =
    hex_digits-upper_digit d h.0 (map upper_digit ds) n ∙ hex_digits-map ds h.1 (n * 16 + d)

digits_behind : ℕ → List ℕ
digits_behind n =
    n / 2 ^ 24 % 16
    ∷ n / 2 ^ 20 % 16
    ∷ n / 2 ^ 16 % 16
    ∷ n / 2 ^ 12 % 16
    ∷ n / 2 ^ 8 % 16
    ∷ n / 2 ^ 4 % 16
    ∷ n % 16
    ∷ []

digits_behind_small : (n : ℕ) → All (λ d. d < 16) (digits_behind n)
unfolding digits_behind
digits_behind_small n = (
  omega arith,
  (omega arith, (omega arith, (omega arith, (omega arith, (omega arith, (omega arith, tt)))))),
)

value-digits_behind : (n : ℕ) → n < 2 ^ 32 → value (digits_behind n) (n / 2 ^ 28 % 16) ≡ n
unfolding digits_behind value
value-digits_behind n h = omega arith

in_range_pos : (n : ℕ) → n < 2 ^ 63 → in_range false n ≡ some (pos n)
unfolding in_range
in_range_pos n h = ground arith

scan_hex-format_address : (n : ℕ) → n < 2 ^ 32 → scan_hex (format_address n) ≡ some (pos n)
unfolding format_address digits_behind
scan_hex-format_address n h =
    scan_hex-upper_digit (n / 2 ^ 28 % 16) (omega arith) (map upper_digit (digits_behind n))
    ∙ ap (in_range false) (
        hex_digits-map (digits_behind n) (digits_behind_small n) (n / 2 ^ 28 % 16)
        ∙ value-digits_behind n h)
    ∙ in_range_pos n (omega arith)

fill_scanned :
    (r : SendProbeResult) (n : ℕ)
    → eq_int r.probe_id (pos 0) ≡ true
    → is_empty r.probe_id_hex ≡ false
    → scan_hex r.probe_id_hex ≡ some (pos n)
    → fill_probe_id r ≡ record r { probe_id = pos n }
unfolding fill_probe_id with_probe_id
fill_scanned r n h₀ h₁ h₂ = rw (h₀, h₁, h₂)

-- A probe without a number whose identifier is given in hexadecimal, as the eight digits of a
-- 32-bit `n`, gets the number `n`; the other fields stay.
pub fill_probe_id-format_address :
    (r : SendProbeResult) (n : ℕ)
    → r.probe_id ≡ pos 0
    → r.probe_id_hex ≡ format_address n
    → n < 2 ^ 32
    → fill_probe_id r ≡ record r { probe_id = pos n }
unfolding format_address
fill_probe_id-format_address r n h₀ h₁ h =
    fill_scanned r n (ap (λ i. eq_int i (pos 0)) h₀) (ap is_empty h₁)
      (ap scan_hex h₁ ∙ scan_hex-format_address n h)
