-- ===== src/Version/Numerals.antt =====
-- version.go: the texts that `parseVersion` reads as versions.
use bramble_go.Prelude.{
  ℕ, ◌+◌, ◌-◌, ◌*◌, ◌^◌, ◌≤◌, ◌<◌, [], ◌∷◌, ◌++◌, some, Bytes, codes, All, pos, ◌≡◌, ◌≢◌, refl,
  arith,
}
use bramble_go.Text.{split, trim_prefix}
use bramble_go.Text.Laws.{Lacks, split-Lacks, split-append}
use bramble_go.Version.{Parts, digits, atoi, parse_segments, parse_version}

abbrev pub IsDigit : ℕ → Type 0
IsDigit c = (b'0' ≤ c) × (c ≤ b'9')

-- the number that digits spell behind `n`
abbrev pub value : ℕ → Bytes → ℕ
value n [] = n
value n (c ∷ s) = value (n * 10 + (c - b'0')) s

-- A decimal numeral that fits an `int`.
abbrev pub IsNumeral : Bytes → Type 0
IsNumeral s = (s ≢ []) × All IsDigit s × (value 0 s < 2 ^ 63)

digits-value : (s : Bytes) (n : ℕ) → All IsDigit s → digits s n ≡ some (value n s)
unfolding digits
digits-value [] n h = refl
digits-value (c ∷ s) n h = ground (arith, digits-value s (n * 10 + (c - b'0')) h.1)

atoi-value : (s : Bytes) → IsNumeral s → atoi s ≡ some (pos (value 0 s))
unfolding atoi
atoi-value [] h = absurd (h.0 refl)
atoi-value (c ∷ s) h = ground (arith, digits-value (c ∷ s) 0 h.1)

digits-Lacks : (s : Bytes) (b : ℕ) → b < b'0' → All IsDigit s → Lacks b s
digits-Lacks [] b h d = tt
digits-Lacks (c ∷ s) b h (dc, ds) = (ground arith, digits-Lacks s b h ds)

split_three :
    (a b c : Bytes)
    → All IsDigit a
    → All IsDigit b
    → All IsDigit c
    → split (a ++ b'.' ∷ (b ++ b'.' ∷ c)) b'.' ≡ a ∷ b ∷ c ∷ []
split_three a b c ha hb hc =
    rw
      (
        split-append a _ b'.' (digits-Lacks a b'.' (omega arith) ha),
        split-append b _ b'.' (digits-Lacks b b'.' (omega arith) hb),
      )
      (rw (split-Lacks c b'.' (digits-Lacks c b'.' (omega arith) hc)))

trim_v : (s rest : Bytes) → s ≢ [] → All IsDigit s → trim_prefix (s ++ rest) (codes "v") ≡ s ++ rest
unfolding trim_prefix
trim_v [] rest h d = absurd (h refl)
trim_v (c ∷ s) rest h d = ground arith

trim_the_v : (s : Bytes) → trim_prefix (b'v' ∷ s) (codes "v") ≡ s
unfolding trim_prefix
trim_the_v s = refl

read_three :
    (a b c : Bytes)
    → IsNumeral a
    → IsNumeral b
    → IsNumeral c
    → parse_segments (a ∷ b ∷ c ∷ [])
      ≡ some (record { major = pos (value 0 a); minor = pos (value 0 b); patch = pos (value 0 c) })
unfolding parse_segments
read_three a b c ha hb hc = rw (atoi-value a ha, atoi-value b hb, atoi-value c hc)

-- Three numerals joined by dots parse as the numbers that they spell, with a leading v or without
-- one, if each has a digit, nothing but digits, and a value below 2 ^ 63.
pub parse_version_numerals :
    (a b c : Bytes)
    → IsNumeral a
    → IsNumeral b
    → IsNumeral c
    → let w : Bytes = a ++ b'.' ∷ (b ++ b'.' ∷ c) in
      let p : Parts = record {
        major = pos (value 0 a);
        minor = pos (value 0 b);
        patch = pos (value 0 c);
      } in
      (parse_version w ≡ some p) × (parse_version (b'v' ∷ w) ≡ some p)
unfolding parse_version
parse_version_numerals a b c ha hb hc =
    let parts = split_three a b c ha.1 hb.1 hc.1 in
    (
      rw (trim_v a _ ha.0 ha.1, parts) (read_three a b c ha hb hc),
      rw (trim_the_v, parts) (read_three a b c ha hb hc),
    )
