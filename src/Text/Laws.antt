-- ===== src/Text/Laws.antt =====
-- Laws of the text functions: splitting, prefixes and white space.
use mathlib.Core.List.{reverse, reverse-append, reverse-reverse}
use bramble_go.Prelude.{
  ap, ◌∙◌, All-append, length, length-append, ◌++◌, zero, suc, ◌≤◌, true, ℕ, zero, suc, ◌<◌, [],
  ◌∷◌, ◌++◌, some, Bytes, All, ◌≡◌, ◌≢◌, refl, arith,
}
use bramble_go.Text.{
  equal, cut_prefix, trim_prefix, split, ascii_space, leading_space, trailing_space, strip,
  trim_space,
}

-- No byte of the text is `b`.
abbrev pub Lacks : ℕ → Bytes → Type 0
Lacks b = All (λ c. c ≢ b)

pub split-Lacks : (s : Bytes) (sep : ℕ) → Lacks sep s → split s sep ≡ s ∷ []
unfolding split
split-Lacks [] sep h = refl
split-Lacks (c ∷ s) sep h = ground (arith, split-Lacks s sep h.1)

pub split-append :
    (s rest : Bytes) (sep : ℕ) → Lacks sep s → split (s ++ sep ∷ rest) sep ≡ s ∷ split rest sep
unfolding split
split-append [] rest sep h = ground arith
split-append (c ∷ s) rest sep h = ground (arith, split-append s rest sep h.1)

pub cut_prefix-append : (p s : Bytes) → cut_prefix (p ++ s) p ≡ some s
unfolding cut_prefix
cut_prefix-append [] s = refl
cut_prefix-append (c ∷ p) s = ground (arith, cut_prefix-append p s)

pub trim_prefix-append : (p s : Bytes) → trim_prefix (p ++ s) p ≡ s
unfolding trim_prefix
trim_prefix-append p s = rw (cut_prefix-append p s, trim_prefix)

-- a text is its prefix and the rest
pub cut_prefix_sound : (s p : Bytes) {r : Bytes} → cut_prefix s p ≡ some r → s ≡ p ++ r
unfolding cut_prefix
cut_prefix_sound s [] h = cc
cut_prefix_sound [] (b ∷ p) h = cc
cut_prefix_sound (c ∷ s) (b ∷ p) {r} h = ground (arith, cut_prefix_sound s p {r = r})

-- A byte of visible ASCII.
abbrev pub IsVisible : ℕ → Type 0
IsVisible c = (0x20 < c) × (c < 0x80)

pub leading_visible : (c : ℕ) (s : Bytes) → IsVisible c → leading_space (c ∷ s) ≡ 0
unfolding leading_space
leading_visible c [] h = ground arith
leading_visible c (a ∷ []) h = ground arith
leading_visible c (a ∷ b ∷ s) h = ground arith

trailing_visible : (c : ℕ) (s : Bytes) → IsVisible c → trailing_space (c ∷ s) ≡ 0
unfolding trailing_space
trailing_visible c [] h = ground arith
trailing_visible c (a ∷ []) h = ground arith
trailing_visible c (a ∷ b ∷ s) h = ground arith

strip_stop : (width : Bytes → ℕ) (fuel : ℕ) (s : Bytes) → width s ≡ 0 → strip width fuel s ≡ s
unfolding strip
strip_stop width zero s h = refl
strip_stop width (suc fuel) s h = rw h

-- A byte of ASCII white space.
abbrev pub IsBlank : ℕ → Type 0
IsBlank c = ascii_space c ≡ true

leading_blank : (c : ℕ) (s : Bytes) → IsBlank c → leading_space (c ∷ s) ≡ 1
unfolding leading_space
leading_blank c [] h = rw h
leading_blank c (a ∷ []) h = rw h
leading_blank c (a ∷ b ∷ s) h = rw h

trailing_blank : (c : ℕ) (s : Bytes) → IsBlank c → trailing_space (c ∷ s) ≡ 1
unfolding trailing_space
trailing_blank c [] h = rw h
trailing_blank c (a ∷ []) h = rw h
trailing_blank c (a ∷ b ∷ s) h = rw h

module _ (width : Bytes → ℕ) (blank : (c : ℕ) (s : Bytes) → IsBlank c → width (c ∷ s) ≡ 1) where
  strip_blanks :
      (l t : Bytes) (fuel : ℕ)
      → All IsBlank l
      → width t ≡ 0
      → length l ≤ fuel
      → strip width fuel (l ++ t) ≡ t
  unfolding strip
  strip_blanks [] t fuel hl ht h = unfold strip in strip_stop width fuel t ht
  strip_blanks (c ∷ l) t zero hl ht h = absurd (omega arith)
  strip_blanks (c ∷ l) t (suc fuel) hl ht h =
      rw (blank c (l ++ t) hl.0) (strip_blanks l t fuel hl.1 ht (omega arith))

All-reverse {ℓ} : (P : ℕ → Type ℓ) (s : Bytes) → All P s → All P (reverse s)
All-reverse P [] h = h
All-reverse P (c ∷ s) h =
    rw (reverse-append (c ∷ []) s)
      (All-append P (reverse s) (c ∷ []) (All-reverse P s h.1) (h.0, tt))

length-reverse : (s : Bytes) → length (reverse s) ≡ length s
length-reverse [] = refl
length-reverse (c ∷ s) =
    rw (reverse-append (c ∷ []) s)
      (omega (arith, length-append (reverse s) (c ∷ []), length-reverse s))

-- the width of the white space at either end of a text that begins and ends visibly
leading-All : (s rest : Bytes) → s ≢ [] → All IsVisible s → leading_space (s ++ rest) ≡ 0
leading-All [] rest h v = absurd (h refl)
leading-All (c ∷ s) rest h v = leading_visible c (s ++ rest) v.0

trailing-All : (s : Bytes) → All IsVisible s → trailing_space s ≡ 0
trailing-All [] v = unfold trailing_space in refl
trailing-All (c ∷ s) v = trailing_visible c s v.0

trim_right :
    (s r : Bytes)
    → trailing_space (reverse s) ≡ 0
    → All IsBlank r
    → reverse (strip trailing_space (length (s ++ r)) (reverse (s ++ r))) ≡ s
trim_right s r v hr =
    rw
      (
        reverse-append s r,
        strip_blanks trailing_space trailing_blank (reverse r) (reverse s) (length (s ++ r))
            (All-reverse IsBlank r hr) v (omega (arith, length-reverse r, length-append s r)),
      )
      (reverse-reverse s)

trim_ends :
    (l s r : Bytes)
    → All IsBlank l
    → leading_space (s ++ r) ≡ 0
    → trailing_space (reverse s) ≡ 0
    → All IsBlank r
    → trim_space (l ++ (s ++ r)) ≡ s
unfolding trim_space
trim_ends l s r hl first last hr =
    rw
      (strip_blanks leading_space leading_blank l (s ++ r) (length (l ++ (s ++ r))) hl first
        (omega (arith, length-append l (s ++ r))))
      (trim_right s r last hr)

-- `strings.TrimSpace` drops the blanks around a visible text, and nothing of the text.
pub trim_space-blanks :
    (l s r : Bytes)
    → s ≢ []
    → All IsBlank l
    → All IsVisible s
    → All IsBlank r
    → trim_space (l ++ (s ++ r)) ≡ s
trim_space-blanks l s r h hl v hr =
    trim_ends l s r hl (leading-All s r h v) (trailing-All (reverse s) (All-reverse IsVisible s v))
      hr

-- A text that begins and ends with a visible byte, whatever stands between them.
abbrev pub IsSolid : Bytes → Type 0
IsSolid s = (c d : ℕ) × (x y : Bytes) × (s ≡ c ∷ x) × (s ≡ y ++ d ∷ []) × IsVisible c × IsVisible d

-- The blanks around such a text are dropped too.
pub trim_space-IsSolid :
    (l s r : Bytes) → All IsBlank l → IsSolid s → All IsBlank r → trim_space (l ++ (s ++ r)) ≡ s
trim_space-IsSolid l s r hl (c, d, x, y, first, last, vc, vd) hr =
    trim_ends l s r hl (ap (λ t. leading_space (t ++ r)) first ∙ leading_visible c (x ++ r) vc)
      (ap (λ t. trailing_space (reverse t)) last
        ∙ ap trailing_space (reverse-append y (d ∷ []))
        ∙ trailing_visible d (reverse y) vd)
      hr

pub equal_sound : (s t : Bytes) → equal s t ≡ true → s ≡ t
unfolding equal
equal_sound [] [] h = refl
equal_sound [] (b ∷ t) h = cc
equal_sound (a ∷ s) [] h = cc
equal_sound (a ∷ s) (b ∷ t) h = ground (arith, equal_sound s t)
