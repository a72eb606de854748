-- ===== src/Version/Range.antt =====
-- version.go: what `compareVersion` and `IsCompatible` decide, as the order of versions.
use bramble_go.Prelude.{
  ℕ, Bool, true, false, ◌&&◌, Option, none, some, Bytes, ℤ, pos, negsuc, ◌<ℤ◌, ◌≤ℤ◌, ◌≡◌, refl, ◌↔◌,
  ◌⊎◌, inl, inr, arith,
}
use bramble_go.Version.{
  Parts, parse_version, compare_part, compare_parts, compare_parsed, compare_version, not_negative,
  not_positive, is_compatible, min_protocol_version, max_protocol_version,
}

-- The order of versions: by major, then minor, then patch number.
abbrev pub Precedes : Parts → Parts → Type 0
Precedes p q =
    (p.major <ℤ q.major)
    ⊎ ((p.major ≡ q.major) × ((p.minor <ℤ q.minor) ⊎ ((p.minor ≡ q.minor) × (p.patch ≤ℤ q.patch))))

-- 0.m.0, for the two bounds
abbrev pub release : ℕ → Parts
release m = record { major = pos 0; minor = pos m; patch = pos 0 }

part_ge :
    (a b r : ℤ)
    → (not_negative (compare_part a b r) ≡ true) ↔ ((b <ℤ a) ⊎ ((b ≡ a) × (not_negative r ≡ true)))
unfolding compare_part not_negative
part_ge (pos a) (pos b) r = ground arith
part_ge (pos a) (negsuc b) r = ground arith
part_ge (negsuc a) (pos b) r = ground arith
part_ge (negsuc a) (negsuc b) r = ground arith

part_le :
    (a b r : ℤ)
    → (not_positive (compare_part a b r) ≡ true) ↔ ((a <ℤ b) ⊎ ((a ≡ b) × (not_positive r ≡ true)))
unfolding compare_part not_positive
part_le (pos a) (pos b) r = ground arith
part_le (pos a) (negsuc b) r = ground arith
part_le (negsuc a) (pos b) r = ground arith
part_le (negsuc a) (negsuc b) r = ground arith

last_ge : (a b : ℤ) → (not_negative (compare_part a b (pos 0)) ≡ true) ↔ (b ≤ℤ a)
unfolding compare_part not_negative
last_ge (pos a) (pos b) = ground arith
last_ge (pos a) (negsuc b) = ground arith
last_ge (negsuc a) (pos b) = ground arith
last_ge (negsuc a) (negsuc b) = ground arith

last_le : (a b : ℤ) → (not_positive (compare_part a b (pos 0)) ≡ true) ↔ (a ≤ℤ b)
unfolding compare_part not_positive
last_le (pos a) (pos b) = ground arith
last_le (pos a) (negsuc b) = ground arith
last_le (negsuc a) (pos b) = ground arith
last_le (negsuc a) (negsuc b) = ground arith

either_map {ℓ} : {A B P Q R : Type ℓ} → P ↔ (A ⊎ (B × Q)) → Q ↔ R → P ↔ (A ⊎ (B × R))
either_map e f = (
  λ p. elim (e.0 p) [ inl a ↦ inl a | inr (b, q) ↦ inr (b, f.0 q) ],
  λ d. e.1 (elim d [ inl a ↦ inl a | inr (b, r) ↦ inr (b, f.1 r) ]),
)

-- `compareVersion` on parsed versions is the order.
compare_parts_ge : (p q : Parts) → (not_negative (compare_parts p q) ≡ true) ↔ Precedes q p
unfolding compare_parts
compare_parts_ge p q =
    either_map (part_ge p.major q.major _)
      (either_map (part_ge p.minor q.minor _) (last_ge p.patch q.patch))

compare_parts_le : (p q : Parts) → (not_positive (compare_parts p q) ≡ true) ↔ Precedes p q
unfolding compare_parts
compare_parts_le p q =
    either_map (part_le p.major q.major _)
      (either_map (part_le p.minor q.minor _) (last_le p.patch q.patch))

parse_min : parse_version min_protocol_version ≡ some (release 1)
unfolding parse_version
parse_min = refl

parse_max : parse_version max_protocol_version ≡ some (release 5)
unfolding parse_version
parse_max = refl

both : (a b : Bool) → ((a && b) ≡ true) ↔ ((a ≡ true) × (b ≡ true))
both true true = ground arith
both true false = ground arith
both false b = ground arith

compatible_of :
    (o : Option Parts)
    → ((not_negative (compare_parsed o (some (release 1)))
          && not_positive (compare_parsed o (some (release 5))))
        ≡ true)
      ↔ ((p : Parts) × (o ≡ some p) × Precedes (release 1) p × Precedes p (release 5))
unfolding compare_parsed not_negative
compatible_of none = (λ h. cc, λ (p, e, _, _). cc e)
compatible_of (some p) = (
  λ h.
      let (low, high) = (both _ _).0 h in
      (p, refl, (compare_parts_ge p (release 1)).0 low, (compare_parts_le p (release 5)).0 high),
  λ (q, e, low, high).
      let same : q ≡ p = cc e in
      (both _ _).1 (
        (compare_parts_ge p (release 1)).1 (rw same at low),
        (compare_parts_le p (release 5)).1 (rw same at high),
      ),
)

-- `IsCompatible` accepts exactly the texts that parse as a version from 0.1.0 to 0.5.0, both
-- included, in the order of major, minor and patch number.
pub is_compatible_iff :
    (v : Bytes)
    → (is_compatible v ≡ true)
      ↔ ((p : Parts) × (parse_version v ≡ some p) × Precedes (release 1) p × Precedes p (release 5))
unfolding is_compatible compare_version
is_compatible_iff v = rw (parse_min, parse_max) (compatible_of (parse_version v))
