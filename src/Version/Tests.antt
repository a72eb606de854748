-- ===== src/Version/Tests.antt =====
-- Runs of version.go on single inputs.
use bramble_go.Prelude.{true, false, codes, ◌≡◌, refl, ◌↔◌, some, pos, arith}
use bramble_go.Version.{Parts, parse_version, compare_version, is_compatible}
use bramble_go.Version.Range.{Precedes, release, is_compatible_iff}
use bramble_go.Version.Numerals.{parse_version_numerals}

compatible_with_v : is_compatible (codes "v0.4.17") ≡ true
unfolding is_compatible compare_version parse_version
compatible_with_v = refl

too_new : is_compatible (codes "0.5.1") ≡ false
unfolding is_compatible compare_version parse_version
too_new = refl

two_segments : is_compatible (codes "0.4") ≡ false
unfolding is_compatible compare_version parse_version
two_segments = refl

is_compatible_iff_example : (is_compatible (codes "0.3.9") ≡ true) ↔ (
    (p : Parts) × (parse_version (codes "0.3.9") ≡ some p)
    × Precedes (release 1) p
    × Precedes p (release 5))
is_compatible_iff_example = is_compatible_iff (codes "0.3.9")

parse_version_numerals_example :
    let p : Parts = record { major = pos 0; minor = pos 12; patch = pos 7 } in
    (parse_version (codes "0.12.007") ≡ some p) × (parse_version (codes "v0.12.007") ≡ some p)
parse_version_numerals_example =
    parse_version_numerals (codes "0") (codes "12") (codes "007") (cc, omega arith, omega arith)
      (cc, omega arith, omega arith) (cc, omega arith, omega arith)
