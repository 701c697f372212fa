-- ===== src/Tests/Versions.antt =====
-- Examples of tests/test_versioncomp.py, and the theorems on versions at concrete inputs.
use mkosi.Base.{String, ◌≡◌, refl, ◌⊎◌, true, false, Option, some, arith}
use mkosi.Base.Text.{lit, text_eq, text_lt, remove_prefix}
use mathlib.Core.Option
use mkosi.VersionComp.{
  Order, equal, left_smaller, right_smaller, compare_versions, round, separator, ended, digits,
  letters, rstrip_invalid_version_chars, int_from, eq, lt,
}
use mkosi.VersionComp.Total.{compare_versions_total}
use mkosi.VersionComp.Dual.{flip, compare_versions-dual, lt_trichotomy}
use mkosi.VersionComp.Cycle.{lt_cycle}

compare : String → String → Option Order
unfolding compare_versions round separator ended digits letters text_eq text_lt remove_prefix
    rstrip_invalid_version_chars int_from
compare a b = compare_versions (lit a) (lit b)

runs :
    (compare "bar-123" "foo-123" ≡ some left_smaller)
    × (compare "123a" "123.a" ≡ some right_smaller)
    × (compare "123.a" "123.b" ≡ some left_smaller)
    × (compare "A" "a" ≡ some left_smaller)
    × (compare "0." "0" ≡ some right_smaller)
    × (compare "0" "~" ≡ some right_smaller)
    × (compare "_1" "1" ≡ some equal)
    × (compare "1_2_3" "1.3.3" ≡ some right_smaller)
unfolding compare
runs = (refl, refl, refl, refl, refl, refl, refl, refl)

compare_versions_total_example : (r : Order) × (compare_versions (lit "1_2") (lit "1.~x") ≡ some r)
compare_versions_total_example = compare_versions_total (lit "1_2") (lit "1.~x")

compare_versions-dual_example :
    compare_versions (lit "5.11") (lit "5.4")
    ≡ Option.map flip (compare_versions (lit "5.4") (lit "5.11"))
compare_versions-dual_example = compare_versions-dual (lit "5.4") (lit "5.11")

lt_trichotomy_example :
    ((lt (lit "9") (lit "10") ≡ true)
      × (eq (lit "9") (lit "10") ≡ false)
      × (lt (lit "10") (lit "9") ≡ false))
    ⊎ ((lt (lit "9") (lit "10") ≡ false)
        × (eq (lit "9") (lit "10") ≡ true)
        × (lt (lit "10") (lit "9") ≡ false))
    ⊎ ((lt (lit "9") (lit "10") ≡ false)
        × (eq (lit "9") (lit "10") ≡ false)
        × (lt (lit "10") (lit "9") ≡ true))
lt_trichotomy_example = lt_trichotomy (lit "9") (lit "10")

lt_cycle_example :
    (lt (lit ".a") (lit ".0_3") ≡ true)
    × (lt (lit ".0_3") (lit "._5") ≡ true)
    × (lt (lit "._5") (lit ".a") ≡ true)
lt_cycle_example =
    lt_cycle b'a' b'3' b'5' (omega arith) (omega arith) (omega arith) (omega arith) (omega arith)
