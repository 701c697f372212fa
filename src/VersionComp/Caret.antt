-- ===== src/VersionComp/Caret.antt =====
-- Where "^" meets another character of the format.
use mkosi.Base.{ℕ, suc, ◌+◌, ◌≡◌, true, false, some, ◌∷◌, arith, ◌==◌, length}
use native.Mathlib.Numerals.{add-one}
use mkosi.Base.Text.{Text}
use mkosi.VersionComp.{
  left_smaller, separator, ended, round, is_valid, is_digit, is_letter, compare_loop,
  compare_versions, rstrip_invalid_version_chars,
}

round_caret :
    (fuel c : ℕ) (s t : Text)
    → is_valid c ≡ true
    → (c == b'~') ≡ false
    → (c == b'-') ≡ false
    → (c == b'^') ≡ false
    → compare_loop (suc fuel) (b'^' ∷ s) (c ∷ t) ≡ some left_smaller
unfolding compare_loop round separator ended rstrip_invalid_version_chars is_valid is_letter
    is_digit
round_caret fuel c s t v h1 h2 h3 = ground arith

-- A version that starts with "^" compares lower than one that starts with a digit, a letter or ".".
pub compare_versions-caret :
    (c : ℕ) (s t : Text)
    → is_valid c ≡ true
    → (c == b'~') ≡ false
    → (c == b'-') ≡ false
    → (c == b'^') ≡ false
    → compare_versions (b'^' ∷ s) (c ∷ t) ≡ some left_smaller
unfolding compare_versions
compare_versions-caret c s t v h1 h2 h3 =
    rw add-one (round_caret (suc (length s) + suc (length t)) c s t v h1 h2 h3)
