-- ===== src/VersionComp/Cycle.antt =====
-- `<` of versions is not transitive: a character outside the format that follows a separator is not
-- skipped in the round that takes the separator off, and is compared as an empty stretch of letters.
use mkosi.Base.{ℕ, ◌<◌, ◌≤◌, ◌≡◌, true, [], ◌∷◌, arith}
use mkosi.Base.Text.{Text, text_eq, text_lt, remove_prefix}
use mkosi.VersionComp.{
  separator, ended, digits, letters, round, rstrip_invalid_version_chars, int_from, lt,
}

-- ".c", ".0_d" and "._e"
abbrev pub dotted : ℕ → Text
dotted c = b'.' ∷ c ∷ []

abbrev pub zeroed : ℕ → Text
zeroed d = b'.' ∷ b'0' ∷ b'_' ∷ d ∷ []

abbrev pub skipped : ℕ → Text
skipped e = b'.' ∷ b'_' ∷ e ∷ []

dotted-lt-zeroed :
    (c d : ℕ) → b'a' ≤ c → c ≤ b'z' → b'1' ≤ d → d ≤ b'9' → lt (dotted c) (zeroed d) ≡ true
unfolding lt round separator ended digits letters text_eq text_lt remove_prefix
    rstrip_invalid_version_chars int_from
dotted-lt-zeroed c d h1 h2 h3 h4 = ground arith

zeroed-lt-skipped : (d e : ℕ) → b'1' ≤ d → d < e → e ≤ b'9' → lt (zeroed d) (skipped e) ≡ true
unfolding lt round separator ended digits letters text_eq text_lt remove_prefix
    rstrip_invalid_version_chars int_from
zeroed-lt-skipped d e h1 h2 h3 = ground arith

skipped-lt-dotted :
    (e c : ℕ) → b'1' ≤ e → e ≤ b'9' → b'a' ≤ c → c ≤ b'z' → lt (skipped e) (dotted c) ≡ true
unfolding lt round separator ended digits letters text_eq text_lt remove_prefix
    rstrip_invalid_version_chars int_from
skipped-lt-dotted e c h1 h2 h3 h4 = ground arith

-- For a lower-case letter c and digits 0 < d < e: ".c" < ".0_d" < "._e" < ".c".
pub lt_cycle :
    (c d e : ℕ)
    → b'a' ≤ c
    → c ≤ b'z'
    → b'1' ≤ d
    → d < e
    → e ≤ b'9'
    → (lt (dotted c) (zeroed d) ≡ true)
      × (lt (zeroed d) (skipped e) ≡ true)
      × (lt (skipped e) (dotted c) ≡ true)
lt_cycle c d e h1 h2 h3 h4 h5 = (
  dotted-lt-zeroed c d h1 h2 h3 (omega arith),
  zeroed-lt-skipped d e h3 h4 h5,
  skipped-lt-dotted e c (omega arith) h5 h1 h2,
)
