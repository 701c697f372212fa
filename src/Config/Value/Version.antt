-- ===== src/Config/Value/Version.antt =====
-- Conditions on versions, and the minimum version.
use mkosi.Base.{
  ℕ, ◌≡◌, refl, ap, sym, ◌⊎◌, ◌∙◌, Bool, true, false, not, Option, none, some, List, [], ◌∷◌, ◌==◌,
  if◌then◌else◌, arith, Bool-cases, inl, inr,
}
use mkosi.Base.Text.{Text, lit, strip_prefix}
use mkosi.VersionComp.{eq, lt, le, gt, ge}
use mkosi.VersionComp.Dual.{lt_trichotomy, operators_agree}

-- A row of the table of operators: its sign, and what it says of two versions.
abbrev Row : Type 0
Row = Text × (Text → Text → Bool)

unfoldable pub operators : List Row
operators =
    (lit "==", eq)
    ∷ (lit "!=", λ a b. not (eq a b))
    ∷ (lit "<=", le)
    ∷ (lit ">=", ge)
    ∷ (lit ">", gt)
    ∷ (lit "<", lt)
    ∷ []

-- `if (rhs := startswith(match, sigil)) is not None`
abbrev first_of :
    Option Text → Row → Option (Text × (Text → Text → Bool)) → Option (Text × (Text → Text → Bool))
first_of none row rest = rest
first_of (some rhs) row rest = some (rhs, row.1)

unfoldable pub find_operator : List Row → Text → Option (Text × (Text → Text → Bool))
find_operator [] match = none
find_operator (row ∷ rows) match =
    first_of (strip_prefix match row.0) row (find_operator rows match)

abbrev decide : Text → Text → Option (Text × (Text → Text → Bool)) → Bool
decide match value none = eq value match
decide match value (some (rhs, op)) = op value rhs

-- The value is compared with the version behind the sign, for equality where there is no sign.
unfoldable pub config_match_version : Text → Text → Bool
unfolding operators find_operator
config_match_version match value = decide match value (find_operator operators match)

-- `max(old, new)`: the second one where it is greater.
unfoldable pub max : Text → Text → Text
max old new = if gt new old then new else old

unfoldable pub config_parse_minimum_version : Option Text → Option Text → Option Text
unfolding max
config_parse_minimum_version none old = old
config_parse_minimum_version (some []) old = old
config_parse_minimum_version (some (c ∷ v)) none = some (c ∷ v)
config_parse_minimum_version (some (c ∷ v)) (some old) = some (max old (c ∷ v))

-- The version is not continued by the "=" of a longer sign.
abbrev pub no_equals : Text → Bool
no_equals [] = true
no_equals (c ∷ s) = not (c == b'=')

-- Where the sign is "<" or ">", the version behind it does not start with "=".
sign_found :
    (rhs value : Text)
    → no_equals rhs ≡ true
    → (config_match_version (b'<' ∷ rhs) value ≡ lt value rhs)
      × (config_match_version (b'>' ∷ rhs) value ≡ gt value rhs)
      × (config_match_version (b'<' ∷ b'=' ∷ rhs) value ≡ le value rhs)
      × (config_match_version (b'>' ∷ b'=' ∷ rhs) value ≡ ge value rhs)
unfolding config_match_version strip_prefix
sign_found [] value h = (refl, refl, refl, refl)
sign_found (c ∷ rhs) value h = (ground (arith, h), ground (arith, h), refl, refl)

equality_found :
    (rhs value : Text)
    → (config_match_version (b'=' ∷ b'=' ∷ rhs) value ≡ eq value rhs)
      × (config_match_version (b'!' ∷ b'=' ∷ rhs) value ≡ not (eq value rhs))
unfolding config_match_version strip_prefix
equality_found rhs value = (refl, refl)

le-not-gt : (a b : Text) → le a b ≡ not (gt a b)
unfolding le gt
le-not-gt a b = ground arith

ge-not-lt : (a b : Text) → ge a b ≡ not (lt a b)
unfolding ge
ge-not-lt a b = refl

-- Conditions with opposite signs on the same version have opposite results: "==" and "!=", "<=" and
-- ">", ">=" and "<", where that version does not start with "=".
pub config_match_version-opposite :
    (rhs value : Text)
    → no_equals rhs ≡ true
    → (config_match_version (b'=' ∷ b'=' ∷ rhs) value
        ≡ not (config_match_version (b'!' ∷ b'=' ∷ rhs) value))
      × (config_match_version (b'<' ∷ b'=' ∷ rhs) value
          ≡ not (config_match_version (b'>' ∷ rhs) value))
      × (config_match_version (b'>' ∷ b'=' ∷ rhs) value
          ≡ not (config_match_version (b'<' ∷ rhs) value))
config_match_version-opposite rhs value h =
    let s = sign_found rhs value h in
    let e = equality_found rhs value in
    (
      e.0 ∙ not_not (eq value rhs) ∙ sym (ap not e.1),
      s.2 ∙ le-not-gt value rhs ∙ sym (ap not s.1),
      s.3 ∙ ge-not-lt value rhs ∙ sym (ap not s.0),
    )
  where
    not_not : (b : Bool) → b ≡ not (not b)
    not_not true = refl
    not_not false = refl

le_refl : (a : Text) → le a a ≡ true
unfolding le gt ge
le_refl a = ground (arith, lt_trichotomy a a)

max_bounds : (old new : Text) → (le old (max old new) ≡ true) × (le new (max old new) ≡ true)
unfolding max
max_bounds old new = elim (Bool-cases (gt new old)) [
  | inl g ↦ rw g (
    unfold le gt in ground (arith, g, lt_trichotomy old new, operators_agree new old),
    le_refl new,
  )
  | inr g ↦ rw g (le_refl old, le-not-gt new old ∙ ap not g)
]

-- Of two minimum versions one is kept, and both are at most that one.
pub config_parse_minimum_version_bounds :
    (c : ℕ) (v old : Text)
    → (r : Text) × (config_parse_minimum_version (some (c ∷ v)) (some old) ≡ some r)
      × ((r ≡ old) ⊎ (r ≡ c ∷ v))
      × (le old r ≡ true)
      × (le (c ∷ v) r ≡ true)
unfolding config_parse_minimum_version
config_parse_minimum_version_bounds c v old = (
  max old (c ∷ v),
  refl,
  unfold max in ground arith,
  (max_bounds old (c ∷ v)).0,
  (max_bounds old (c ∷ v)).1,
)
