-- ===== src/Config/Value/Name.antt =====
-- Names, paths and what is made of parts: outputs, profiles, passwords, key sources, trees, drives.
use mkosi.Base.{
  ℕ, ◌≡◌, refl, Bool, not, ◌||◌, Option, none, some, [], ◌∷◌, ◌++◌, any, ◌==◌, if◌then◌else◌,
}
use mkosi.Base.Text.{Text, lit, text_eq, remove_prefix, starts_with}
use mkosi.Base.Whitespace.{strip}
use mkosi.Base.Split.{Partition, partition}
use mkosi.Base.Result.{Result, ok, failed, die}
use mkosi.Ini.{is_empty}
use mkosi.Config.Value.Number.{given}

-- `"/" in s`
abbrev has_slash : Text → Bool
has_slash s = any (λ c. c == b'/') s

unfoldable pub is_valid_filename : Text → Bool
unfolding strip text_eq
is_valid_filename s =
    not (text_eq (strip s) (lit ".") || text_eq (strip s) (lit "..") || has_slash (strip s))

abbrev checked_name : Text → Option Text → Result (Option Text)
checked_name message none = ok none
checked_name message (some value) =
    if is_valid_filename value then ok (some value) else failed (die message)

unfoldable pub config_parse_output : Option Text → Option Text → Result (Option Text)
unfolding is_valid_filename
config_parse_output value old = checked_name (lit "is not a valid filename.") (given value)

unfoldable pub config_parse_profile : Option Text → Option ℕ → Result (Option Text)
unfolding is_valid_filename
config_parse_profile value old = checked_name (lit "is not a valid profile") (given value)

-- The password, and whether it is hashed.
unfoldable pub config_parse_root_password :
    Option Text → Option (Text × Bool) → Option (Text × Bool)
unfolding strip starts_with remove_prefix
config_parse_root_password none old = none
config_parse_root_password (some []) old = none
config_parse_root_password (some (c ∷ s)) old =
    let value = strip (c ∷ s) in
    some (remove_prefix value (lit "hashed:"), starts_with value (lit "hashed:"))

-- `KeySource.Type` and `KeySource`
pub data KeySourceType : Type 0 where
  file engine : KeySourceType

pub record KeySource : Type 0 where
  pub type : KeySourceType
  pub source : Text

unfoldable pub key_source_type : Text → Option KeySourceType
unfolding text_eq
key_source_type s =
    if text_eq s (lit "file")
    then some KeySourceType.file
    else if text_eq s (lit "engine")
    then some KeySourceType.engine
    else none

abbrev behind_or_empty : Option Text → Text
behind_or_empty none = []
behind_or_empty (some s) = s

abbrev key_source_of : Partition → Option KeySourceType → Result (Option KeySource)
key_source_of p none = failed (die (lit "is not a valid key source"))
key_source_of p (some t) = ok (some (record { type = t; source = behind_or_empty p.behind }))

unfoldable pub config_parse_key_source : Option Text → Option KeySource → Result (Option KeySource)
unfolding partition key_source_type
config_parse_key_source none old = ok old
config_parse_key_source (some []) old = ok old
config_parse_key_source (some (c ∷ s)) old =
    let p = partition b':' (c ∷ s) in key_source_of p (key_source_type p.before)

-- `str(key_source)`
unfoldable pub str_key_source : KeySource → Text
str_key_source k =
    let type = type_name k.type in if is_empty k.source then type else type ++ (b':' ∷ k.source)
  where
    type_name : KeySourceType → Text
    type_name KeySourceType.file = lit "file"
    type_name KeySourceType.engine = lit "engine"

read_str :
    (t : KeySourceType) (s : Text) (old : Option KeySource)
    → config_parse_key_source (some (str_key_source (record { type = t; source = s }))) old
      ≡ ok (some (record { type = t; source = s }))
unfolding config_parse_key_source str_key_source
read_str KeySourceType.file [] old = refl
read_str KeySourceType.file (c ∷ s) old = refl
read_str KeySourceType.engine [] old = refl
read_str KeySourceType.engine (c ∷ s) old = refl

-- What is written for a key source is read as it.
pub config_parse_key_source-str_key_source :
    (k : KeySource) (old : Option KeySource)
    → config_parse_key_source (some (str_key_source k)) old ≡ ok (some k)
config_parse_key_source-str_key_source k old = read_str k.type k.source old
