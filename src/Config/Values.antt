-- ===== src/Config/Values.antt =====
-- The values that settings have, and `setting.parse` and `setting.match` for the parsers and matchers
-- of the table in mkosi/config.py, made of the functions of Config.Value.
pub mod Enums
pub mod Defaults
pub mod Typed
pub mod Fit
use mkosi.Base.{
  ℕ, Bool, true, false, not, ◌&&◌, ◌||◌, Option, none, some, List, [], ◌∷◌, any, drop_while, ◌==◌,
  if◌then◌else◌,
}
use mkosi.Base.Text.{Text, lit, text_eq}
use mkosi.Base.Dict.{Dict}
use mkosi.Base.Result.{Result, ok, failed, die, attribute_error, value_error, ◌>>=◌}
use mkosi.Config.Enums.{ConfigFeature, Compression, Architecture, Distribution}
use mkosi.Config.StrEnum.{StrEnum, of_value}
use mkosi.Config.Setting.{Setting, EnumType, PathRules, Item, Pair, Parser, Matcher}
use mkosi.Config.Value.Number.{
  ℤ, given, config_parse_source_date_epoch, config_parse_compress_level, config_parse_sector_size,
  config_parse_vsock_cid,
}
use mkosi.Config.Value.Boolean.{
  config_parse_boolean, config_parse_feature, config_parse_compression, config_match_feature,
}
use mkosi.Config.Value.Size.{config_parse_bytes}
use mkosi.Config.Value.Name.{
  KeySource, config_parse_output, config_parse_profile, config_parse_root_password,
  config_parse_key_source,
}
use mkosi.Config.Value.Path.{Os, PathOptions, parse_path}
use mkosi.Config.Value.Parts.{ConfigTree, QemuDrive, path_options, parse_tree, parse_drive}
use mkosi.Config.Value.Sequence.{
  Options, config_make_list_parser, config_make_dict_parser, parse_credential, parse_environment,
}
use mkosi.Config.Value.Version.{config_parse_minimum_version, config_match_version}
use Enums.{read_enum, read_enum_with_boolean, read_member, match_enum}

-- A path is its text, as is a UUID, and a constant of an enumeration is its string.
pub data Value : Type 0 where
  boolean : Bool → Value
  feature : ConfigFeature → Value
  text path uuid : Text → Value
  compression : Compression → Value
  number : ℕ → Value
  cid : ℤ → Value
  password : Text × Bool → Value
  key_source : KeySource → Value
  constant : EnumType → Text → Value
  texts paths : List Text → Value
  trees : List ConfigTree → Value
  drives : List QemuDrive → Value
  constants : EnumType → List Text → Value
  dictionary : Dict Text → Value

-- What the values take from outside of the source.
pub record Env : Type 0 where
  -- `os` and `pathlib` in a directory
  pub os : Text → Os
  -- `math.ceil(float(value) * factor)`
  pub ceil_scaled : Text → ℕ → Option ℤ
  -- the values of a `shlex` object with a delimiter
  pub shlex : ℕ → Text → Result (List Text)
  -- `os.getenv(key, "")`
  pub getenv : Text → Text
  -- `str(uuid.UUID(value))`, where `none` is its `ValueError`, and `uuid.uuid4()`
  pub parse_uuid : Text → Option Text
  pub random_uuid : Text
  -- `fnmatch.fnmatchcase(value, match)`
  pub fnmatchcase : Text → Text → Bool
  -- `os.environ.get("SOURCE_DATE_EPOCH")`, `Architecture.native()` and `detect_distribution()`
  pub os_epoch : Option Text
  pub native_architecture : Architecture
  pub detected : Option Distribution × Option Text
  -- `str` of what is neither a text nor a path nor a constant
  pub str : Value → Text

abbrev old_texts : Option Value → Option (List Text)
old_texts (some (Value.texts v)) = some v
old_texts _ = none

abbrev old_paths : Option Value → Option (List Text)
old_paths (some (Value.paths v)) = some v
old_paths _ = none

abbrev old_trees : Option Value → Option (List ConfigTree)
old_trees (some (Value.trees v)) = some v
old_trees _ = none

abbrev old_drives : Option Value → Option (List QemuDrive)
old_drives (some (Value.drives v)) = some v
old_drives _ = none

abbrev old_constants : Option Value → Option (List Text)
old_constants (some (Value.constants e v)) = some v
old_constants _ = none

abbrev old_dictionary : Option Value → Option (Dict Text)
old_dictionary (some (Value.dictionary v)) = some v
old_dictionary _ = none

abbrev old_version : Option Value → Option Text
old_version (some (Value.text v)) = some v
old_version _ = none

abbrev old_key_source : Option Value → Option KeySource
old_key_source (some (Value.key_source v)) = some v
old_key_source _ = none

abbrev wrap : {A : Type 0} → (A → Value) → Option A → Option Value
wrap f none = none
wrap f (some a) = some (f a)

-- A parser's result as a value.
abbrev pub wrapped : {A : Type 0} → (A → Value) → Result (Option A) → Result (Option Value)
wrapped f r = r >>= λ a. ok (wrap f a)

abbrev pub whole : {A : Type 0} → (A → Value) → Result A → Result (Option Value)
whole f r = r >>= λ a. ok (some (f a))

-- The keyword arguments for `parse_path` that the table gives.
abbrev pub options_of : PathRules → PathOptions
options_of r = record path_options {
  required = r.required;
  secret = r.secret;
  constants = r.constants;
}

module _ (env : Env) (cwd : Text) where
  abbrev parse_given : (Text → Result Text) → Option Text → Result (Option Text)
  parse_given parse none = ok none
  parse_given parse (some v) = parse v >>= λ p. ok (some p)

  -- `config_make_path_parser`
  unfoldable pub config_parse_path : PathRules → Option Text → Result (Option Text)
  unfolding parse_path
  config_parse_path rules value =
      parse_given (parse_path (env.os cwd) (options_of rules)) (given value)

  abbrev existing_key : Text → Result Text
  existing_key v =
      if (env.os cwd).exists v
      then parse_path (env.os cwd) (record path_options { secret = true }) v
      else ok v

  unfoldable pub config_parse_key : Option Text → Result (Option Text)
  unfolding parse_path
  config_parse_key value = parse_given existing_key (given value)

  abbrev uuid_or_die : Option Text → Result Text
  uuid_or_die none = failed (die (lit "is not a valid UUID"))
  uuid_or_die (some u) = ok u

  unfoldable pub config_parse_seed : Option Text → Result (Option Text)
  config_parse_seed none = ok none
  config_parse_seed (some []) = ok none
  config_parse_seed (some (c ∷ s)) =
      if text_eq (c ∷ s) (lit "random")
      then ok none
      else uuid_or_die (env.parse_uuid (c ∷ s)) >>= λ u. ok (some u)

  -- The item of a list.
  unfoldable pub parse_list : Options → Item → Option Text → Option Value → Result (Option Value)
  unfolding config_make_list_parser read_member parse_path parse_tree parse_drive
  parse_list o Item.str v old =
      whole Value.texts (config_make_list_parser env.shlex o (λ s. ok s) v (old_texts old))
  parse_list o Item.drive v old = whole Value.drives (
      config_make_list_parser env.shlex o (parse_drive (env.os cwd) env.ceil_scaled) v
        (old_drives old))
  parse_list o (Item.path r) v old = whole Value.paths (
      config_make_list_parser env.shlex o (parse_path (env.os cwd) (options_of r)) v
        (old_paths old))
  parse_list o (Item.tree absolute) v old =
      whole Value.trees
        (config_make_list_parser env.shlex o (parse_tree (env.os cwd) absolute) v (old_trees old))
  parse_list o (Item.enum e) v old =
      whole (Value.constants e)
        (config_make_list_parser env.shlex o (read_member e) v (old_constants old))

  abbrev pair_parser : Pair → Text → Result (Text × Text)
  pair_parser Pair.environment v = ok (parse_environment env.getenv v)
  pair_parser Pair.credential v = ok (parse_credential v)

  -- `setting.parse(value, old)`
  unfoldable pub parse_setting : Parser → Option Text → Option Value → Result (Option Value)
  unfolding config_parse_boolean config_parse_feature config_parse_key config_parse_output
      config_parse_profile config_parse_compression config_parse_compress_level config_parse_seed
      config_parse_source_date_epoch config_parse_root_password config_parse_minimum_version
      config_parse_sector_size config_parse_bytes config_parse_vsock_cid config_parse_key_source
      config_parse_path parse_list config_make_dict_parser parse_environment parse_credential
      read_enum read_enum_with_boolean
  parse_setting Parser.string v old = ok (wrap Value.text (given v))
  parse_setting Parser.boolean v old = wrapped Value.boolean (config_parse_boolean v none)
  parse_setting Parser.feature v old = wrapped Value.feature (config_parse_feature v none)
  parse_setting Parser.key v old = wrapped Value.path (config_parse_key v)
  parse_setting Parser.output v old = wrapped Value.text (config_parse_output v none)
  parse_setting Parser.profile v old = wrapped Value.text (config_parse_profile v none)
  parse_setting Parser.compression v old =
      wrapped Value.compression (config_parse_compression v none)
  parse_setting Parser.compress_level v old =
      wrapped Value.number (config_parse_compress_level v none)
  parse_setting Parser.seed v old = wrapped Value.uuid (config_parse_seed v)
  parse_setting Parser.source_date_epoch v old =
      wrapped Value.number (config_parse_source_date_epoch v none)
  parse_setting Parser.root_password v old =
      ok (wrap Value.password (config_parse_root_password v none))
  parse_setting Parser.minimum_version v old =
      ok (wrap Value.text (config_parse_minimum_version v (old_version old)))
  parse_setting Parser.sector_size v old = wrapped Value.number (config_parse_sector_size v none)
  parse_setting Parser.bytes v old =
      wrapped Value.number (config_parse_bytes env.ceil_scaled v none)
  parse_setting Parser.vsock_cid v old = wrapped Value.cid (config_parse_vsock_cid v none)
  parse_setting Parser.key_source v old =
      wrapped Value.key_source (config_parse_key_source v (old_key_source old))
  parse_setting (Parser.enum e) v old = wrapped (Value.constant e) (read_enum e v)
  parse_setting (Parser.enum_with_boolean e on off) v old =
      wrapped (Value.constant e) (read_enum_with_boolean e on off v)
  parse_setting (Parser.path r) v old = wrapped Value.path (config_parse_path r v)
  parse_setting (Parser.list o i) v old = parse_list o i v old
  parse_setting (Parser.dict o p) v old =
      whole Value.dictionary
        (config_make_dict_parser env.shlex o (pair_parser p) v (old_dictionary old))

  -- `Path(match.lstrip("/")) in [tree.target for tree in value if tree.target]`
  unfoldable pub config_match_build_sources : Text → List ConfigTree → Bool
  config_match_build_sources match value =
      any
        (λ t. elim t.target [
          | none ↦ false
          | some target ↦ text_eq target (drop_while (λ c. c == b'/') match)
        ])
        value

  -- `setting.match(text, value)` for a value that is not `None`
  abbrev match_some : Matcher → Text → Value → Result Bool
  match_some (Matcher.string globs) m (Value.text v) =
      ok (if globs then env.fnmatchcase v m else text_eq m v)
  match_some (Matcher.enum e) m (Value.constant f v) = match_enum e m v
  match_some Matcher.version m (Value.text v) = ok (config_match_version m v)
  match_some Matcher.build_sources m (Value.trees v) = ok (config_match_build_sources m v)
  match_some Matcher.feature m (Value.feature v) = config_match_feature m v
  match_some _ m v = failed attribute_error

  unfoldable pub match_setting : Matcher → Text → Option Value → Result Bool
  unfolding config_match_build_sources config_match_version config_match_feature match_enum
  match_setting m v none = failed attribute_error
  match_setting m v (some w) = match_some m v w
