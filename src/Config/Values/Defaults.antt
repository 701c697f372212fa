-- ===== src/Config/Values/Defaults.antt =====
-- The default factories of mkosi/config.py and of its table, and the values of the table as an
-- instance of `Values`.
use mkosi.Base.{
  Bool, true, false, ◌&&◌, ◌||◌, Option, none, some, List, [], ◌∷◌, ◌++◌, map, leb, if◌then◌else◌,
}
use mkosi.Base.Text.{Text, lit, text_eq}
use mkosi.Base.Dict.{lookup}
use mkosi.Base.Result.{Result, ok, failed, attribute_error, value_error, ◌>>=◌}
use mkosi.Config.Enums.{Compression, Architecture, Distribution, OutputFormat}
use mkosi.Config.StrEnum.{of_value, distribution_enum, architecture_enum, output_format_enum}
use mkosi.Config.Setting.{EnumType, Default, Factory}
use mkosi.Config.Families.{is_centos_variant}
use mkosi.Distributions.{default_release, default_tools_tree_distribution}
use mkosi.Config.Architecture.{default_serial_tty}
use mkosi.Config.Value.Number.{ℤ, pos, negsuc, int, vsock_hash}
use mkosi.Config.Value.Name.{KeySourceType}
use mkosi.Config.Value.Parts.{ConfigTree}
use mkosi.Config.Value.Epoch.{config_default_source_date_epoch}
use mkosi.Config.Parse.{Values, Namespace}
use mkosi.Config.Values.{Value, Env, wrapped, parse_setting, match_setting}

-- `namespace.dest`: what was not set is an `AttributeError`.
unfoldable pub read : Text → Namespace Value → Result (Option Value)
unfolding lookup
read dest ns = elim (lookup dest ns) [ none ↦ failed attribute_error | some v ↦ ok v ]

abbrev pub as_distribution : Option Value → Option Distribution
as_distribution (some (Value.constant t s)) = of_value distribution_enum s
as_distribution _ = none

abbrev pub as_architecture : Option Value → Option Architecture
as_architecture (some (Value.constant t s)) = of_value architecture_enum s
as_architecture _ = none

abbrev as_output_format : Option Value → Option OutputFormat
as_output_format (some (Value.constant t s)) = of_value output_format_enum s
as_output_format _ = none

abbrev pub as_text : Option Value → Text
as_text (some (Value.text s)) = s
as_text (some (Value.path s)) = s
as_text _ = []

-- A call of a method of `None` is an `AttributeError`.
abbrev pub there : {A : Type 0} → Option A → Result A
there none = failed attribute_error
there (some a) = ok a

abbrev pub distribution_of : Namespace Value → Result Distribution
distribution_of ns = read (lit "distribution") ns >>= λ v. there (as_distribution v)

abbrev pub constant_of : Distribution → Value
constant_of d = Value.constant EnumType.distribution (distribution_enum.value d)

abbrev pub or_custom : Option Distribution → Distribution
or_custom none = Distribution.custom
or_custom (some d) = d

abbrev same_distribution : Distribution → Distribution → Bool
same_distribution d e = text_eq (distribution_enum.value d) (distribution_enum.value e)

-- `config_default_distribution`
unfoldable pub config_default_distribution : Env → Result (Option Value)
config_default_distribution env = ok (some (constant_of (or_custom env.detected.0)))

-- `config_default_release`
abbrev pub host_release : Distribution → Option Distribution × Option Text → Text
host_release d (some h, some r) = if same_distribution d h then r else default_release d
host_release d _ = default_release d

unfoldable pub config_default_release : Env → Namespace Value → Result (Option Value)
unfolding read of_value default_release
config_default_release env ns =
    distribution_of ns >>= λ d. ok (some (Value.text (host_release d env.detected)))

-- `namespace.image_id or namespace.image or "image"`
abbrev image_or : Text → Text
image_or [] = lit "image"
image_or (c ∷ s) = c ∷ s

abbrev pub name_or : Text → Namespace Value → Result Text
name_or [] ns = read (lit "image") ns >>= λ v. ok (image_or (as_text v))
name_or (c ∷ s) ns = ok (c ∷ s)

abbrev pub with_version : Text → Text → Text
with_version output [] = output
with_version output (c ∷ s) = output ++ (b'_' ∷ c ∷ s)

unfoldable pub config_default_output : Namespace Value → Result (Option Value)
unfolding read
config_default_output ns = read (lit "image_id") ns >>= λ i. name_or (as_text i) ns >>= λ output.
    read (lit "image_version") ns >>= λ v. ok (some (Value.text (with_version output (as_text v))))

-- `int(namespace.release) <= 8`
abbrev at_most_8 : Option ℤ → Result Bool
at_most_8 none = failed value_error
at_most_8 (some (negsuc n)) = ok true
at_most_8 (some (pos n)) = ok (leb n 8)

-- The distributions that cannot read zstd.
abbrev needs_xz : Distribution → Text → Result Bool
needs_xz d release = (if is_centos_variant d then at_most_8 (int release) else ok false) >>= λ old.
    ok (old || (same_distribution d Distribution.ubuntu && text_eq release (lit "focal")))

-- `output_format in (tar, cpio, uki, esp)`
abbrev is_compressed : Option OutputFormat → Bool
is_compressed (some OutputFormat.tar) = true
is_compressed (some OutputFormat.cpio) = true
is_compressed (some OutputFormat.uki) = true
is_compressed (some OutputFormat.esp) = true
is_compressed _ = false

unfoldable pub config_default_compression : Namespace Value → Result (Option Value)
unfolding read of_value is_centos_variant int
config_default_compression ns = read (lit "output_format") ns >>= λ f.
    if is_compressed (as_output_format f)
    then (distribution_of ns >>= λ d. read (lit "release") ns >>= λ r.
        needs_xz d (as_text r) >>= λ xz.
        ok (some (Value.compression (if xz then Compression.xz else Compression.zstd))))
    else ok (some (Value.compression Compression.none))

abbrev pub keys_of : Option Value → List Text
keys_of (some (Value.dictionary d)) = map (λ e. e.0) d
keys_of _ = []

unfoldable pub config_default_kernel_command_line : Namespace Value → Result (Option Value)
unfolding read of_value default_serial_tty
config_default_kernel_command_line ns = read (lit "architecture") ns >>= λ v.
    there (as_architecture v) >>= λ a.
    ok (some (Value.texts ((lit "console=" ++ default_serial_tty a) ∷ [])))

-- `[ConfigTree(ns.directory, None)] if ns.directory else []`
abbrev source_trees : Text → List ConfigTree
source_trees [] = []
source_trees (c ∷ s) = record { source = c ∷ s; target = none } ∷ []

abbrev pub maybe_distribution : Option Distribution → Option Value
maybe_distribution none = none
maybe_distribution (some d) = some (constant_of d)

abbrev pub release_of : Option Distribution → Option Value
release_of none = none
release_of (some d) = some (Value.text (default_release d))

abbrev same_tools : Option Distribution → Option Distribution → Bool
same_tools (some d) (some e) = same_distribution d e
same_tools none none = true
same_tools _ _ = false

-- `ns.mirror if ns.mirror and ns.distribution == ns.tools_tree_distribution else None`
abbrev pub tools_mirror : Text → Namespace Value → Result (Option Value)
tools_mirror [] ns = ok none
tools_mirror (c ∷ s) ns = read (lit "distribution") ns >>= λ d.
    read (lit "tools_tree_distribution") ns >>= λ t.
    ok (
      if same_tools (as_distribution d) (as_distribution t)
      then some (Value.text (c ∷ s))
      else none)

-- `setting.default_factory(namespace)`
unfoldable pub make_default : Env → Factory → Namespace Value → Result (Option Value)
unfolding config_default_distribution config_default_release config_default_output
    config_default_compression config_default_source_date_epoch config_default_kernel_command_line
    default_tools_tree_distribution default_release read of_value
make_default env Factory.distribution ns = config_default_distribution env
make_default env Factory.release ns = config_default_release env ns
make_default env Factory.output ns = config_default_output ns
make_default env Factory.compression ns = config_default_compression ns
make_default env Factory.source_date_epoch ns = read (lit "environment") ns >>= λ e.
    wrapped Value.number (config_default_source_date_epoch (keys_of e) env.os_epoch)
make_default env Factory.kernel_command_line ns = config_default_kernel_command_line ns
make_default env Factory.skeleton_trees ns = read (lit "skeleton_trees") ns
make_default env Factory.build_sources ns =
    read (lit "directory") ns >>= λ d. ok (some (Value.trees (source_trees (as_text d))))
make_default env Factory.tools_tree_distribution ns =
    distribution_of ns >>= λ d. ok (maybe_distribution (default_tools_tree_distribution d))
make_default env Factory.tools_tree_release ns =
    read (lit "tools_tree_distribution") ns >>= λ t. ok (release_of (as_distribution t))
make_default env Factory.tools_tree_mirror ns =
    read (lit "mirror") ns >>= λ m. tools_mirror (as_text m) ns

-- `setting.default`
unfoldable pub default_value : Env → Default → Value
default_value env Default.native_architecture =
    Value.constant EnumType.architecture (architecture_enum.value env.native_architecture)
default_value env Default.random_uuid = Value.uuid env.random_uuid
default_value env Default.key_source_file =
    Value.key_source (record { type = KeySourceType.file; source = [] })
default_value env Default.vsock_hash = Value.cid vsock_hash
default_value env (Default.boolean b) = Value.boolean b
default_value env (Default.number n) = Value.number n
default_value env (Default.text s) = Value.text s
default_value env (Default.constant t s) = Value.constant t s

-- `str(value)`
unfoldable pub str_value : Env → Value → Text
str_value env (Value.text s) = s
str_value env (Value.path s) = s
str_value env (Value.uuid s) = s
str_value env (Value.constant t s) = s
str_value env v = env.str v

abbrev path_list : Value → List Text
path_list (Value.texts s) = s
path_list (Value.paths s) = s
path_list _ = []

-- The values that the table of settings describes.
unfoldable pub table_values : Env → Values Value
unfolding parse_setting match_setting make_default default_value str_value
table_values env = record {
  parse = parse_setting env;
  match_value = match_setting env (lit ".");
  default = default_value env;
  factory = make_default env;
  str = str_value env;
  paths = path_list;
  text = λ v. as_text (some v);
}
