-- ===== src/Config/Setting.antt =====
-- `ConfigSetting` of mkosi/config.py: what the table of settings says of a setting, with the parsers,
-- matchers and defaults of the table as data. The texts of `--help` (help, metavar) are left out.
use mkosi.Base.{
  ℕ, ◌-◌, Bool, true, false, ◌&&◌, Option, none, List, [], ◌∷◌, ◌++◌, map, leb, ◌==◌, if◌then◌else◌,
}
use mkosi.Base.Text.{Text, lit}
use mkosi.Base.Split.{split}
use mkosi.Ini.{is_empty}
use mkosi.Config.Value.Sequence.{Options}
use mkosi.Config.Value.Boolean.{lower}

-- The sections of the settings.
pub data Section : Type 0 where
  config distribution output content validation host : Section

-- The enumerations that settings have.
pub data EnumType : Type 0 where
  distribution architecture cacheonly output_format manifest_format bootloader bios_bootloader :
      EnumType
  shim_bootloader secure_boot_sign_tool network qemu_firmware : EnumType

-- The arguments of `make_path_parser` and `config_make_path_parser` that the table gives.
pub record PathRules : Type 0 where
  pub required : Bool
  pub secret : Bool
  pub constants : List Text

abbrev pub path_rules : PathRules
path_rules = record { required = true; secret = false; constants = [] }

-- `parse=` of a list setting: `str`, `make_path_parser(...)`, `make_tree_parser(absolute=...)`,
-- `make_enum_parser(...)` or `parse_drive`.
pub data Item : Type 0 where
  str drive : Item
  path : PathRules → Item
  tree : (absolute : Bool) → Item
  enum : EnumType → Item

-- `parse=` of a dictionary setting.
pub data Pair : Type 0 where
  environment credential : Pair

-- `parse=` of a setting.
pub data Parser : Type 0 where
  string boolean feature key output profile compression compress_level seed : Parser
  source_date_epoch root_password minimum_version sector_size bytes vsock_cid key_source : Parser
  enum : EnumType → Parser
  enum_with_boolean : EnumType → (yes no : Text) → Parser
  path : PathRules → Parser
  list : Options → Item → Parser
  dict : Options → Pair → Parser

-- `match=` of a setting.
pub data Matcher : Type 0 where
  string : (allow_globs : Bool) → Matcher
  enum : EnumType → Matcher
  version build_sources feature : Matcher

-- `default=` of a setting: a constant of an enumeration is given by its string.
pub data Default : Type 0 where
  native_architecture random_uuid key_source_file vsock_hash : Default
  boolean : Bool → Default
  number : ℕ → Default
  text : Text → Default
  constant : EnumType → Text → Default

-- `default_factory=` of a setting; the last five are the table's lambda expressions.
pub data Factory : Type 0 where
  distribution release output compression source_date_epoch kernel_command_line : Factory
  skeleton_trees build_sources tools_tree_distribution tools_tree_release tools_tree_mirror :
      Factory

pub record Setting : Type 0 where
  pub dest : Text
  pub section : Section
  pub parse : Parser
  pub match_value : Option Matcher
  pub name : Text
  pub default : Option Default
  pub default_factory : Option Factory
  pub default_factory_depends : List Text
  pub paths : List Text
  pub path_read_text : Bool
  pub path_secret : Bool
  pub path_default : Bool
  pub specifier : Text
  pub short : Option Text
  pub long : Text
  pub choices : Option EnumType
  pub nargs : Option Text
  pub const_value : Option Text
  pub compat_names : List Text

-- `ConfigSetting(dest=..., section=...)`, with the defaults of the class.
abbrev pub setting : Text → Section → Setting
setting dest section = record {
  dest = dest;
  section = section;
  parse = Parser.string;
  match_value = none;
  name = [];
  default = none;
  default_factory = none;
  default_factory_depends = [];
  paths = [];
  path_read_text = false;
  path_secret = false;
  path_default = true;
  specifier = [];
  short = none;
  long = [];
  choices = none;
  nargs = none;
  const_value = none;
  compat_names = [];
}

abbrev upper : ℕ → ℕ
upper c = if leb b'a' c && leb c b'z' then c - 32 else c

-- `str.capitalize` of ASCII text
unfoldable pub capitalize : Text → Text
unfolding lower
capitalize [] = []
capitalize (c ∷ s) = upper c ∷ lower s

unfoldable pub capitalized_words : List Text → Text
unfolding capitalize
capitalized_words [] = []
capitalized_words (w ∷ ws) =
    if is_empty w then capitalized_words ws else capitalize w ++ capitalized_words ws

abbrev derived : Text → Text → Text
derived [] d = d
derived (c ∷ s) d = c ∷ s

-- `ConfigSetting.__post_init__`: the name and the long option that the table does not give.
unfoldable pub post_init : Setting → Setting
unfolding capitalized_words split
post_init s = record s {
  name = derived s.name (capitalized_words (split b'_' s.dest));
  long = derived s.long (lit "--" ++ map (λ c. if c == b'_' then b'-' else c) s.dest);
}
