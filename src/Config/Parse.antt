-- ===== src/Config/Parse.antt =====
-- `parse_config` of mkosi/config.py: the namespaces, the file system it reads, and the values of the
-- settings, which the functions of its children take as parameters.
pub mod Defaults
pub mod Condition
pub mod Matched
pub mod File
pub mod Expand
pub mod Finalize
pub mod Depth
pub mod SelfInclude
pub mod Respects
pub mod Induction
pub mod Known
pub mod Frozen
pub mod Typed
pub mod Command
pub mod Main
use mkosi.Base.{
  ℕ, zero, suc, Bool, true, false, ◌&&◌, ◌||◌, Option, none, some, List, [], ◌∷◌, ◌==◌,
  if◌then◌else◌,
}
use mkosi.Base.Text.{Text}
use mkosi.Base.Dict.{Dict, lookup, insert}
use mkosi.Base.Result.{Result}
use mkosi.Config.Setting.{Setting, Parser, Matcher, Default, Factory}

-- The values that settings have: Config/Value.antt models the parsers one by one.
pub record Values (V : Type 0) : Type 0 where
  -- `setting.parse(value, old)` in a directory
  pub parse : Text → Parser → Option Text → Option V → Result (Option V)
  -- `setting.match(text, value)`
  pub match_value : Matcher → Text → Option V → Result Bool
  -- `setting.default`
  pub default : Default → V
  -- `setting.default_factory(namespace)`
  pub factory : Factory → Dict (Option V) → Result (Option V)
  -- `str(value)`
  pub str : V → Text
  -- the elements of the value of `include`, and the text of the value of `profile`
  pub paths : V → List Text
  pub text : V → Text

-- `pathlib` and the files: the first text of an operation is the current directory.
pub record FileSystem : Type 0 where
  pub exists : Text → Text → Bool
  pub is_dir : Text → Text → Bool
  pub is_file : Text → Text → Bool
  pub read_text : Text → Text → Text
  -- `(st_dev, st_ino)`, or an `OSError`
  pub stat : Text → Text → Result (ℕ × ℕ)
  -- `st_mode`
  pub mode : Text → Text → ℕ
  -- `sorted(path.iterdir())`
  pub entries : Text → Text → List Text
  -- the directory that `chdir(path)` enters
  pub enter : Text → Text → Text
  -- `path / name`, and `path.suffix == ".conf"`
  pub join_path : Text → Text → Text
  pub has_conf_suffix : Text → Bool
  -- `resources` of `parse_config`
  pub resources : Text
  -- what `parse_config` does to a built-in configuration: it makes its scripts executable
  pub prepare_builtin : Text → Result (Unit {0})
  -- `match_systemd_version` and `match_host_architecture`
  pub match_systemd_version : Text → Result Bool
  pub match_host_architecture : Text → Result Bool

abbrev pub Namespace : Type 0 → Type 0
Namespace V = Dict (Option V)

-- The two namespaces, and the variables of `parse_config` that its functions share.
pub record State (V : Type 0) : Type 0 where
  pub namespace : Namespace V
  pub defaults : Namespace V
  pub parsed_includes : List (ℕ × ℕ)
  pub immutable_settings : List Text

module _ {V : Type 0} where
  abbrev join_option : Option (Option V) → Option V
  join_option none = none
  join_option (some v) = v

  -- `getattr(ns, dest, None)`
  unfoldable pub attribute : Text → Namespace V → Option V
  attribute dest ns = join_option (lookup dest ns)

  -- `hasattr(ns, dest)`
  unfoldable pub has_attribute : Text → Namespace V → Bool
  has_attribute dest ns = elim (lookup dest ns) [ none ↦ false | some v ↦ true ]

  -- `setattr(namespace, dest, value)` and `setattr(defaults, dest, value)`
  abbrev pub set_namespace : Text → Option V → State V → State V
  set_namespace dest v s = record s { namespace = insert dest v s.namespace }

  abbrev pub set_defaults : Text → Option V → State V → State V
  set_defaults dest v s = record s { defaults = insert dest v s.defaults }

-- `finalize_default(setting, namespace, defaults)` and `parse_config_one(path, namespace, defaults,
-- profiles)` in a directory, which call each other.
pub record Calls (V : Type 0) : Type 0 where
  pub finalize_default : Text → Setting → State V → Result (Option V × State V)
  pub parse_config_one : Text → Text → Bool → State V → Result (Bool × State V)
