-- ===== src/Config/Parse/Main.antt =====
-- `parse_config` of mkosi/config.py behind the reading of the command line: the configuration of the
-- working directory, the images of mkosi.images, their defaults, and the check of the options. An
-- image has a copy of both namespaces; `parsed_includes` and `immutable_settings` are shared.
pub mod Complete
pub mod Results
pub mod Whole
use mkosi.Base.{
  Bool, true, false, not, ◌&&◌, ◌||◌, Option, none, some, List, [], ◌∷◌, ◌++◌, any, if◌then◌else◌,
}
use mkosi.Base.Text.{Text, lit, remove_suffix}
use mkosi.Base.Dict.{Dict, lookup, insert}
use mkosi.Base.Result.{Result, ok, failed, die, key_error, ◌>>=◌}
use mkosi.Ini.{is_empty}
use mkosi.Config.Setting.{Setting, Default}
use mkosi.Config.Settings.{settings, setting_by_dest}
use mkosi.Config.Parse.{Values, FileSystem, State, Calls, Namespace, attribute, set_namespace}
use mkosi.Config.Parse.Defaults.{parse_in, paths_or}

-- What `parse_config` uses of paths and of values beside the above.
pub record Directory (V : Type 0) : Type 0 where
  -- `path.iterdir()` in a directory, in any order, and `path.name`
  pub iterdir : Text → Text → List Text
  pub name : Text → Text
  -- `isinstance(value, (list, tuple))`, and `==`
  pub is_sequence : V → Bool
  pub equal : V → V → Bool

module _ {V : Type 0} (values : Values V) (fs : FileSystem) (calls : Calls V) (dir : Directory V)
    (cwd : Text) where
  -- `finalize_defaults`
  unfoldable pub finalize_defaults : List Setting → State V → Result (State V)
  finalize_defaults [] s = ok s
  finalize_defaults (t ∷ ts) s = calls.finalize_default cwd t s >>= λ r. finalize_defaults ts r.1

  -- The name of the image in a file or directory.
  unfoldable pub image_name : Text → Text
  unfolding remove_suffix
  image_name p = remove_suffix (dir.name p) (lit ".conf")

  -- The namespaces of an image with a name, and whether it is built.
  unfoldable pub parse_image : Text → Text → State V → Result (Bool × State V)
  unfolding parse_in finalize_defaults
  parse_image p name s =
      parse_in values fs calls cwd p
        (set_namespace (lit "image") (some (values.default (Default.text name))) s)
      >>= λ r.
          if r.0 then (finalize_defaults settings r.1 >>= λ u. ok (true, u)) else ok (false, r.1)

  -- What the images share of the state behind one of them.
  abbrev pub shared : State V → State V → State V
  shared s u = record s {
    parsed_includes = u.parsed_includes;
    immutable_settings = u.immutable_settings;
  }

  unfoldable pub parse_images : List Text → State V → Result (List (Namespace V) × State V)
  unfolding parse_image image_name
  parse_images [] s = ok ([], s)
  parse_images (p ∷ ps) s =
      if not (fs.is_dir cwd p) && not (fs.has_conf_suffix p)
      then parse_images ps s
      else if is_empty (image_name p)
      then failed (die (lit "is not a valid image name"))
      else parse_image p (image_name p) s >>= λ r. parse_images ps (shared s r.1) >>= λ rest.
          ok ((if r.0 then r.1.namespace ∷ rest.0 else rest.0), rest.1)

  -- `mkosi.images` or `mkosi.presets`
  unfoldable pub images_directory : Option Text
  images_directory =
      if fs.exists cwd (lit "mkosi.images")
      then some (lit "mkosi.images")
      else if fs.exists cwd (lit "mkosi.presets")
      then some (lit "mkosi.presets")
      else none

  abbrev pub entries_of : Option Text → List Text
  entries_of none = []
  entries_of (some d) = dir.iterdir cwd d

  abbrev pub freeze_images : State V → State V
  freeze_images s = record s { immutable_settings = lit "Images" ∷ s.immutable_settings }

  -- The images of a working directory, with the value of Images.
  unfoldable pub parse_directory : State V → Result (List (Namespace V) × (List Text × State V))
  unfolding parse_images images_directory attribute
  parse_directory s = calls.parse_config_one cwd (lit ".") true s >>= λ r.
      elim (setting_by_dest (lit "images")) [
        | none ↦ failed key_error
        | some t ↦ calls.finalize_default cwd t r.1 >>= λ v.
            parse_images (entries_of images_directory) (freeze_images v.1) >>= λ q.
            ok (q.0, (paths_or values fs (attribute (lit "images") v.1.namespace), q.1))
      ]

  -- `if not images`: the namespace itself is the image.
  unfoldable pub or_default :
      List (Namespace V) × (List Text × State V) → Result (List (Namespace V) × List Text)
  unfolding finalize_defaults
  or_default (i ∷ images, r) = ok (i ∷ images, r.0)
  or_default ([], r) = finalize_defaults settings (set_namespace (lit "image") none r.1) >>= λ u.
      ok (u.namespace ∷ [], r.0)

  -- `getattr(config, s) == getattr(cli_ns, s)`
  abbrev pub has_value : Text → V → Namespace V → Bool
  has_value d v ns = elim (attribute d ns) [ none ↦ false | some w ↦ dir.equal w v ]

  -- A value of the command line is that of an image, if it is no list.
  unfoldable pub is_allowed : List (Namespace V) → Text → Option V → Bool
  unfolding attribute
  is_allowed images d none = true
  is_allowed images d (some v) = elim (setting_by_dest d) [
    | none ↦ true
    | some t ↦ dir.is_sequence v || any (has_value d v) images
  ]

  unfoldable pub check_options : List (Namespace V) → Namespace V → Result (Unit {0})
  unfolding is_allowed
  check_options images [] = ok tt
  check_options images ((d, v) ∷ cli) =
      if is_allowed images d v
      then check_options images cli
      else failed (die (lit "is not allowed to be configured by any images."))

  -- `parse_config` up to its calls of `resolve_deps` and `load_config` with what is returned here: the
  -- images that were read, and the value of Images; `cli` is the state behind the
  -- options, and `has_directory` is `args.directory is not None`.
  unfoldable pub read_images :
      (has_directory : Bool) → State V → Result (List (Namespace V) × List Text)
  unfolding parse_directory or_default check_options
  read_images has_directory cli =
      (if has_directory then parse_directory cli else ok ([], ([], cli))) >>= λ r.
      or_default r >>= λ q. check_options q.0 cli.namespace >>= λ _. ok q
