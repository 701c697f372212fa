-- ===== src/Tests/Whole.antt =====
-- `parse_config` on a command line with one option, without configuration files.
use mkosi.Base.{
  ◌≡◌, ◌≢◌, refl, Bool, true, false, some, none, List, ◌∷◌, [], ◌++◌, All, inl, inr, Bool-cases,
}
use mkosi.Base.Text.{Text, lit, text_eq}
use mkosi.Base.Dict.{lookup, merge, insert}
use mkosi.Base.Result.{Result, ok, failed, os_error}
use mkosi.Config.Enums.{Distribution, Architecture}
use mkosi.Config.Settings.{settings, setting_by_dest}
use mkosi.Config.Parse.{FileSystem, State, Namespace, attribute}
use mkosi.Config.Parse.File.{calls_within}
use mkosi.Config.Parse.Typed.{StateFits}
use mkosi.Config.Parse.Command.{Given, parse_args}
use mkosi.Config.Parse.Main.{Directory, read_images}
use mkosi.Config.Parse.Main.Results.{IsComplete}
use mkosi.Config.Parse.Main.Whole.{parse_config-HasType}
use mkosi.Config.Values.{Value, Env}
use mkosi.Config.Values.Defaults.{table_values}
use mkosi.Config.Values.Typed.{HasType}

abbrev pub no_files : FileSystem
no_files = record {
  exists = λ cwd p. false;
  is_dir = λ cwd p. false;
  is_file = λ cwd p. false;
  read_text = λ cwd p. [];
  stat = λ cwd p. failed os_error;
  mode = λ cwd p. 0o644;
  entries = λ cwd p. [];
  enter = λ cwd p. p;
  join_path = λ p q. p ++ (lit "/" ++ q);
  has_conf_suffix = λ p. false;
  resources = lit "/usr/share";
  prepare_builtin = λ p. ok tt;
  match_systemd_version = λ v. ok true;
  match_host_architecture = λ v. ok true;
}

abbrev pub fedora : Env
fedora = record {
  os = λ cwd. record {
    expandvars = λ p. p;
    expanduser = λ p. p;
    resolve = λ p. p;
    relative_to_home = λ p. none;
    is_running_user = true;
    in_home = λ p. p;
    exists = λ p. false;
    is_absolute = λ p. true;
    mode = λ p. 0o644;
  };
  ceil_scaled = λ s n. none;
  shlex = λ d s. ok (s ∷ []);
  getenv = λ k. [];
  parse_uuid = λ s. none;
  random_uuid = lit "uuid";
  fnmatchcase = λ v m. text_eq v m;
  os_epoch = none;
  native_architecture = Architecture.x86_64;
  detected = (some Distribution.fedora, none);
  str = λ v. [];
}

abbrev same_text : Value → Value → Bool
same_text (Value.text a) (Value.text b) = text_eq a b
same_text _ _ = false

abbrev nothing_listed : Directory Value
nothing_listed = record {
  iterdir = λ cwd p. [];
  name = λ p. p;
  is_sequence = λ v. false;
  equal = same_text;
}

abbrev start : State Value
start = record {
  namespace = (lit "directory", none) ∷ [];
  defaults = [];
  parsed_includes = [];
  immutable_settings = [];
}

abbrev given_image_id : State Value
given_image_id = record start {
  namespace = (lit "directory", none) ∷ (lit "image_id", some (Value.text (lit "base"))) ∷ [];
}

abbrev outcome : Result (List (Namespace Value) × List Text)
outcome =
    read_images (table_values fedora) no_files (calls_within (table_values fedora) no_files 3)
      nothing_listed (lit "/") false given_image_id

abbrev built : Result (List (Namespace Value) × List Text) → List (Namespace Value)
built (failed e) = []
built (ok r) = r.0

no_values : (d : Text) (v : Value) → attribute d start.namespace ≢ some v
unfolding attribute lookup
no_values d v e = elim (Bool-cases (text_eq (lit "directory") d)) [
  | inl b ↦ cc (rw b at e)
  | inr b ↦ cc (rw b at e)
]

no_defaults : (d : Text) (v : Value) → attribute d start.defaults ≢ some v
unfolding attribute lookup
no_defaults d v e = cc e

start-StateFits : StateFits HasType start
start-StateFits = record {
  of_namespace = record { fits = λ d t v k e. absurd (no_values d v e) };
  of_defaults = record { fits = λ d t v k e. absurd (no_defaults d v e) };
}

options_read :
    parse_args
      (table_values fedora)
      no_files
      (calls_within (table_values fedora) no_files 3)
      (lit "/")
      ((lit "image_id", Given.single (lit "base")) ∷ [])
      start
    ≡ ok given_image_id
unfolding parse_args setting_by_dest settings text_eq lookup merge insert table_values
options_read = refl

images_read : outcome ≡ ok (built outcome, [])
unfolding read_images calls_within setting_by_dest settings text_eq lookup merge insert table_values
images_read = refl

parse_config-HasType_example : All (IsComplete HasType) (built outcome)
parse_config-HasType_example =
    parse_config-HasType fedora no_files nothing_listed 3 (lit "/")
      ((lit "image_id", Given.single (lit "base")) ∷ []) false start given_image_id (built outcome)
      [] start-StateFits options_read images_read
