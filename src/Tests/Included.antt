-- ===== src/Tests/Included.antt =====
-- A file that includes itself, with the values of the table of settings.
use mkosi.Base.{◌≡◌, refl, false, ◌∷◌, [], inl}
use mkosi.Base.Text.{Text, lit, text_eq, remove_prefix}
use mkosi.Base.Dict.{contains, lookup}
use mkosi.Base.Result.{ok, failed, out_of_fuel}
use mkosi.Ini.{parse_ini}
use mkosi.Ini.Dedent.{dedent}
use mkosi.Base.Whitespace.{strip}
use mkosi.Base.Split.{partition, cut, splitlines, join, split}
use mkosi.Config.Parse.{FileSystem, State, attribute}
use mkosi.Config.Parse.Defaults.{is_parsed}
use mkosi.Config.Parse.SelfInclude.{
  IsPathList, IncludesItself, include_appends, parse_config_one-loops,
}
use mkosi.Config.Parse.File.{calls_within}
use mkosi.Config.Values.{Value, Env, options_of}
use mkosi.Config.Setting.{path_rules}
use mkosi.Config.Values.Defaults.{table_values}
use mkosi.Config.Value.Sequence.{split_values}
use mkosi.Config.Value.Path.{parse_path, expanded, check_mode}
use mkosi.Config.Settings.Options.{builtin_configs}
use mkosi.Tests.Whole.{no_files, fedora}

abbrev here : Text
here = lit "/"

abbrev file : Text
file = lit "/a.conf"

abbrev files : FileSystem
files = record no_files {
  exists = λ cwd p. text_eq p file;
  is_file = λ cwd p. text_eq p file;
  read_text = λ cwd p. lit "[Config]\nInclude=/a.conf\n";
  stat = λ cwd p. ok (1, 7);
}

abbrev env : Env
env = record fedora { os = λ cwd. record (fedora.os cwd) { exists = λ p. text_eq p file } }

abbrev empty : State Value
empty = record { namespace = []; defaults = []; parsed_includes = []; immutable_settings = [] }

is_one_value : split_values b',' file ≡ file ∷ []
unfolding split_values split
is_one_value = refl

file_accepted :
    parse_path (env.os here) (options_of (record path_rules { constants = builtin_configs })) file
    ≡ ok file
unfolding parse_path expanded check_mode contains text_eq
file_accepted = refl

file-IncludesItself : IncludesItself IsPathList (table_values env) files here file
unfolding text_eq contains parse_ini dedent splitlines partition cut strip join split remove_prefix
file-IncludesItself = record {
  inode = (1, 7);
  is_there = refl;
  not_dir = refl;
  is_file = refl;
  has_inode = refl;
  not_builtin = refl;
  no_conditions = refl;
  holds = refl;
  appends = include_appends env files here b'/' (lit "a.conf") is_one_value file_accepted;
}

parse_config_one-loops_example :
    (calls_within (table_values env) files 1000).parse_config_one here file false empty
    ≡ failed out_of_fuel
unfolding is_parsed contains attribute lookup
parse_config_one-loops_example =
    parse_config_one-loops IsPathList (table_values env) files here file file-IncludesItself 1000
      false empty refl refl (inl refl)
