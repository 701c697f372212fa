-- ===== src/Tests/Frozen.antt =====
-- A file that assigns ImageId, read while Images is frozen and the file's own inode is noted.
use mkosi.Base.{◌≡◌, ◌≢◌, refl, true, false, some, ◌∷◌, []}
use mkosi.Base.Text.{Text, lit, text_eq, remove_prefix}
use mkosi.Base.Dict.{contains, lookup, merge, insert}
use mkosi.Base.Result.{ok}
use mkosi.Base.Split.{partition, cut, splitlines, join, split}
use mkosi.Base.Whitespace.{strip}
use mkosi.Ini.{Entry, parse_ini}
use mkosi.Ini.Dedent.{dedent}
use mkosi.Config.Settings.{settings, setting_by_name}
use mkosi.Config.Parse.{FileSystem, State}
use mkosi.Config.Parse.Defaults.{is_parsed, parse_include}
use mkosi.Config.Parse.File.{calls_within, apply_entry}
use mkosi.Config.Parse.Frozen.{apply_entry-frozen, parse_include-once}
use mkosi.Config.Values.{Value}
use mkosi.Config.Values.Defaults.{table_values}
use mkosi.Tests.Whole.{no_files, fedora}

abbrev file : Text
file = lit "/b.conf"

abbrev one_file : FileSystem
one_file = record no_files {
  exists = λ cwd p. text_eq p file;
  is_file = λ cwd p. text_eq p file;
  read_text = λ cwd p. lit "[Output]\nImageId=base\n";
  stat = λ cwd p. ok (1, 8);
}

abbrev before : State Value
before = record {
  namespace = [];
  defaults = [];
  parsed_includes = (1, 8) ∷ [];
  immutable_settings = lit "Images" ∷ [];
}

abbrev behind : State Value
behind = record before { namespace = (lit "image_id", some (Value.text (lit "base"))) ∷ [] }

file_read :
    (calls_within (table_values fedora) one_file 2).parse_config_one (lit "/") file false before
    ≡ ok (true, behind)
unfolding calls_within settings setting_by_name text_eq lookup merge insert table_values parse_ini
    dedent splitlines partition cut strip join split remove_prefix contains
file_read = refl

abbrev images : Entry
images = record { section = lit "Config"; setting = lit "@Images"; value = lit "a" }

images_is_frozen :
    contains before.immutable_settings (remove_prefix images.setting (lit "@")) ≡ true
unfolding contains text_eq remove_prefix
images_is_frozen = refl

is_noted : is_parsed (1, 8) before.parsed_includes ≡ true
unfolding is_parsed
is_noted = refl

apply_entry-frozen_example :
    apply_entry
      (table_values fedora)
      one_file
      (calls_within (table_values fedora) one_file 2)
      (lit "/")
      images
      behind
    ≢ ok behind
apply_entry-frozen_example =
    apply_entry-frozen (table_values fedora) one_file 2
      (calls_within (table_values fedora) one_file 2) (lit "/") (lit "/") file false true before
      behind behind images images_is_frozen refl file_read

parse_include-once_example :
    parse_include
      (table_values fedora)
      one_file
      (calls_within (table_values fedora) one_file 2)
      (lit "/")
      file
      behind
    ≡ ok behind
parse_include-once_example =
    parse_include-once (table_values fedora) one_file 2
      (calls_within (table_values fedora) one_file 2) (lit "/") (lit "/") file file false true
      before behind (1, 8) refl is_noted file_read
