-- ===== src/Tests/Parsing.antt =====
-- Reading a configuration: a file system with one file, values that are lists of texts, and the
-- theorems for them.
use mkosi.Base.{◌≡◌, refl, true, false, Option, some, none, List, ◌∷◌, [], ◌++◌}
use mkosi.Base.Text.{Text, lit, text_eq}
use mkosi.Base.Dict.{lookup, merge}
use mkosi.Base.Result.{ok}
use mkosi.Config.Setting.{Setting, setting, Section, Parser, Matcher, Factory}
use mkosi.Config.Settings.{settings, setting_by_dest}
use mkosi.Config.Parse.{Values, FileSystem, State, Calls, set_namespace, set_defaults}
use mkosi.Config.Parse.Defaults.{finalize_default, finalize_each}
use mkosi.Config.Parse.Expand.{escape}
use mkosi.Config.Parse.Finalize.{assign-finalize_default, assign-default}
use mkosi.Config.Parse.Depth.{Ends, IsTotal, finalize_default-Ends_within}
use mkosi.Config.Parse.File.{assign, calls_within}

abbrev Value : Type 0
Value = List Text

abbrev old_texts : Option Value → Value
old_texts none = []
old_texts (some old) = old

abbrev one_text : Text → Option Value
one_text [] = none
one_text (c ∷ s) = some ((c ∷ s) ∷ [])

abbrev parse_value : Parser → Option Text → Option Value → Option Value
parse_value (Parser.list o item) none old = some []
parse_value (Parser.list o item) (some s) old = some (old_texts old ++ (s ∷ []))
parse_value _ none old = none
parse_value _ (some s) old = one_text s

abbrev texts : Values Value
texts = record {
  parse = λ cwd p value old. ok (parse_value p value old);
  match_value = λ m text value. ok false;
  default = λ d. [];
  factory = λ f ns. ok none;
  str = λ v. [];
  paths = λ v. v;
  text = λ v. [];
}

abbrev file : Text
file = lit "/a.conf"

abbrev files : FileSystem
files = record {
  exists = λ cwd p. text_eq p file;
  is_dir = λ cwd p. false;
  is_file = λ cwd p. text_eq p file;
  read_text = λ cwd p. lit "[Config]\nInclude=/a.conf\n";
  stat = λ cwd p. ok (1, 7);
  mode = λ cwd p. 0o644;
  entries = λ cwd p. [];
  enter = λ cwd p. p;
  join_path = λ p q. p ++ (lit "/" ++ q);
  has_conf_suffix = λ p. false;
  resources = lit "/usr/share";
  prepare_builtin = λ p. ok tt;
  match_systemd_version = λ v. ok true;
  match_host_architecture = λ v. ok true;
}

abbrev empty : State Value
empty = record { namespace = []; defaults = []; parsed_includes = []; immutable_settings = [] }

abbrev calls : Calls Value
calls = calls_within texts files 3

abbrev here : Text
here = lit "/"

abbrev mirror : Setting
mirror = setting (lit "mirror") Section.distribution

mirror_is_not_include : text_eq mirror.dest (lit "include") ≡ false
unfolding text_eq
mirror_is_not_include = refl

assign-finalize_default_example :
    (assign texts files calls here mirror false (escape (lit "a")) empty
      ≡ ok (set_namespace (lit "mirror") (some (lit "a" ∷ [])) empty))
    × (finalize_default texts files calls here mirror
          (set_namespace (lit "mirror") (some (lit "a" ∷ [])) empty)
        ≡ ok (some (lit "a" ∷ []), set_namespace (lit "mirror") (some (lit "a" ∷ [])) empty))
assign-finalize_default_example =
    assign-finalize_default texts files calls here mirror (lit "a") mirror_is_not_include empty
      (lit "a" ∷ []) refl

nothing_to_finalize : (s : State Value) → finalize_each texts files calls here [] s ≡ ok s
unfolding finalize_each
nothing_to_finalize s = refl

assign-default_example :
    (assign texts files calls here mirror true (escape (lit "a")) empty
      ≡ ok (set_defaults (lit "mirror") (some (lit "a" ∷ [])) empty))
    × (finalize_default texts files calls here mirror
          (set_defaults (lit "mirror") (some (lit "a" ∷ [])) empty)
        ≡ ok (
          some (lit "a" ∷ []),
          set_namespace
              (lit "mirror")
              (some (lit "a" ∷ []))
              (set_defaults (lit "mirror") (some (lit "a" ∷ [])) empty),
        ))
unfolding lookup
assign-default_example =
    assign-default texts files calls here mirror (lit "a") mirror_is_not_include empty
      (some (lit "a" ∷ [])) refl refl
      (nothing_to_finalize (set_defaults (lit "mirror") (some (lit "a" ∷ [])) empty))

texts-IsTotal : IsTotal texts
texts-IsTotal = record { parse = λ cwd p v old q. cc q; factory = λ f ns q. cc q }

abbrev release : Setting
release = record (setting (lit "release") Section.distribution) {
  short = some (lit "-r");
  long = lit "--release";
  name = lit "Release";
  specifier = lit "r";
  parse = Parser.string;
  match_value = some (Matcher.string false);
  default_factory = some Factory.release;
  default_factory_depends = lit "distribution" ∷ [];
}

release_found : setting_by_dest (lit "release") ≡ some release
unfolding setting_by_dest settings text_eq lookup merge
release_found = refl

release_is_not_include : text_eq release.dest (lit "include") ≡ false
unfolding text_eq
release_is_not_include = refl

finalize_default-Ends_within_example :
    Ends ((calls_within texts files 3).finalize_default here release empty)
finalize_default-Ends_within_example =
    finalize_default-Ends_within texts files texts-IsTotal (lit "release") release release_found
      release_is_not_include here empty
