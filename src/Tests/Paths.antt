-- ===== src/Tests/Paths.antt =====
-- Paths, drives and key sources at concrete values.
use mkosi.Base.{ℕ, ◌≡◌, ◌≢◌, refl, true, false, Option, some, none, [], ◌++◌}
use mkosi.Base.Text.{Text, lit, text_eq}
use mkosi.Base.Whitespace.{strip, is_space}
use mkosi.Base.Dict.{contains}
use mkosi.Base.Result.{ok, ◌>>=◌}
use mkosi.Config.Value.Number.{ℤ, pos}
use mkosi.Config.Value.Size.{parse_bytes}
use mkosi.Config.Value.Name.{KeySource, KeySourceType, is_valid_filename}
use mkosi.Base.Dict.Distinct.{distinct}
use mkosi.Config.Enums.{OutputFormat, Compression}
use mkosi.Config.Output.{Output, output_names, output_names-distinct}
use mkosi.Config.Value.Path.{Os, PathOptions, parse_path, expanded, check_mode}
use mkosi.Config.Value.Parts.{path_options, QemuDrive, parse_drive, parse_drive-parts}

abbrev engine : KeySource
engine = record { type = KeySourceType.engine; source = lit "pkcs11" }

abbrev os : Os
os = record {
  expandvars = λ s. s;
  expanduser = λ s. s;
  resolve = λ s. lit "/w/" ++ s;
  relative_to_home = λ s. none;
  is_running_user = true;
  in_home = λ s. s;
  exists = λ s. true;
  is_absolute = λ s. false;
  mode = λ s. 0o640;
}

abbrev secret : PathOptions
secret = record path_options { secret = true }

accepts_key : parse_path os secret (lit "key") ≡ ok (lit "/w/key")
unfolding parse_path expanded check_mode contains
accepts_key = refl

no_constants : contains [] (lit "key") ≡ false
unfolding contains
no_constants = refl

abbrev pages : Text → ℕ → Option ℤ
pages s factor = some (pos 4096)

valid_id : is_valid_filename (lit "a") ≡ true
unfolding is_valid_filename strip is_space text_eq
valid_id = refl

abbrev a_drive : ℕ → Text → QemuDrive
a_drive n p = record { id = lit "a"; size = n; directory = some p; options = some (lit "x:y") }

parse_drive-parts_example : parse_drive os pages (lit "a:4K:d:x:y") ≡ (
    parse_bytes pages (lit "4K") >>= λ n.
    parse_path os path_options (lit "d") >>= λ p. ok (a_drive n p))
parse_drive-parts_example =
    parse_drive-parts os pages b'a' [] (lit "4K") b'd' [] b'x' (lit ":y") refl refl refl valid_id

abbrev disk : Output
disk = record {
  output = lit "image";
  output_format = OutputFormat.disk;
  compress_output = Compression.zstd;
}

not_uki : OutputFormat.disk ≢ OutputFormat.uki
not_uki e = cc e

output_names-distinct_example : distinct (output_names disk) ≡ true
output_names-distinct_example = output_names-distinct disk not_uki
