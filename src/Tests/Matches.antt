-- ===== src/Tests/Matches.antt =====
-- Files with match sections, read with the values of the table of settings for the distribution Fedora.
use mkosi.Base.{◌≡◌, refl, Bool, true, false, some, List, ◌∷◌, []}
use mkosi.Base.Text.{Text, lit, text_eq, remove_prefix}
use mkosi.Base.Result.{ok}
use mkosi.Ini.{stop, yield_all, parse_ini}
use mkosi.Match.Meaning.{
  match, trigger_match, Kind, kind_name, Group, Line, Block, ended, other, block_entries, groups,
  group_entries, meaning,
}
use mkosi.Match.Steps.{Gives, IsEvaluable}
use mkosi.Config.Setting.{EnumType}
use mkosi.Config.Settings.{setting_by_name}
use mkosi.Base.Dict.{lookup, merge, contains}
use mkosi.Ini.Dedent.{dedent}
use mkosi.Base.Whitespace.{strip}
use mkosi.Base.Split.{partition, cut, splitlines, join, split}
use mkosi.Match.{condition}
use mkosi.Match.Refines.{AllEvaluable}
use mkosi.Config.Parse.{FileSystem, State, Calls}
use mkosi.Config.Parse.Condition.{evaluate, match_config}
use mkosi.Config.Parse.Matched.{match_sections, match_config-meaning, match_config-unended}
use mkosi.Config.Parse.File.{calls_within}
use mkosi.Config.Values.{Value}
use mkosi.Config.Values.Defaults.{table_values}
use mkosi.Tests.Whole.{no_files, fedora}

abbrev holds : Text → Text → Text → Bool
holds sec k v = text_eq v (lit "fedora")

abbrev here : Text
here = lit "/"

abbrev found : State Value
found = record {
  namespace = (lit "distribution", some (Value.constant EnumType.distribution (lit "fedora"))) ∷ [];
  defaults = [];
  parsed_includes = [];
  immutable_settings = [];
}

abbrev IsFound : State Value → Type 0
IsFound s = s ≡ found

abbrev files : Text → FileSystem
files content = record no_files { exists = λ cwd p. true; read_text = λ cwd p. content }

abbrev calls : Text → Calls Value
calls content = calls_within (table_values fedora) (files content) 3

abbrev line : Text → Line
line v = record { setting = lit "Distribution"; value = v }

fedora_holds :
    (content sec : Text)
    → evaluate
        (table_values fedora)
        (files content)
        (calls content)
        here
        sec
        (lit "Distribution")
        (lit "fedora")
        found
      ≡ ok (true, found)
unfolding evaluate setting_by_name lookup merge text_eq calls_within table_values
fedora_holds content sec = refl

debian_does_not :
    (content sec : Text)
    → evaluate
        (table_values fedora)
        (files content)
        (calls content)
        here
        sec
        (lit "Distribution")
        (lit "debian")
        found
      ≡ ok (false, found)
unfolding evaluate setting_by_name lookup merge text_eq calls_within table_values
debian_does_not content sec = refl

reads_fedora :
    (content : Text) (k : Kind) (v : Text)
    → (condition v).value ≡ lit "fedora"
    → IsEvaluable
        (evaluate (table_values fedora) (files content) (calls content) here)
        holds
        IsFound
        k
        (line v)
unfolding text_eq
reads_fedora content k v e =
    (refl, λ s q. (found, rw (q, e) (fedora_holds content (kind_name k)), refl))

reads_debian :
    (content : Text) (k : Kind) (v : Text)
    → (condition v).value ≡ lit "debian"
    → IsEvaluable
        (evaluate (table_values fedora) (files content) (calls content) here)
        holds
        IsFound
        k
        (line v)
unfolding text_eq
reads_debian content k v e =
    (refl, λ s q. (found, rw (q, e) (debian_does_not content (kind_name k)), refl))

abbrev content : Text
content =
    lit
      "[Output]\nFormat=disk\n[TriggerMatch]\nDistribution=debian\n[TriggerMatch]\nDistribution=fedora\n[Match]\nDistribution=|debian\nDistribution=|!debian\n[Content]\nHostname=a\n"

abbrev debian : Group
debian = record { kind = trigger_match; lines = line (lit "debian") ∷ [] }

abbrev is_fedora : Group
is_fedora = record { kind = trigger_match; lines = line (lit "fedora") ∷ [] }

abbrev debian_or_not : Group
debian_or_not = record { kind = match; lines = line (lit "|debian") ∷ line (lit "|!debian") ∷ [] }

output_is_other :
    (text_eq (lit "Output") (lit "Match") ≡ false)
    × (text_eq (lit "Output") (lit "TriggerMatch") ≡ false)
unfolding text_eq
output_is_other = (refl, refl)

abbrev blocks : List Block
blocks =
    other (lit "Output") output_is_other ∷ ended debian ∷ ended is_fedora ∷ ended debian_or_not ∷ []

reads_blocks : parse_ini content match_sections ≡ yield_all (block_entries blocks) stop
unfolding text_eq contains parse_ini dedent splitlines partition cut strip join split remove_prefix
reads_blocks = refl

blocks_evaluable :
    AllEvaluable
      (evaluate (table_values fedora) (files content) (calls content) here)
      holds
      IsFound
      blocks
unfolding condition
blocks_evaluable = (
  (reads_debian content trigger_match (lit "debian") refl, tt),
  (
    (reads_fedora content trigger_match (lit "fedora") refl, tt),
    (
      (
        reads_debian content match (lit "|debian") refl,
        (reads_debian content match (lit "|!debian") refl, tt),
      ),
      tt,
    ),
  ),
)

match_config-meaning_example :
    Gives
      (match_config
        (table_values fedora)
        (files content)
        (calls content)
        here
        (lit "/mkosi.conf")
        found)
      (meaning holds (groups blocks))
match_config-meaning_example =
    match_config-meaning (table_values fedora) (files content) (calls content) here holds IsFound
      (lit "/mkosi.conf") blocks found refl reads_blocks refl blocks_evaluable

-- The file is for Fedora.
matches_fedora : meaning holds (groups blocks) ≡ true
unfolding meaning condition text_eq
matches_fedora = refl

abbrev only_debian : Text
only_debian = lit "[TriggerMatch]\nDistribution=debian\n"

reads_only :
    parse_ini only_debian match_sections
    ≡ yield_all (block_entries []) (yield_all (group_entries debian) stop)
unfolding text_eq contains parse_ini dedent splitlines partition cut strip join split remove_prefix
reads_only = refl

only_evaluable :
    AllEvaluable
      (evaluate (table_values fedora) (files only_debian) (calls only_debian) here)
      holds
      IsFound
      []
only_evaluable = tt

debian_line :
    IsEvaluable
      (evaluate (table_values fedora) (files only_debian) (calls only_debian) here)
      holds
      IsFound
      trigger_match
      (line (lit "debian"))
unfolding condition
debian_line = reads_debian only_debian trigger_match (lit "debian") refl

-- The distribution is not Debian, and the file matches.
match_config-unended_example :
    Gives
      (match_config
        (table_values fedora)
        (files only_debian)
        (calls only_debian)
        here
        (lit "/mkosi.conf")
        found)
      true
unfolding meaning
match_config-unended_example =
    match_config-unended (table_values fedora) (files only_debian) (calls only_debian) here holds
      IsFound (lit "/mkosi.conf") [] debian found refl reads_only refl only_evaluable
      (debian_line, tt)
