-- ===== src/Config/Parse/Condition.antt =====
-- `match_config` of `parse_config`: what a condition of a configuration file says of the settings.
use mkosi.Base.{Bool, true, false, Option, none, some, [], ◌∷◌, if◌then◌else◌}
use mkosi.Base.Text.{Text, lit, text_eq}
use mkosi.Base.Result.{Result, ok, failed, die, ◌>>=◌}
use mkosi.Ini.{is_empty, parse_ini}
use mkosi.Match.{start, match_entries}
use mkosi.Config.Setting.{Setting, Matcher}
use mkosi.Config.Settings.{setting_by_name}
use mkosi.Config.Parse.{Values, FileSystem, State, Calls, attribute}
use mkosi.Config.Parse.Defaults.{expand_specifiers}

module _ {V : Type 0} (values : Values V) (fs : FileSystem) (calls : Calls V) (cwd : Text) where
  -- `match_path_exists`
  unfoldable pub match_path_exists : Text → Bool
  match_path_exists value = if is_empty value then false else fs.exists cwd value

  -- `MATCH_LOOKUP.get(k)`, applied to the value
  unfoldable pub match_by_name : Text → Text → Result Bool
  unfolding match_path_exists
  match_by_name k v =
      if text_eq k (lit "PathExists")
      then ok (match_path_exists v)
      else if text_eq k (lit "SystemdVersion")
      then fs.match_systemd_version v
      else if text_eq k (lit "HostArchitecture")
      then fs.match_host_architecture v
      else failed (die (lit "cannot be used in this section"))

  abbrev pub with_state : State V → Result Bool → Result (Bool × State V)
  with_state s r = r >>= λ b. ok (b, s)

  -- `s.match(v, getattr(namespace, s.dest))` behind `finalize_default`
  abbrev pub match_finalized :
      Setting → Matcher → Text → Option V × State V → Result (Bool × State V)
  match_finalized setting m v (none, s) = ok (false, s)
  match_finalized setting m v (some w, s) =
      with_state s (values.match_value m v (attribute setting.dest s.namespace))

  abbrev pub match_setting : Option Matcher → Setting → Text → State V → Result (Bool × State V)
  match_setting none setting v s = failed (die (lit "cannot be used in this section"))
  match_setting (some m) setting v s =
      calls.finalize_default cwd setting s >>= match_finalized setting m v

  abbrev pub match_named : Option Setting → Text → Text → State V → Result (Bool × State V)
  match_named none k v s = with_state s (match_by_name k v)
  match_named (some setting) k v s = match_setting setting.match_value setting v s

  -- `result` for a condition of a section
  unfoldable pub evaluate : Text → Text → Text → State V → Result (Bool × State V)
  unfolding expand_specifiers match_by_name attribute
  evaluate section k v s = expand_specifiers values fs calls cwd v s >>= λ r.
      if is_empty r.0
      then failed (die (lit "Match value cannot be empty"))
      else match_named (setting_by_name k) k r.0 r.1

  unfoldable pub match_config : Text → State V → Result (Bool × State V)
  unfolding match_entries evaluate parse_ini
  match_config path s =
      if fs.exists cwd path
      then match_entries evaluate
          (parse_ini (fs.read_text cwd path) (lit "Match" ∷ lit "TriggerMatch" ∷ [])) start s
      else ok (true, s)
