-- ===== src/Config/Parse/File.antt =====
-- `parse_config_one` of `parse_config`, and its calls of itself.
use mkosi.Base.{
  ℕ, zero, suc, Bool, true, false, not, ◌&&◌, ◌||◌, Option, none, some, List, [], ◌∷◌, ◌++◌, length,
  ◌==◌, if◌then◌else◌,
}
use Prim.Native.Nat.{bit_and}
use mkosi.Base.Text.{Text, lit, text_eq, remove_prefix}
use mkosi.Base.Dict.{contains}
use mkosi.Base.Result.{Result, ok, failed, die, key_error, out_of_fuel, ◌>>=◌}
use mkosi.Ini.{Entry, Entries, stop, raise, yield, is_empty, parse_ini}
use mkosi.Config.Setting.{Setting}
use mkosi.Config.Settings.{settings, setting_by_name, setting_by_dest}
use mkosi.Config.Parse.{Values, FileSystem, State, Calls, attribute, set_namespace, set_defaults}
use mkosi.Config.Parse.Defaults.{
  includes, parse_in, parse_new_includes, expand_specifiers, finalize_default,
}
use mkosi.Config.Parse.Condition.{match_config}

-- `{s.section for s in SETTINGS} | {"Preset"}`
abbrev pub sections : List Text
sections =
    lit "Config"
    ∷ lit "Distribution"
    ∷ lit "Output"
    ∷ lit "Content"
    ∷ lit "Validation"
    ∷ lit "Host"
    ∷ lit "Preset"
    ∷ []

-- `rstrip("\n")`
abbrev rstrip_newlines : Text → Text
rstrip_newlines [] = []
rstrip_newlines (c ∷ s) =
    let rest = rstrip_newlines s in if is_empty rest && c == 10 then [] else c ∷ rest

module _ {V : Type 0} (values : Values V) (fs : FileSystem) where
  module _ (calls : Calls V) (cwd : Text) where
    -- The check of `parse_path` on a file with a secret.
    unfoldable pub check_secret : Bool → Text → Result Bool
    check_secret secret path =
        if secret && fs.exists cwd path && not (bit_and (fs.mode cwd path) 7 == 0)
        then failed (die (lit "Permissions are too open"))
        else ok (fs.exists cwd path)

    abbrev pub set_attribute : Bool → Text → Option V → State V → State V
    set_attribute to_defaults dest v s =
        if to_defaults then set_defaults dest v s else set_namespace dest v s

    abbrev pub old_value : Bool → Text → State V → Option V
    old_value to_defaults dest s =
        if to_defaults then attribute dest s.defaults else attribute dest s.namespace

    -- A setting whose value comes from a file or directory beside the configuration.
    unfoldable pub set_from_path : Setting → Text → State V → Result (State V)
    unfolding check_secret attribute
    set_from_path t f s = check_secret t.path_secret f >>= λ there.
        if there
        then (values.parse cwd t.parse
              (some (if t.path_read_text then rstrip_newlines (fs.read_text cwd f) else f))
              (old_value t.path_default t.dest s)
            >>= λ v. ok (set_attribute t.path_default t.dest v s))
        else ok s

    unfoldable pub set_from_paths : Setting → List Text → State V → Result (State V)
    unfolding set_from_path
    set_from_paths t [] s = ok s
    set_from_paths t (f ∷ fs) s = set_from_path t f s >>= set_from_paths t fs

    unfoldable pub set_each_from_paths : List Setting → State V → Result (State V)
    unfolding set_from_paths
    set_each_from_paths [] s = ok s
    set_each_from_paths (t ∷ ts) s = set_from_paths t t.paths s >>= set_each_from_paths ts

    -- An assignment to a setting: "@" in front of its name assigns to the defaults.
    unfoldable pub assign : Setting → Bool → Text → State V → Result (State V)
    unfolding expand_specifiers parse_new_includes includes attribute
    assign t to_defaults v s = expand_specifiers values fs calls cwd v s >>= λ r.
        values.parse cwd t.parse (some r.0) (old_value to_defaults t.dest r.1) >>= λ w.
        parse_new_includes values fs calls cwd (length (includes values fs r.1))
          (set_attribute to_defaults t.dest w r.1)

    abbrev pub assign_named : Option Setting → Text → Bool → Text → State V → Result (State V)
    assign_named none name to_defaults v s = failed (die (lit "Unknown setting"))
    assign_named (some t) name to_defaults v s =
        if contains s.immutable_settings name
        then failed (die (lit "cannot be modified anymore at this point"))
        else assign t to_defaults v s

    unfoldable pub apply_entry : Entry → State V → Result (State V)
    unfolding assign
    apply_entry e s =
        if is_empty e.setting && is_empty e.value
        then ok s
        else let name = remove_prefix e.setting (lit "@") in
          assign_named (setting_by_name name) name (not (text_eq e.setting name)) e.value s

    unfoldable pub apply_entries : Entries → State V → Result (State V)
    unfolding apply_entry
    apply_entries stop s = ok s
    apply_entries (raise e) s = failed e
    apply_entries (yield e rest) s = apply_entry e s >>= apply_entries rest

    -- `mkosi.profiles/` and what may stand there for the profile
    abbrev pub profile_path : Text → Option Text
    profile_path profile =
        let p = fs.join_path (lit "mkosi.profiles") profile in
        let q = fs.join_path (lit "mkosi.profiles") (profile ++ lit ".conf") in
        if fs.exists cwd p then some p else if fs.exists cwd q then some q else none

    abbrev pub parse_profile_at : V → Option Text → State V → Result (State V)
    parse_profile_at v none s = failed (die (lit "Profile not found in mkosi.profiles/"))
    parse_profile_at v (some p) s =
        parse_in values fs calls cwd p (set_namespace (lit "profile") (some v) s) >>= λ r. ok r.1

    abbrev pub parse_profile_value : Option V → State V → Result (State V)
    parse_profile_value none s = ok s
    parse_profile_value (some v) s =
        if is_empty (values.text v)
        then ok s
        else parse_profile_at v (profile_path (values.text v)) s

    abbrev pub after_finalized : Result (Option V × State V) → Result (State V)
    after_finalized r = r >>= λ r.
        parse_profile_value (attribute (lit "profile") r.1.namespace)
          (record r.1 { immutable_settings = lit "Profile" ∷ r.1.immutable_settings })

    unfoldable pub parse_profile : State V → Result (State V)
    unfolding parse_in attribute
    parse_profile s = elim (setting_by_dest (lit "profile")) [
      | none ↦ failed key_error
      | some t ↦ after_finalized (calls.finalize_default cwd t s)
    ]

    -- The files and directories of mkosi.conf.d
    unfoldable pub parse_drop_ins : List Text → State V → Result (State V)
    unfolding parse_in
    parse_drop_ins [] s = ok s
    parse_drop_ins (p ∷ ps) s =
        if fs.is_dir cwd p || fs.has_conf_suffix p
        then (parse_in values fs calls cwd p s >>= λ r. parse_drop_ins ps r.1)
        else parse_drop_ins ps s

    -- `mkosi.local.conf` and the settings with paths, for a directory
    unfoldable pub parse_extras : Text → State V → Result (State V)
    unfolding set_each_from_paths
    parse_extras dir s =
        (let local = fs.join_path dir (lit "mkosi.local.conf") in
          if fs.exists cwd local
          then (calls.parse_config_one cwd local false s >>= λ r. ok r.1)
          else ok s)
        >>= set_each_from_paths settings

    unfoldable pub parse_matched : Text → Bool → Text → Bool → State V → Result (State V)
    unfolding parse_extras apply_entries parse_profile parse_drop_ins parse_ini
    parse_matched dir extras path profiles s =
        (if extras then parse_extras dir s else ok s) >>= λ s.
        (if fs.exists cwd path
          then apply_entries (parse_ini (fs.read_text cwd path) sections) s
          else ok s)
        >>= λ s. (if profiles then parse_profile s else ok s) >>= λ s.
            let drop_ins = fs.join_path dir (lit "mkosi.conf.d") in
            if extras && fs.exists cwd drop_ins
            then parse_drop_ins (fs.entries cwd drop_ins) s
            else ok s

    -- `parse_config_one`, whose own calls are those of `calls`
    unfoldable pub parse_config_one : Text → Bool → State V → Result (Bool × State V)
    unfolding match_config parse_matched
    parse_config_one dir profiles s =
        let extras = fs.is_dir cwd dir in
        let path = if extras then fs.join_path dir (lit "mkosi.conf") else dir in
        match_config values fs calls cwd path s >>= λ r.
        if r.0
        then (parse_matched dir extras path profiles r.1 >>= λ t. ok (true, t))
        else ok (false, r.1)

  -- The calls to a depth, which is Python's recursion limit.
  unfoldable pub calls_within : ℕ → Calls V
  unfolding finalize_default parse_config_one
  calls_within zero = record {
    finalize_default = λ cwd t s. failed out_of_fuel;
    parse_config_one = λ cwd path profiles s. failed out_of_fuel;
  }
  calls_within (suc n) = record {
    finalize_default = finalize_default values fs (calls_within n);
    parse_config_one = parse_config_one (calls_within n);
  }
