-- ===== src/Config/Parse/SelfInclude.antt =====
-- A configuration file that includes itself, for `parse_new_includes` and `parse_config_one`.
use mkosi.Base.{
  ℕ, zero, suc, ◌≡◌, refl, Bool, true, false, Option, none, some, List, [], ◌∷◌, ◌++◌, length, ◌⊎◌,
  inl, inr,
}
use mkosi.Base.Text.{Text, lit, text_eq, remove_prefix}
use mkosi.Base.Dict.{contains, lookup, merge}
use mkosi.Base.Result.{ok, failed, out_of_fuel}
use mkosi.Ini.{stop, yield, parse_ini}
use mkosi.Match.{match_entries}
use mkosi.Config.Setting.{Setting, setting, Section, Parser, Item, path_rules}
use mkosi.Config.Settings.{settings, setting_by_name}
use mkosi.Config.Settings.Options.{options, builtin_configs}
use mkosi.Config.Parse.{Values, FileSystem, State, Calls, attribute, set_namespace}
use mkosi.Config.Parse.Defaults.{
  drop, is_parsed, includes, paths_or, parse_in, parse_unseen, parse_include, parse_includes,
  parse_new_includes,
}
use mkosi.Config.Parse.Expand.{escape, expand_specifiers-escape}
use mkosi.Config.Parse.Finalize.{inserted_attribute}
use mkosi.Config.Value.Sequence.{split_values, values_of, config_make_list_parser, parse_each}
use mkosi.Config.Value.Path.{parse_path}
use mkosi.Config.Values.{Value, Env, options_of, parse_setting, parse_list}
use mkosi.Config.Values.Defaults.{table_values}
use mkosi.Config.Parse.Condition.{match_config}
use mkosi.Config.Parse.File.{
  sections, assign, apply_entry, apply_entries, parse_matched, parse_config_one, calls_within,
}

-- The setting that the name "Include" finds.
abbrev pub include_setting : Setting
include_setting = record (setting (lit "include") Section.config) {
  name = lit "Include";
  long = lit "--include";
  parse =
      Parser.list (options b',' false false)
        (Item.path (record path_rules { constants = builtin_configs }));
}

include_found : setting_by_name (lit "Include") ≡ some include_setting
unfolding setting_by_name settings text_eq lookup merge
include_found = refl

drop-append {ℓ} : {A : Type ℓ} (xs ys : List A) → drop (length xs) (xs ++ ys) ≡ ys
unfolding drop
drop-append [] ys = refl
drop-append (x ∷ xs) ys = drop-append xs ys

-- `IsPaths` is what values of `include` are: none, or a list of paths.
module _ {V : Type 0} (IsPaths : Option V → Type 0) (values : Values V) (fs : FileSystem)
    (cwd p : Text) where
  -- The file holds an `Include=` of itself and no conditions, and its path is put behind the paths in
  -- the value of `include`.
  pub record IncludesItself : Type 0 where
    pub inode : ℕ × ℕ
    pub is_there : fs.exists cwd p ≡ true
    pub not_dir : fs.is_dir cwd p ≡ false
    pub is_file : fs.is_file cwd p ≡ true
    pub has_inode : fs.stat cwd p ≡ ok inode
    pub not_builtin : contains builtin_configs p ≡ false
    pub no_conditions :
        parse_ini (fs.read_text cwd p) (lit "Match" ∷ lit "TriggerMatch" ∷ []) ≡ stop
    pub holds :
        parse_ini (fs.read_text cwd p) sections
        ≡ yield (record { section = lit "Config"; setting = lit "Include"; value = escape p }) stop
    pub appends :
        (old : Option V)
        → IsPaths old
        → (v : V) × (values.parse cwd include_setting.parse (some p) old ≡ ok (some v))
          × (values.paths v ≡ paths_or values fs old ++ (p ∷ []))
          × IsPaths (some v)

  module _ (h : IncludesItself) (calls : Calls V)
      (deeper : (s : State V)
        → is_parsed h.inode s.parsed_includes ≡ false
        → contains s.immutable_settings (lit "Include") ≡ false
        → IsPaths (attribute (lit "include") s.namespace)
        → calls.parse_config_one cwd p false s ≡ failed out_of_fuel)
      (s : State V) (new : is_parsed h.inode s.parsed_includes ≡ false)
      (mutable : contains s.immutable_settings (lit "Include") ≡ false)
      (old : IsPaths (attribute (lit "include") s.namespace)) where
    parse_in-fails : parse_in values fs calls cwd p s ≡ failed out_of_fuel
    unfolding parse_in
    parse_in-fails = rw (h.not_dir, parse_in) (rw (h.is_file, parse_in) (deeper s new mutable old))

    include_fails : parse_include values fs calls cwd p s ≡ failed out_of_fuel
    unfolding parse_include parse_unseen
    include_fails = rw (h.not_builtin, h.has_inode, new, parse_in-fails) refl

  module _ (h : IncludesItself) (calls : Calls V)
      (deeper : (s : State V)
        → is_parsed h.inode s.parsed_includes ≡ false
        → contains s.immutable_settings (lit "Include") ≡ false
        → IsPaths (attribute (lit "include") s.namespace)
        → calls.parse_config_one cwd p false s ≡ failed out_of_fuel)
      (s : State V) (new : is_parsed h.inode s.parsed_includes ≡ false)
      (mutable : contains s.immutable_settings (lit "Include") ≡ false)
      (old : IsPaths (attribute (lit "include") s.namespace)) where
    added :
        (v : V)
        → values.paths v ≡ includes values fs s ++ (p ∷ [])
        → includes values fs (set_namespace (lit "include") (some v) s)
          ≡ includes values fs s ++ (p ∷ [])
    unfolding includes
    added v e = rw ((inserted_attribute (lit "include") s.namespace (some v)).0) e

    -- The new include is found behind the old ones, and parsed.
    includes_fail :
        (v : V)
        → values.paths v ≡ includes values fs s ++ (p ∷ [])
        → IsPaths (some v)
        → parse_new_includes values fs calls cwd
            (length (includes values fs s))
            (set_namespace (lit "include") (some v) s)
          ≡ failed out_of_fuel
    unfolding parse_new_includes parse_includes
    includes_fail v e f =
        rw
          (
            added v e,
            drop-append (includes values fs s) (p ∷ []),
            include_fails h calls deeper (set_namespace (lit "include") (some v) s) new mutable
                (rw ((inserted_attribute (lit "include") s.namespace (some v)).0) f),
          )
          refl

    assign_fails :
        assign values fs calls cwd include_setting false (escape p) s ≡ failed out_of_fuel
    unfolding assign includes
    assign_fails =
        let a = h.appends (attribute (lit "include") s.namespace) old in
        rw (expand_specifiers-escape values fs calls cwd p s, a.1) (includes_fail a.0 a.2 a.3)

    entries_fail :
        apply_entries values fs calls cwd
          (yield
            (record { section = lit "Config"; setting = lit "Include"; value = escape p })
            stop)
          s
        ≡ failed out_of_fuel
    unfolding apply_entries apply_entry remove_prefix text_eq
    entries_fail = rw (include_found, mutable, assign_fails) refl

    matched_fails :
        (profiles : Bool)
        → parse_matched values fs calls cwd p false p profiles s ≡ failed out_of_fuel
    unfolding parse_matched
    matched_fails profiles = rw (h.is_there, h.holds, entries_fail) refl

    matches : match_config values fs calls cwd p s ≡ ok (true, s)
    unfolding match_config match_entries
    matches = rw (h.is_there, h.no_conditions) refl

    one_fails :
        (profiles : Bool) → parse_config_one values fs calls cwd p profiles s ≡ failed out_of_fuel
    unfolding parse_config_one
    one_fails profiles = rw (h.not_dir, matches, matched_fails profiles) refl

  -- A file without conditions that includes itself is parsed again and again, to each depth, if its
  -- inode is not among the parsed includes, `Include` can still be modified, and the value of `include`
  -- is a list of paths, if there is one.
  pub parse_config_one-loops :
      (h : IncludesItself) (depth : ℕ) (profiles : Bool) (s : State V)
      → is_parsed h.inode s.parsed_includes ≡ false
      → contains s.immutable_settings (lit "Include") ≡ false
      → IsPaths (attribute (lit "include") s.namespace)
      → (calls_within values fs depth).parse_config_one cwd p profiles s ≡ failed out_of_fuel
  unfolding calls_within
  parse_config_one-loops h zero profiles s new mutable old = refl
  parse_config_one-loops h (suc n) profiles s new mutable old =
      one_fails h (calls_within values fs n) (parse_config_one-loops h n false) s new mutable old
        profiles

-- The values of `include` in the table of settings, and what its parser makes of a path that has no
-- delimiter and is accepted as it is.
abbrev pub IsPathList : Option Value → Type 0
IsPathList o = (o ≡ none) ⊎ ((ps : List Text) × (o ≡ some (Value.paths ps)))

pub include_appends :
    (env : Env) (fs : FileSystem) (cwd : Text) (c : ℕ) (s : Text)
    → split_values b',' (c ∷ s) ≡ (c ∷ s) ∷ []
    → parse_path
        (env.os cwd)
        (options_of (record path_rules { constants = builtin_configs }))
        (c ∷ s)
      ≡ ok (c ∷ s)
    → (old : Option Value) → IsPathList old
    → (v : Value) × ((table_values env).parse cwd include_setting.parse (some (c ∷ s)) old
        ≡ ok (some v))
      × ((table_values env).paths v ≡ paths_or (table_values env) fs old ++ ((c ∷ s) ∷ []))
      × IsPathList (some v)
unfolding table_values parse_setting parse_list config_make_list_parser values_of parse_each
include_appends env fs cwd c s one accepted old (inl e) = (
  Value.paths ((c ∷ s) ∷ []),
  rw (e, one, parse_each, accepted) refl,
  rw e refl,
  inr ((c ∷ s) ∷ [], refl),
)
include_appends env fs cwd c s one accepted old (inr (ps, e)) = (
  Value.paths (ps ++ ((c ∷ s) ∷ [])),
  rw (e, one, parse_each, accepted) refl,
  rw e refl,
  inr (ps ++ ((c ∷ s) ∷ []), refl),
)
