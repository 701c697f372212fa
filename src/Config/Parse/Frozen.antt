-- ===== src/Config/Parse/Frozen.antt =====
-- What is frozen or parsed once, in `parse_config`, stays so.
use mkosi.Base.{ℕ, ◌≡◌, ◌≢◌, refl, Bool, true, false, not, Option, none, some, if◌then◌else◌, arith}
use mkosi.Base.Text.{Text, lit, text_eq, remove_prefix}
use mkosi.Base.Dict.{contains}
use mkosi.Base.Result.{ok}
use mkosi.Base.Result.Post.{Post-ok}
use mkosi.Ini.{Entry, is_empty}
use mkosi.Config.Setting.{Setting}
use mkosi.Config.Settings.{setting_by_name}
use mkosi.Config.Parse.{Values, FileSystem, State, Calls}
use mkosi.Config.Parse.Defaults.{is_parsed, parse_include}
use mkosi.Config.Settings.Options.{builtin_configs}
use mkosi.Config.Parse.File.{set_attribute, assign_named, apply_entry, calls_within}
use mkosi.Config.Parse.Respects.{Respects}
use mkosi.Config.Parse.Induction.{calls_within-CallsKeep}
use mkosi.Config.Parse.Known.{
  IsKnown, found_by_dest, found_by_name, found_by_specifier, table_known,
}

module _ {V : Type 0} (values : Values V) (fs : FileSystem) where
  -- A name that is frozen, and a file that is parsed, are so behind the call.
  record Grows (s u : State V) : Type 0 where
    frozen :
        (n : Text) → contains s.immutable_settings n ≡ true → contains u.immutable_settings n ≡ true
    parsed :
        (i : ℕ × ℕ) → is_parsed i s.parsed_includes ≡ true → is_parsed i u.parsed_includes ≡ true

  same :
      (s u : State V)
      → s.immutable_settings ≡ u.immutable_settings
      → s.parsed_includes ≡ u.parsed_includes
      → Grows s u
  same s u e f = record { frozen = λ n h. rw e at h; parsed = λ i h. rw f at h }

  set_attribute-Grows :
      (calls : Calls V) (cwd : Text) (b : Bool) (d : Text) (v : Option V) (s : State V)
      → Grows s (set_attribute values fs calls cwd b d v s)
  set_attribute-Grows calls cwd true d v s = same s _ refl refl
  set_attribute-Grows calls cwd false d v s = same s _ refl refl

  grows : Respects values fs IsKnown Grows
  unfolding contains is_parsed
  grows = record {
    refl_R = λ s. same s s refl refl;
    trans_R = λ s t u g h. record {
      frozen = λ n m. h.frozen n (g.frozen n m);
      parsed = λ i m. h.parsed i (g.parsed i m);
    };
    by_dest = found_by_dest IsKnown table_known;
    by_name = found_by_name IsKnown table_known;
    by_specifier = found_by_specifier IsKnown table_known;
    in_table = table_known;
    on_default = λ calls cwd t s v m e. same s _ refl refl;
    on_assign = λ calls cwd t b text s v m e. set_attribute-Grows calls cwd b t.dest v s;
    on_include = λ inode s. record { frozen = λ n m. m; parsed = λ i m. ground (arith, m) };
    on_freeze = λ s. record { frozen = λ n m. ground (arith, m); parsed = λ i m. m };
    on_profile = λ s v e. same s _ refl refl;
  }

  module _ (depth : ℕ) (calls : Calls V) (cwd there : Text) where
    assign_named-refused :
        (o : Option Setting) (name : Text) (b : Bool) (v : Text) (s w : State V)
        → contains s.immutable_settings name ≡ true
        → assign_named values fs calls cwd o name b v s ≢ ok w
    assign_named-refused none name b v s w h = λ e. cc e
    assign_named-refused (some t) name b v s w h = rw h (λ e. cc e)

    -- An entry that assigns, with "@" or without, to a setting whose name is frozen when
    -- `parse_config_one` is called is refused after the call, whatever files the call reads.
    pub apply_entry-frozen :
        (path : Text) (profiles matched : Bool) (s u w : State V) (e : Entry)
        → contains s.immutable_settings (remove_prefix e.setting (lit "@")) ≡ true
        → is_empty e.setting ≡ false
        → (calls_within values fs depth).parse_config_one there path profiles s ≡ ok (matched, u)
        → apply_entry values fs calls cwd e u ≢ ok w
    unfolding apply_entry
    apply_entry-frozen path profiles matched s u w e h i r =
        let k = calls_within-CallsKeep values fs grows depth in
        let g = Post-ok _ (k.keep_one there path profiles s) r in
        let name = remove_prefix e.setting (lit "@") in
        rw i (
          assign_named-refused (setting_by_name name) name (not (text_eq e.setting name)) e.value u
            w (g.frozen name h))

    -- A file whose inode is noted when `parse_config_one` is called is not parsed again after the
    -- call: including it changes nothing.
    pub parse_include-once :
        (path p : Text) (profiles matched : Bool) (s u : State V) (inode : ℕ × ℕ)
        → fs.stat cwd (if contains builtin_configs p then fs.join_path fs.resources p else p)
          ≡ ok inode
        → is_parsed inode s.parsed_includes ≡ true
        → (calls_within values fs depth).parse_config_one there path profiles s ≡ ok (matched, u)
        → parse_include values fs calls cwd p u ≡ ok u
    unfolding parse_include
    parse_include-once path p profiles matched s u inode st h r =
        let k = calls_within-CallsKeep values fs grows depth in
        let g = Post-ok _ (k.keep_one there path profiles s) r in rw st (rw (g.parsed inode h) refl)
