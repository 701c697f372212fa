-- ===== src/Config/Parse/Defaults.antt =====
-- `parse_new_includes`, `finalize_default` and `expand_specifiers` of `parse_config`.
use mkosi.Base.{
  ℕ, zero, suc, Bool, true, false, not, ◌&&◌, Option, none, some, List, [], ◌∷◌, ◌++◌, any, length,
  ◌==◌, if◌then◌else◌,
}
use mkosi.Base.Text.{Text, lit}
use mkosi.Base.Dict.{contains}
use mkosi.Base.Result.{Result, ok, failed, key_error, ◌>>=◌}
use mkosi.Config.Setting.{Setting, Default, Factory}
use mkosi.Config.Settings.{setting_by_dest, setting_by_specifier}
use mkosi.Config.Settings.Options.{builtin_configs}
use mkosi.Config.Parse.{Values, FileSystem, State, Calls, attribute, has_attribute, set_namespace}

unfoldable pub drop {ℓ} : {A : Type ℓ} → ℕ → List A → List A
drop zero xs = xs
drop (suc n) [] = []
drop (suc n) (x ∷ xs) = drop n xs

-- `(st_dev, st_ino) in parsed_includes`
unfoldable pub is_parsed : ℕ × ℕ → List (ℕ × ℕ) → Bool
is_parsed i seen = any (λ j. i.0 == j.0 && i.1 == j.1) seen

module _ {V : Type 0} (values : Values V) (fs : FileSystem) where
  abbrev pub paths_or : Option V → List Text
  paths_or none = []
  paths_or (some v) = values.paths v

  -- `getattr(namespace, "include", [])`
  unfoldable pub includes : State V → List Text
  unfolding attribute
  includes s = paths_or (attribute (lit "include") s.namespace)

  module _ (calls : Calls V) (cwd : Text) where
    -- `with chdir(path if path.is_dir() else Path.cwd())`: the test for a file is made in there.
    unfoldable pub parse_in : Text → State V → Result (Bool × State V)
    parse_in path s =
        let there = if fs.is_dir cwd path then fs.enter cwd path else cwd in
        calls.parse_config_one there (if fs.is_file there path then path else lit ".") false s

    -- Parse one include, and note its inode behind that.
    unfoldable pub parse_unseen : Text → Bool → ℕ × ℕ → State V → Result (State V)
    unfolding parse_in
    parse_unseen path builtin inode s =
        (if builtin then fs.prepare_builtin path else ok tt) >>= λ _.
        parse_in path s >>= λ r. ok (record r.1 { parsed_includes = inode ∷ r.1.parsed_includes })

    unfoldable pub parse_include : Text → State V → Result (State V)
    unfolding parse_unseen
    parse_include p s =
        let builtin = contains builtin_configs p in
        let path = if builtin then fs.join_path fs.resources p else p in
        fs.stat cwd path >>= λ inode.
        if is_parsed inode s.parsed_includes then ok s else parse_unseen path builtin inode s

    unfoldable pub parse_includes : List Text → State V → Result (State V)
    unfolding parse_include
    parse_includes [] s = ok s
    parse_includes (p ∷ ps) s = parse_include p s >>= parse_includes ps

    -- The end of `with parse_new_includes(...)`, where `count` includes were there before.
    unfoldable pub parse_new_includes : ℕ → State V → Result (State V)
    unfolding parse_includes includes drop
    parse_new_includes count s = parse_includes (drop count (includes s)) s

    -- `finalize_default(SETTINGS_LOOKUP_BY_DEST[d], ...)` for each `d`
    unfoldable pub finalize_each : List Text → State V → Result (State V)
    finalize_each [] s = ok s
    finalize_each (d ∷ ds) s = elim (setting_by_dest d) [
      | none ↦ failed key_error
      | some t ↦ calls.finalize_default cwd t s >>= λ r. finalize_each ds r.1
    ]

    abbrev pub factory_or_default :
        Setting → State V → Option Factory → Option Default → Result (Option V)
    factory_or_default setting s (some f) d = values.factory f s.namespace
    factory_or_default setting s none none = values.parse cwd setting.parse none none
    factory_or_default setting s none (some d) = ok (some (values.default d))

    -- The default of a setting that has no value.
    unfoldable pub default_of : Setting → State V → Result (Option V)
    unfolding has_attribute attribute
    default_of setting s =
        if not (has_attribute setting.dest s.namespace) && has_attribute setting.dest s.defaults
        then ok (attribute setting.dest s.defaults)
        else factory_or_default setting s setting.default_factory setting.default

    abbrev pub store : Setting → State V → Option V → Result (Option V × State V)
    store setting s v =
        parse_new_includes (length (includes s)) (set_namespace setting.dest v s) >>= λ t. ok (v, t)

    abbrev pub finalize_absent : Setting → State V → Option V → Result (Option V × State V)
    finalize_absent setting s (some v) = ok (some v, s)
    finalize_absent setting s none = finalize_each setting.default_factory_depends s >>= λ t.
        default_of setting t >>= store setting t

    -- `finalize_default`, whose own calls are those of `calls`
    unfoldable pub finalize_default : Setting → State V → Result (Option V × State V)
    unfolding parse_new_includes finalize_each default_of attribute
    finalize_default setting s = finalize_absent setting s (attribute setting.dest s.namespace)

    abbrev pub append_str : Option V → Text → Text
    append_str none rest = rest
    append_str (some v) rest = values.str v ++ rest

    abbrev pub prepend : (Text → Text) → Result (Text × State V) → Result (Text × State V)
    prepend f r = r >>= λ r. ok (f r.0, r.1)

    abbrev pub expand_specifier :
        Option Setting → State V → (State V → Result (Text × State V)) → Result (Text × State V)
    expand_specifier none s rest = rest s
    expand_specifier (some t) s rest =
        calls.finalize_default cwd t s >>= λ r. prepend (append_str r.0) (rest r.1)

    -- `expand_specifiers` from a character on, and whether a "%" was before it.
    unfoldable pub expand_from : Bool → Text → State V → Result (Text × State V)
    expand_from true [] s = ok (b'%' ∷ [], s)
    expand_from false [] s = ok ([], s)
    expand_from true (c ∷ text) s =
        let rest = expand_from false text in
        if c == b'%'
        then prepend (λ r. b'%' ∷ r) (rest s)
        else expand_specifier (setting_by_specifier (c ∷ [])) s rest
    expand_from false (c ∷ text) s =
        let percent = expand_from true text s in
        let rest = expand_from false text s in
        if c == b'%' then percent else prepend (λ r. c ∷ r) rest

    unfoldable pub expand_specifiers : Text → State V → Result (Text × State V)
    unfolding expand_from
    expand_specifiers text s = expand_from false text s
