-- ===== src/Config/Parse/Respects.antt =====
-- What a relation between the states before and behind a call has to satisfy, and the parts of
-- `parse_config` that read settings for such a relation.
use mkosi.Base.{
  ℕ, ◌≡◌, refl, Bool, true, false, Option, none, some, List, [], ◌∷◌, length, ◌==◌, All,
  if◌then◌else◌, inl, inr, Option-cases,
}
use mkosi.Base.Text.{Text, lit}
use mkosi.Base.Dict.{contains}
use mkosi.Base.Result.{Result, ok}
use mkosi.Base.Result.Post.{Post, raises, returns, bind-Post, if-Post, own-Post, map-Post}
use mkosi.Config.Setting.{Setting}
use mkosi.Config.Settings.{settings, setting_by_name, setting_by_dest, setting_by_specifier}
use mkosi.Config.Settings.Options.{builtin_configs}
use mkosi.Config.Parse.{Values, FileSystem, State, Calls, attribute, set_namespace}
use mkosi.Config.Parse.Defaults.{
  drop, is_parsed, includes, parse_in, parse_unseen, parse_include, parse_includes,
  parse_new_includes, finalize_each, default_of, finalize_absent, finalize_default, append_str,
  prepend, expand_specifier, expand_from, expand_specifiers,
}
use mkosi.Config.Parse.File.{set_attribute, old_value}

module _ {V : Type 0} (values : Values V) (fs : FileSystem) where
  -- The relation holds for each change that is made to the state, and for changes one after the
  -- other; `IsKnown` is what all settings of the table are.
  pub record Respects (IsKnown : Setting → Type 0) (R : State V → State V → Type 0) : Type 0 where
    pub refl_R : (s : State V) → R s s
    pub trans_R : (s t u : State V) → R s t → R t u → R s u
    pub by_dest : (d : Text) (t : Setting) → setting_by_dest d ≡ some t → IsKnown t
    pub by_name : (n : Text) (t : Setting) → setting_by_name n ≡ some t → IsKnown t
    pub by_specifier : (c : Text) (t : Setting) → setting_by_specifier c ≡ some t → IsKnown t
    pub in_table : All IsKnown settings
    pub on_default :
        (calls : Calls V) (cwd : Text) (t : Setting) (s : State V) (v : Option V)
        → IsKnown t
        → default_of values fs calls cwd t s ≡ ok v
        → R s (set_namespace t.dest v s)
    pub on_assign :
        (calls : Calls V) (cwd : Text) (t : Setting) (to_defaults : Bool) (text : Text)
        (s : State V) (v : Option V)
        → IsKnown t
        → values.parse cwd t.parse (some text) (old_value values fs calls cwd to_defaults t.dest s)
          ≡ ok v
        → R s (set_attribute values fs calls cwd to_defaults t.dest v s)
    pub on_include :
        (inode : ℕ × ℕ) (s : State V)
        → R s (record s { parsed_includes = inode ∷ s.parsed_includes })
    pub on_freeze :
        (s : State V) → R s (record s { immutable_settings = lit "Profile" ∷ s.immutable_settings })
    pub on_profile :
        (s : State V) (v : V)
        → attribute (lit "profile") s.namespace ≡ some v
        → R s (set_namespace (lit "profile") (some v) s)

  module _ {IsKnown : Setting → Type 0} {R : State V → State V → Type 0}
      (h : Respects IsKnown R) where
    -- Each call of a `Calls` is related.
    pub record CallsKeep (calls : Calls V) : Type 0 where
      pub keep_finalize :
          (cwd : Text) (t : Setting) (s : State V)
          → IsKnown t
          → Post (λ r. R s r.1) (calls.finalize_default cwd t s)
      pub keep_one :
          (cwd path : Text) (profiles : Bool) (s : State V)
          → Post (λ r. R s r.1) (calls.parse_config_one cwd path profiles s)

    module _ (calls : Calls V) (k : CallsKeep calls) (cwd : Text) where
      pub parse_in-Post :
          (path : Text) (s : State V) → Post (λ r. R s r.1) (parse_in values fs calls cwd path s)
      unfolding parse_in
      parse_in-Post path s = k.keep_one _ _ false s

      parse_unseen-Post :
          (path : Text) (builtin : Bool) (inode : ℕ × ℕ) (s : State V)
          → Post (R s) (parse_unseen values fs calls cwd path builtin inode s)
      unfolding parse_unseen
      parse_unseen-Post path builtin inode s =
          bind-Post (own-Post (if builtin then fs.prepare_builtin path else ok tt)) λ _ _.
            bind-Post (parse_in-Post path s)
              λ r q. returns (h.trans_R s r.1 _ q (h.on_include inode r.1))

      parse_include-Post :
          (p : Text) (s : State V) → Post (R s) (parse_include values fs calls cwd p s)
      unfolding parse_include
      parse_include-Post p s =
          let builtin = contains builtin_configs p in
          let path = if builtin then fs.join_path fs.resources p else p in
          bind-Post (own-Post (fs.stat cwd path)) λ inode _.
            if-Post (is_parsed inode s.parsed_includes) (returns (h.refl_R s))
              (parse_unseen-Post path builtin inode s)

      parse_includes-Post :
          (ps : List Text) (s : State V) → Post (R s) (parse_includes values fs calls cwd ps s)
      unfolding parse_includes
      parse_includes-Post [] s = returns (h.refl_R s)
      parse_includes-Post (p ∷ ps) s =
          bind-Post (parse_include-Post p s)
            λ t q. map-Post (λ u m. h.trans_R s t u q m) (parse_includes-Post ps t)

      pub parse_new_includes-Post :
          (count : ℕ) (s : State V) → Post (R s) (parse_new_includes values fs calls cwd count s)
      unfolding parse_new_includes
      parse_new_includes-Post count s = parse_includes-Post (drop count (includes values fs s)) s

      finalize_each-Post :
          (ds : List Text) (s : State V) → Post (R s) (finalize_each values fs calls cwd ds s)
      unfolding finalize_each
      finalize_each-Post [] s = returns (h.refl_R s)
      finalize_each-Post (d ∷ ds) s = elim (Option-cases (setting_by_dest d)) [
        | inl e ↦ rw (e, finalize_each) raises
        | inr (t, e) ↦
            rw (e, finalize_each)
              (bind-Post (k.keep_finalize cwd t s (h.by_dest d t e))
                λ r q. map-Post (λ u m. h.trans_R s r.1 u q m) (finalize_each-Post ds r.1))
      ]

      finalize_absent-Post :
          (t : Setting) (s : State V) (v : Option V)
          → IsKnown t
          → Post (λ r. R s r.1) (finalize_absent values fs calls cwd t s v)
      finalize_absent-Post t s (some v) m = returns (h.refl_R s)
      finalize_absent-Post t s none m =
          bind-Post (finalize_each-Post t.default_factory_depends s) λ u q.
            bind-Post (own-Post (default_of values fs calls cwd t u)) λ v e.
              bind-Post
                (parse_new_includes-Post (length (includes values fs u)) (set_namespace t.dest v u))
                λ w n. returns (
                  h.trans_R s u w q
                    (h.trans_R u (set_namespace t.dest v u) w (h.on_default calls cwd t u v m e) n))

      pub finalize_default-Post :
          (t : Setting) (s : State V)
          → IsKnown t
          → Post (λ r. R s r.1) (finalize_default values fs calls cwd t s)
      unfolding finalize_default
      finalize_default-Post t s m = finalize_absent-Post t s (attribute t.dest s.namespace) m

      prepend-Post :
          (f : Text → Text) (s : State V) {r : Result (Text × State V)}
          → Post (λ r. R s r.1) r
          → Post (λ r. R s r.1) (prepend values fs calls cwd f r)
      prepend-Post f s raises = raises
      prepend-Post f s (returns m) = returns m

      expand_specifier-Post :
          (o : Option Setting) (s : State V) (rest : State V → Result (Text × State V))
          → ((t : Setting) → o ≡ some t → IsKnown t)
          → ((u : State V) → Post (λ r. R u r.1) (rest u))
          → Post (λ r. R s r.1) (expand_specifier values fs calls cwd o s rest)
      expand_specifier-Post none s rest m n = n s
      expand_specifier-Post (some t) s rest m n =
          bind-Post (k.keep_finalize cwd t s (m t refl)) λ r q.
            prepend-Post (append_str values fs calls cwd r.0) s
              (map-Post (λ u l. h.trans_R s r.1 u.1 q l) (n r.1))

      expand_from-Post :
          (percent : Bool) (text : Text) (s : State V)
          → Post (λ r. R s r.1) (expand_from values fs calls cwd percent text s)
      unfolding expand_from
      expand_from-Post true [] s = returns (h.refl_R s)
      expand_from-Post false [] s = returns (h.refl_R s)
      expand_from-Post true (c ∷ text) s =
          if-Post (c == b'%') (prepend-Post (λ r. b'%' ∷ r) s (expand_from-Post false text s)) (
            expand_specifier-Post (setting_by_specifier (c ∷ [])) s
              (expand_from values fs calls cwd false text) (h.by_specifier (c ∷ []))
              (expand_from-Post false text))
      expand_from-Post false (c ∷ text) s =
          if-Post (c == b'%') (expand_from-Post true text s)
            (prepend-Post (λ r. c ∷ r) s (expand_from-Post false text s))

      pub expand_specifiers-Post :
          (text : Text) (s : State V)
          → Post (λ r. R s r.1) (expand_specifiers values fs calls cwd text s)
      unfolding expand_specifiers
      expand_specifiers-Post text s = expand_from-Post false text s
