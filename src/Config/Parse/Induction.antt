-- ===== src/Config/Parse/Induction.antt =====
-- `match_config` and `parse_config_one` for a relation between states that each change respects, and
-- the induction on the depth of the calls.
use mkosi.Base.{
  ℕ, zero, suc, ◌≡◌, refl, Bool, true, false, not, ◌&&◌, ◌||◌, Option, none, some, List, [], ◌∷◌,
  length, All, if◌then◌else◌, inl, inr, Bool-cases, Option-cases,
}
use mkosi.Base.Text.{Text, lit, text_eq, remove_prefix}
use mkosi.Base.Dict.{contains}
use mkosi.Base.Result.{Result, ok, failed}
use mkosi.Base.Result.Post.{Post, raises, returns, bind-Post, if-Post, own-Post, map-Post}
use mkosi.Ini.{Entry, Entries, stop, raise, yield, is_empty, parse_ini}
use mkosi.Match.{
  Flow, returns, continues, Progress, start, section_end, apply_result, match_step, resume,
  match_entries, condition, negated, is_match_section, is_trigger_section, is_not_false,
}
use mkosi.Config.Setting.{Setting, Matcher}
use mkosi.Config.Settings.{settings, setting_by_name, setting_by_dest}
use mkosi.Config.Parse.{Values, FileSystem, State, Calls, attribute, set_namespace}
use mkosi.Config.Parse.Defaults.{includes}
use mkosi.Config.Parse.Condition.{
  match_by_name, with_state, match_finalized, match_setting, match_named, evaluate, match_config,
}
use mkosi.Config.Parse.File.{
  sections, set_attribute, old_value, check_secret, set_from_path, set_from_paths,
  set_each_from_paths, assign, assign_named, apply_entry, apply_entries, profile_path,
  parse_profile_at, parse_profile_value, parse_profile, parse_drop_ins, parse_extras, parse_matched,
  parse_config_one, calls_within,
}
use mkosi.Config.Parse.Respects.{
  Respects, CallsKeep, parse_in-Post, parse_new_includes-Post, finalize_default-Post,
  expand_specifiers-Post,
}

module _ {V : Type 0} (values : Values V) (fs : FileSystem) {IsKnown : Setting → Type 0}
    {R : State V → State V → Type 0} (h : Respects values fs IsKnown R) where
  module _ (calls : Calls V) (k : CallsKeep values fs h calls) (cwd : Text) where
    with_state-Post :
        (s u : State V) (r : Result Bool)
        → R s u
        → Post (λ r. R s r.1) (with_state values fs calls cwd u r)
    with_state-Post s u (failed e) m = raises
    with_state-Post s u (ok b) m = returns m

    match_finalized-Post :
        (t : Setting) (m : Matcher) (v : Text) (s : State V) (o : Option V) (u : State V)
        → R s u
        → Post (λ r. R s r.1) (match_finalized values fs calls cwd t m v (o, u))
    match_finalized-Post t m v s none u n = returns n
    match_finalized-Post t m v s (some w) u n =
        with_state-Post s u (values.match_value m v (attribute t.dest u.namespace)) n

    match_setting-Post :
        (o : Option Matcher) (t : Setting) (v : Text) (s : State V)
        → IsKnown t
        → Post (λ r. R s r.1) (match_setting values fs calls cwd o t v s)
    match_setting-Post none t v s m = raises
    match_setting-Post (some p) t v s m =
        bind-Post (k.keep_finalize cwd t s m) λ r q. match_finalized-Post t p v s r.0 r.1 q

    match_named-Post :
        (o : Option Setting) (name v : Text) (s : State V)
        → ((t : Setting) → o ≡ some t → IsKnown t)
        → Post (λ r. R s r.1) (match_named values fs calls cwd o name v s)
    match_named-Post none name v s m =
        with_state-Post s s (match_by_name values fs calls cwd name v) (h.refl_R s)
    match_named-Post (some t) name v s m = match_setting-Post t.match_value t v s (m t refl)

    evaluate-Post :
        (section name v : Text) (s : State V)
        → Post (λ r. R s r.1) (evaluate values fs calls cwd section name v s)
    unfolding evaluate
    evaluate-Post section name v s =
        bind-Post (expand_specifiers-Post values fs h calls k cwd v s) λ r q.
          if-Post (is_empty r.0) raises (
            map-Post (λ u m. h.trans_R s r.1 u.1 q m)
              (match_named-Post (setting_by_name name) name r.0 r.1 (h.by_name name)))

    -- The state of a flow.
    abbrev FlowKeeps : State V → Flow (State V) → Type 0
    FlowKeeps s (returns b u) = R s u
    FlowKeeps s (continues p u) = R s u

    section_end-keeps :
        (section : Text) (p : Progress) (s : State V) → FlowKeeps s (section_end section p s)
    unfolding section_end
    section_end-keeps section p s =
        elim (Bool-cases (is_match_section section && not (is_not_false p.condition_triggered))) [
          | inl e ↦ rw (e, section_end) (h.refl_R s)
          | inr e ↦ rw (e, section_end) (h.refl_R s)
        ]

    apply_result-keeps :
        (section : Text) (p : Progress) (trigger result : Bool) (s u : State V)
        → R s u
        → FlowKeeps s (apply_result section p trigger result u)
    unfolding apply_result
    apply_result-keeps section p true result s u m = m
    apply_result-keeps section p false true s u m = m
    apply_result-keeps section p false false s u m =
        elim (Bool-cases (is_trigger_section section)) [
          | inl e ↦ rw (e, apply_result) m
          | inr e ↦ rw (e, apply_result) m
        ]

    match_step-Post :
        (e : Entry) (p : Progress) (s : State V)
        → Post (FlowKeeps s) (match_step (evaluate values fs calls cwd) e p s)
    unfolding match_step
    match_step-Post e p s =
        if-Post (is_empty e.setting && is_empty e.value) (returns (section_end-keeps e.section p s))
          (if-Post p.skip (returns (h.refl_R s)) (
            bind-Post (evaluate-Post e.section e.setting (condition e.value).value s) λ r q.
              returns (
                apply_result-keeps e.section p (condition e.value).trigger
                  (negated (condition e.value).negate r.0) s r.1 q)))

    match_entries-Post :
        (es : Entries) (p : Progress) (s : State V)
        → Post (λ r. R s r.1) (match_entries (evaluate values fs calls cwd) es p s)
    unfolding match_entries
    match_entries-Post stop p s = returns (h.refl_R s)
    match_entries-Post (raise e) p s = raises
    match_entries-Post (yield e rest) p s =
        bind-Post (match_step-Post e p s) λ f m. resumed f m (λ q u. match_entries-Post rest q u)
      where
        resumed :
            (f : Flow (State V))
            → FlowKeeps s f
            → ((q : Progress) (u : State V)
                → Post (λ r. R u r.1) (match_entries (evaluate values fs calls cwd) rest q u))
            → Post
                (λ r. R s r.1)
                (resume
                  (evaluate values fs calls cwd)
                  (match_entries (evaluate values fs calls cwd) rest)
                  f)
        resumed (returns b u) m n = returns m
        resumed (continues q u) m n = map-Post (λ r l. h.trans_R s u r.1 m l) (n q u)

    match_config-Post :
        (path : Text) (s : State V) → Post (λ r. R s r.1) (match_config values fs calls cwd path s)
    unfolding match_config
    match_config-Post path s =
        if-Post (fs.exists cwd path)
          (match_entries-Post
            (parse_ini (fs.read_text cwd path) (lit "Match" ∷ lit "TriggerMatch" ∷ [])) start s)
          (returns {t = (true, s)} (h.refl_R s))

    set_from_path-Post :
        (t : Setting) (f : Text) (s : State V)
        → IsKnown t
        → Post (R s) (set_from_path values fs calls cwd t f s)
    unfolding set_from_path
    set_from_path-Post t f s m =
        bind-Post (own-Post (check_secret values fs calls cwd t.path_secret f)) λ there _.
          if-Post there
            (bind-Post
              (own-Post (
                values.parse cwd t.parse _ (old_value values fs calls cwd t.path_default t.dest s)))
              (λ v e. returns (h.on_assign calls cwd t t.path_default _ s v m e)))
            (returns (h.refl_R s))

    set_from_paths-Post :
        (t : Setting) (ps : List Text) (s : State V)
        → IsKnown t
        → Post (R s) (set_from_paths values fs calls cwd t ps s)
    unfolding set_from_paths
    set_from_paths-Post t [] s m = returns (h.refl_R s)
    set_from_paths-Post t (f ∷ ps) s m =
        bind-Post (set_from_path-Post t f s m)
          λ u q. map-Post (λ w l. h.trans_R s u w q l) (set_from_paths-Post t ps u m)

    set_each_from_paths-Post :
        (ts : List Setting) (s : State V)
        → All IsKnown ts
        → Post (R s) (set_each_from_paths values fs calls cwd ts s)
    unfolding set_each_from_paths
    set_each_from_paths-Post [] s m = returns (h.refl_R s)
    set_each_from_paths-Post (t ∷ ts) s m =
        bind-Post (set_from_paths-Post t t.paths s m.0)
          λ u q. map-Post (λ w l. h.trans_R s u w q l) (set_each_from_paths-Post ts u m.1)

    assign-Post :
        (t : Setting) (to_defaults : Bool) (v : Text) (s : State V)
        → IsKnown t
        → Post (R s) (assign values fs calls cwd t to_defaults v s)
    unfolding assign
    assign-Post t b v s m = bind-Post (expand_specifiers-Post values fs h calls k cwd v s) λ r q.
        bind-Post
          (own-Post
            (values.parse cwd t.parse (some r.0) (old_value values fs calls cwd b t.dest r.1)))
          λ w e.
            map-Post
              (λ u l. h.trans_R s r.1 u q (
                h.trans_R r.1 (set_attribute values fs calls cwd b t.dest w r.1) u
                  (h.on_assign calls cwd t b r.0 r.1 w m e) l))
              (parse_new_includes-Post values fs h calls k cwd (length (includes values fs r.1))
                (set_attribute values fs calls cwd b t.dest w r.1))

    assign_named-Post :
        (o : Option Setting) (name : Text) (b : Bool) (v : Text) (s : State V)
        → ((t : Setting) → o ≡ some t → IsKnown t)
        → Post (R s) (assign_named values fs calls cwd o name b v s)
    assign_named-Post none name b v s m = raises
    assign_named-Post (some t) name b v s m =
        if-Post (contains s.immutable_settings name) raises (assign-Post t b v s (m t refl))

    apply_entry-Post : (e : Entry) (s : State V) → Post (R s) (apply_entry values fs calls cwd e s)
    unfolding apply_entry
    apply_entry-Post e s =
        let name = remove_prefix e.setting (lit "@") in
        if-Post (is_empty e.setting && is_empty e.value) (returns (h.refl_R s)) (
          assign_named-Post (setting_by_name name) name (not (text_eq e.setting name)) e.value s
            (h.by_name name))

    apply_entries-Post :
        (es : Entries) (s : State V) → Post (R s) (apply_entries values fs calls cwd es s)
    unfolding apply_entries
    apply_entries-Post stop s = returns (h.refl_R s)
    apply_entries-Post (raise e) s = raises
    apply_entries-Post (yield e rest) s =
        bind-Post (apply_entry-Post e s)
          λ u q. map-Post (λ w l. h.trans_R s u w q l) (apply_entries-Post rest u)

    parse_profile_at-Post :
        (v : V) (p : Option Text) (s : State V)
        → attribute (lit "profile") s.namespace ≡ some v
        → Post (R s) (parse_profile_at values fs calls cwd v p s)
    parse_profile_at-Post v none s e = raises
    parse_profile_at-Post v (some p) s e =
        bind-Post
          (parse_in-Post values fs h calls k cwd p (set_namespace (lit "profile") (some v) s))
          λ r q.
            returns
              (h.trans_R s (set_namespace (lit "profile") (some v) s) r.1 (h.on_profile s v e) q)

    parse_profile_value-Post :
        (o : Option V) (s : State V)
        → attribute (lit "profile") s.namespace ≡ o
        → Post (R s) (parse_profile_value values fs calls cwd o s)
    parse_profile_value-Post none s e = returns (h.refl_R s)
    parse_profile_value-Post (some v) s e =
        if-Post (is_empty (values.text v)) (returns (h.refl_R s))
          (parse_profile_at-Post v (profile_path values fs calls cwd (values.text v)) s e)

    parse_profile-Post : (s : State V) → Post (R s) (parse_profile values fs calls cwd s)
    unfolding parse_profile
    parse_profile-Post s = elim (Option-cases (setting_by_dest (lit "profile"))) [
      | inl e ↦ rw (e, parse_profile) raises
      | inr (t, e) ↦
          rw (e, parse_profile)
            (bind-Post (k.keep_finalize cwd t s (h.by_dest (lit "profile") t e)) λ r q.
              let u : State V = record r.1 {
                immutable_settings = lit "Profile" ∷ r.1.immutable_settings;
              } in
              map-Post (λ w l. h.trans_R s r.1 w q (h.trans_R r.1 u w (h.on_freeze r.1) l))
                (parse_profile_value-Post (attribute (lit "profile") r.1.namespace) u refl))
    ]

    parse_drop_ins-Post :
        (ps : List Text) (s : State V) → Post (R s) (parse_drop_ins values fs calls cwd ps s)
    unfolding parse_drop_ins
    parse_drop_ins-Post [] s = returns (h.refl_R s)
    parse_drop_ins-Post (p ∷ ps) s =
        if-Post (fs.is_dir cwd p || fs.has_conf_suffix p)
          (bind-Post (parse_in-Post values fs h calls k cwd p s)
            λ r q. map-Post (λ w l. h.trans_R s r.1 w q l) (parse_drop_ins-Post ps r.1))
          (parse_drop_ins-Post ps s)

    parse_extras-Post :
        (dir : Text) (s : State V) → Post (R s) (parse_extras values fs calls cwd dir s)
    unfolding parse_extras
    parse_extras-Post dir s =
        let local = fs.join_path dir (lit "mkosi.local.conf") in
        bind-Post {P = R s}
          (if-Post (fs.exists cwd local)
            (bind-Post (k.keep_one cwd local false s) (λ r q. returns q)) (returns (h.refl_R s)))
          (λ u q.
            map-Post (λ w l. h.trans_R s u w q l) (set_each_from_paths-Post settings u h.in_table))

    parse_matched-Post :
        (dir : Text) (extras : Bool) (path : Text) (profiles : Bool) (s : State V)
        → Post (R s) (parse_matched values fs calls cwd dir extras path profiles s)
    unfolding parse_matched
    parse_matched-Post dir extras path profiles s =
        bind-Post {P = R s} (if-Post extras (parse_extras-Post dir s) (returns (h.refl_R s))) λ u q.
          bind-Post {P = R u}
            (if-Post (fs.exists cwd path)
              (apply_entries-Post (parse_ini (fs.read_text cwd path) sections) u)
              (returns (h.refl_R u)))
            λ w l.
              bind-Post {P = R w} (if-Post profiles (parse_profile-Post w) (returns (h.refl_R w)))
                λ x m.
                  let drop_ins = fs.join_path dir (lit "mkosi.conf.d") in
                  map-Post (λ y n. h.trans_R s u y q (h.trans_R u w y l (h.trans_R w x y m n)))
                    (if-Post (extras && fs.exists cwd drop_ins)
                      (parse_drop_ins-Post (fs.entries cwd drop_ins) x) (returns (h.refl_R x)))

    parse_config_one-Post :
        (dir : Text) (profiles : Bool) (s : State V)
        → Post (λ r. R s r.1) (parse_config_one values fs calls cwd dir profiles s)
    unfolding parse_config_one
    parse_config_one-Post dir profiles s =
        let extras = fs.is_dir cwd dir in
        let path = if extras then fs.join_path dir (lit "mkosi.conf") else dir in
        bind-Post (match_config-Post path s) λ r q.
          if-Post r.0
            (bind-Post (parse_matched-Post dir extras path profiles r.1)
              λ t l. returns (h.trans_R s r.1 t q l))
            (returns q)

  -- Each call within a depth is related, since all changes that it makes are.
  pub calls_within-CallsKeep : (depth : ℕ) → CallsKeep values fs h (calls_within values fs depth)
  unfolding calls_within
  calls_within-CallsKeep zero = record {
    keep_finalize = λ cwd t s m. raises;
    keep_one = λ cwd path profiles s. raises;
  }
  calls_within-CallsKeep (suc n) =
      let k = calls_within-CallsKeep n in
      record {
        keep_finalize =
            λ cwd t s m. finalize_default-Post values fs h (calls_within values fs n) k cwd t s m;
        keep_one = λ cwd path profiles s.
            parse_config_one-Post (calls_within values fs n) k cwd path profiles s;
      }
