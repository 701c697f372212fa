-- ===== src/Config/Parse/Known.antt =====
-- A setting that a lookup finds is one of the table, and its dest finds it.
use mkosi.Base.{◌≡◌, sym, ap, ◌∙◌, inl, inr, some, List, [], ◌∷◌, ◌++◌, map, All, Bool-cases}
use mkosi.Base.Text.{Text}
use mkosi.Base.Dict.{Dict, lookup}
use mkosi.Base.Dict.Distinct.{merge-distinct}
use mkosi.Ini.{is_empty}
use mkosi.Config.Setting.{Setting}
use mkosi.Config.Settings.{
  settings, names_of, by_name, by_dest, by_specifier, setting_by_name, setting_by_dest,
  setting_by_specifier,
}
use mkosi.Config.Settings.Laws.{
  IsFound, settings-IsFound, names_distinct, dests_distinct, specifiers_distinct,
}
use mkosi.Config.Parse.Depth.{lookup-All}

module _ (P : Setting → Type 0) where
  dests_hold : (ss : List Setting) → All P ss → All (λ e. P e.1) (by_dest ss)
  dests_hold [] h = tt
  dests_hold (s ∷ ss) h = (h.0, dests_hold ss h.1)

  under_names_hold :
      (s : Setting) (ns : List Text) (rest : Dict Setting)
      → P s
      → All (λ e. P e.1) rest
      → All (λ e. P e.1) (map (λ n. (n, s)) ns ++ rest)
  under_names_hold s [] rest p h = h
  under_names_hold s (n ∷ ns) rest p h = (p, under_names_hold s ns rest p h)

  names_hold : (ss : List Setting) → All P ss → All (λ e. P e.1) (by_name ss)
  names_hold [] h = tt
  names_hold (s ∷ ss) h = under_names_hold s (names_of s) (by_name ss) h.0 (names_hold ss h.1)

  specifiers_hold : (ss : List Setting) → All P ss → All (λ e. P e.1) (by_specifier ss)
  specifiers_hold [] h = tt
  specifiers_hold (s ∷ ss) h = elim (Bool-cases (is_empty s.specifier)) [
    | inl e ↦ rw e (specifiers_hold ss h.1)
    | inr e ↦ rw e (h.0, specifiers_hold ss h.1)
  ]

  module _ (h : All P settings) where
    -- What holds of all settings of the table holds of those that are found.
    pub found_by_dest : (d : Text) (t : Setting) → setting_by_dest d ≡ some t → P t
    unfolding setting_by_dest
    found_by_dest d t e =
        lookup-All P d (by_dest settings) (dests_hold settings h)
          (ap (lookup d) (sym (merge-distinct [] (by_dest settings) dests_distinct)) ∙ e)

    pub found_by_name : (n : Text) (t : Setting) → setting_by_name n ≡ some t → P t
    unfolding setting_by_name
    found_by_name n t e =
        lookup-All P n (by_name settings) (names_hold settings h)
          (ap (lookup n) (sym (merge-distinct [] (by_name settings) names_distinct)) ∙ e)

    pub found_by_specifier : (c : Text) (t : Setting) → setting_by_specifier c ≡ some t → P t
    unfolding setting_by_specifier
    found_by_specifier c t e =
        lookup-All P c (by_specifier settings) (specifiers_hold settings h)
          (ap (lookup c) (sym (merge-distinct [] (by_specifier settings) specifiers_distinct)) ∙ e)

-- The setting is the one that its dest finds.
abbrev pub IsKnown : Setting → Type 0
IsKnown t = setting_by_dest t.dest ≡ some t

pub table_known : All IsKnown settings
table_known = each settings settings-IsFound
  where
    each : (ss : List Setting) → All IsFound ss → All IsKnown ss
    each [] h = tt
    each (s ∷ ss) h = (h.0.dest, each ss h.1)
