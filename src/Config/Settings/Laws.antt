-- ===== src/Config/Settings/Laws.antt =====
-- How the settings of the table are found, and how far their defaults depend on each other.
use mkosi.Base.{
  ◌≡◌, refl, inl, inr, true, false, some, List, [], ◌∷◌, ◌++◌, map, arith, All, Bool-cases,
}
use mkosi.Base.Text.{Text, text_eq}
use mkosi.Base.Dict.{Dict, lookup, merge}
use mkosi.Base.Dict.Distinct.{distinct, keys, dict_found}
use mkosi.Ini.{is_empty}
use mkosi.Config.Setting.{Setting}
use mkosi.Config.Settings.{
  settings, names_of, by_name, by_dest, by_specifier, setting_by_name, setting_by_dest,
  setting_by_specifier,
}

pub names_distinct : distinct (keys (by_name settings)) ≡ true
unfolding distinct text_eq settings
names_distinct = refl

pub dests_distinct : distinct (keys (by_dest settings)) ≡ true
unfolding distinct text_eq settings
dests_distinct = refl

pub specifiers_distinct : distinct (keys (by_specifier settings)) ≡ true
unfolding distinct text_eq settings
specifiers_distinct = refl

-- The setting is what each dictionary has under its keys.
pub record IsFound (s : Setting) : Type 0 where
  pub dest : setting_by_dest s.dest ≡ some s
  pub names : All (λ n. setting_by_name n ≡ some s) (names_of s)
  pub specifier : is_empty s.specifier ≡ false → setting_by_specifier s.specifier ≡ some s

module _ {ℓ} (P : Text × Setting → Type ℓ) where
  dests : (ss : List Setting) → All P (by_dest ss) → All (λ s. P (s.dest, s)) ss
  dests [] h = tt
  dests (s ∷ ss) h = (h.0, dests ss h.1)

  split_names :
      (s : Setting) (ns : List Text) (rest : Dict Setting)
      → All P (map (λ n. (n, s)) ns ++ rest)
      → All (λ n. P (n, s)) ns × All P rest
  split_names s [] rest h = (tt, h)
  split_names s (n ∷ ns) rest h = let r = split_names s ns rest h.1 in ((h.0, r.0), r.1)

  names : (ss : List Setting) → All P (by_name ss) → All (λ s. All (λ n. P (n, s)) (names_of s)) ss
  names [] h = tt
  names (s ∷ ss) h = let r = split_names s (names_of s) (by_name ss) h in (r.0, names ss r.1)

  specifiers :
      (ss : List Setting)
      → All P (by_specifier ss)
      → All (λ s. is_empty s.specifier ≡ false → P (s.specifier, s)) ss
  specifiers [] h = tt
  specifiers (s ∷ ss) h = elim (Bool-cases (is_empty s.specifier)) [
    | inl e ↦ ((λ n. ground (arith, e, n)), specifiers ss (rw e at h))
    | inr e ↦ ((λ n. (rw e at h).0), specifiers ss (rw e at h).1)
  ]

together :
    (ss : List Setting)
    → All (λ s. setting_by_dest s.dest ≡ some s) ss
    → All (λ s. All (λ n. setting_by_name n ≡ some s) (names_of s)) ss
    → All (λ s. is_empty s.specifier ≡ false → setting_by_specifier s.specifier ≡ some s) ss
    → All IsFound ss
together [] d n c = tt
together (s ∷ ss) d n c =
    (record { dest = d.0; names = n.0; specifier = c.0 }, together ss d.1 n.1 c.1)

-- Every setting of the table is found by its dest, by each of its names, and by its specifier if it
-- has one.
pub settings-IsFound : All IsFound settings
unfolding setting_by_dest setting_by_name setting_by_specifier
settings-IsFound =
    together settings
      (dests (λ p. lookup p.0 (merge [] (by_dest settings)) ≡ some p.1) settings
        (dict_found (by_dest settings) dests_distinct))
      (names (λ p. lookup p.0 (merge [] (by_name settings)) ≡ some p.1) settings
        (dict_found (by_name settings) names_distinct))
      (specifiers (λ p. lookup p.0 (merge [] (by_specifier settings)) ≡ some p.1) settings
        (dict_found (by_specifier settings) specifiers_distinct))
