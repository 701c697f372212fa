-- ===== src/Config/Parse/Depth.antt =====
-- How deep `finalize_default` calls itself for the dependencies of defaults.
use mkosi.Base.{
  ℕ, zero, suc, ◌≡◌, ◌≢◌, refl, sym, ap, ◌∙◌, inl, inr, Bool, true, false, not, ◌&&◌, ◌||◌, Option,
  none, some, List, [], ◌∷◌, all, All, if◌then◌else◌, arith, Option-cases, Bool-cases,
}
use mkosi.Base.Text.{Text, lit, text_eq}
use mkosi.Base.Dict.{Dict, lookup, merge}
use mkosi.Base.Result.{Result, ok, failed, out_of_fuel, ◌>>=◌}
use mkosi.Config.Setting.{Setting, Parser, Factory, Default}
use mkosi.Config.Settings.{settings, by_dest, setting_by_dest}
use mkosi.Config.Settings.Laws.{dests_distinct}
use mkosi.Base.Dict.Distinct.{merge-distinct}
use mkosi.Config.Parse.{Values, FileSystem, State, Calls, Namespace, attribute, has_attribute}
use mkosi.Config.Parse.Defaults.{finalize_default, finalize_each, default_of, factory_or_default}
use mkosi.Config.Parse.Finalize.{set_and_include}
use mkosi.Config.Parse.File.{calls_within}

-- Each dest is that of a setting that passes the test.
unfoldable each_known : (Setting → Bool) → List Text → Bool
unfolding setting_by_dest
each_known p [] = true
each_known p (d ∷ ds) = elim (setting_by_dest d) [ none ↦ false | some t ↦ p t ] && each_known p ds

-- The dependencies of the setting end in `n` steps, and are settings other than `include`.
unfoldable within : ℕ → Setting → Bool
unfolding each_known
within zero s = false
within (suc n) s =
    not (text_eq s.dest (lit "include")) && each_known (within n) s.default_factory_depends

table_within : all (λ s. text_eq s.dest (lit "include") || within 3 s) settings ≡ true
unfolding within settings text_eq lookup merge
table_within = refl

-- The model's fuel is not what the call fails for.
abbrev pub Ends {ℓ} : {A : Type ℓ} → Result A → Type ℓ
Ends r = r ≢ failed out_of_fuel

bind-Ends {ℓ κ} :
    {A : Type ℓ} {B : Type κ} (r : Result A) (f : A → Result B)
    → Ends r
    → ((a : A) → Ends (f a))
    → Ends (r >>= f)
bind-Ends (failed e) f h k = λ p. h (cc p)
bind-Ends (ok a) f h k = k a

if-Ends {ℓ} : {A : Type ℓ} (b : Bool) (r q : Result A) → Ends r → Ends q → Ends (if b then r else q)
if-Ends true r q h k = h
if-Ends false r q h k = k

-- Parsers and default factories do not run out of the model's fuel.
pub record IsTotal {V : Type 0} (values : Values V) : Type 0 where
  pub parse :
      (cwd : Text) (p : Parser) (v : Option Text) (old : Option V) → Ends (values.parse cwd p v old)
  pub factory : (f : Factory) (ns : Namespace V) → Ends (values.factory f ns)

module _ {V : Type 0} (values : Values V) (fs : FileSystem) (total : IsTotal values)
    (cwd : Text) where
  factory_or_default-Ends :
      (calls : Calls V) (t : Setting) (s : State V) (f : Option Factory) (d : Option Default)
      → Ends (factory_or_default values fs calls cwd t s f d)
  factory_or_default-Ends calls t s (some f) d = total.factory f s.namespace
  factory_or_default-Ends calls t s none none = total.parse cwd t.parse none none
  factory_or_default-Ends calls t s none (some d) = λ q. cc q

  default_of-Ends :
      (calls : Calls V) (t : Setting) (s : State V) → Ends (default_of values fs calls cwd t s)
  unfolding default_of
  default_of-Ends calls t s =
      if-Ends (not (has_attribute t.dest s.namespace) && has_attribute t.dest s.defaults)
        (ok (attribute t.dest s.defaults))
        (factory_or_default values fs calls cwd t s t.default_factory t.default) (λ q. cc q)
        (factory_or_default-Ends calls t s t.default_factory t.default)

  module _ (calls : Calls V) (p : Setting → Bool)
      (ends : (t : Setting) (s : State V)
        → p t ≡ true
        → Ends (calls.finalize_default cwd t s)) where
    finalize_each-Ends :
        (ds : List Text) (s : State V)
        → each_known p ds ≡ true
        → Ends (finalize_each values fs calls cwd ds s)
    unfolding finalize_each each_known
    finalize_each-Ends [] s h = λ q. cc q
    finalize_each-Ends (d ∷ ds) s h = elim (Option-cases (setting_by_dest d)) [
      | inl e ↦ absurd (ground (arith, rw e at h))
      | inr (t, e) ↦
          rw (e, finalize_each)
            (bind-Ends (calls.finalize_default cwd t s) _ (ends t s (ground (arith, rw e at h)))
              (λ r. finalize_each-Ends ds r.1 (ground (arith, rw e at h))))
    ]

    finalize_default-Ends :
        (t : Setting) (s : State V)
        → text_eq t.dest (lit "include") ≡ false
        → each_known p t.default_factory_depends ≡ true
        → Ends (finalize_default values fs calls cwd t s)
    unfolding finalize_default
    finalize_default-Ends t s i h = elim (Option-cases (attribute t.dest s.namespace)) [
      | inl e ↦ rw e (
          bind-Ends (finalize_each values fs calls cwd t.default_factory_depends s) _
            (finalize_each-Ends t.default_factory_depends s h)
            (λ u.
              bind-Ends (default_of values fs calls cwd t u) _ (default_of-Ends calls t u)
                (λ v. rw (set_and_include values fs calls cwd t.dest v u i) (λ q. cc q))))
      | inr (v, e) ↦ rw e (λ q. cc q)
    ]

  within-Ends :
      (n : ℕ) (t : Setting) (s : State V)
      → within n t ≡ true
      → Ends ((calls_within values fs n).finalize_default cwd t s)
  unfolding within calls_within
  within-Ends zero t s h = cc
  within-Ends (suc n) t s h =
      finalize_default-Ends (calls_within values fs n) (within n) (within-Ends n) t s
        (ground (arith, h)) (ground (arith, h))

-- A value that is found in a dictionary satisfies what all its values do.
pub lookup-All {ℓ κ} :
    {A : Type ℓ} (P : A → Type κ) (k : Text) (d : Dict A) {v : A}
    → All (λ e. P e.1) d
    → lookup k d ≡ some v
    → P v
unfolding lookup
lookup-All P k [] h e = cc e
lookup-All P k ((j, w) ∷ d) h e = elim (Bool-cases (text_eq j k)) [
  | inl b ↦ rw (sym (value (rw b at e))) h.0
  | inr b ↦ lookup-All P k d h.1 (rw b at e)
]
  where
    value : {B : Type ℓ} {x y : B} → some x ≡ some y → x ≡ y
    value p = cc p

abbrev IsWithin : Setting → Type 0
IsWithin s = (text_eq s.dest (lit "include") || within 3 s) ≡ true

found_within :
    (dest : Text) (t : Setting)
    → setting_by_dest dest ≡ some t
    → text_eq t.dest (lit "include") ≡ false
    → within 3 t ≡ true
unfolding setting_by_dest
found_within dest t h i =
    let e =
      lookup-All IsWithin dest (by_dest settings) (each settings table_within)
        (ap (lookup dest) (sym (merge-distinct [] (by_dest settings) dests_distinct)) ∙ h) in
    ground (arith, e, i)
  where
    each :
        (ts : List Setting)
        → all (λ s. text_eq s.dest (lit "include") || within 3 s) ts ≡ true
        → All (λ e. IsWithin e.1) (by_dest ts)
    each [] h = tt
    each (t ∷ ts) h = (ground (arith, h), each ts (ground (arith, h)))

-- `finalize_default` of a setting of the table other than `include` is never out of fuel when its
-- calls of itself may be three deep, for values whose parsers and default factories are not.
pub finalize_default-Ends_within :
    {W : Type 0} (values : Values W) (fs : FileSystem)
    → IsTotal values
    → (dest : Text) (t : Setting) → setting_by_dest dest ≡ some t
    → text_eq t.dest (lit "include") ≡ false
    → (cwd : Text) (s : State W) → Ends ((calls_within values fs 3).finalize_default cwd t s)
finalize_default-Ends_within values fs total dest t h i cwd s =
    within-Ends values fs total cwd 3 t s (found_within dest t h i)
