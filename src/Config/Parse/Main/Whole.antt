-- ===== src/Config/Parse/Main/Whole.antt =====
-- `parse_config` as a whole, from the options of the command line to the images, with the values that
-- the table of settings describes.
use mkosi.Base.{
  ℕ, ◌≡◌, inl, inr, ap, ◌∙◌, Bool, false, Option, none, some, List, [], ◌∷◌, length, All,
  Option-cases,
}
use mkosi.Base.Text.{Text}
use mkosi.Base.Result.{ok}
use mkosi.Base.Result.Post.{Post, raises, returns, bind-Post, own-Post, map-Post, Post-ok}
use mkosi.Config.Setting.{Setting, Parser}
use mkosi.Config.Settings.{setting_by_dest}
use mkosi.Config.Parse.{Values, FileSystem, State, Calls, Namespace, attribute}
use mkosi.Config.Parse.Defaults.{includes}
use mkosi.Config.Parse.File.{calls_within}
use mkosi.Config.Parse.Respects.{parse_new_includes-Post}
use mkosi.Config.Parse.Induction.{calls_within-CallsKeep}
use mkosi.Config.Parse.Known.{IsKnown, found_by_dest, table_known}
use mkosi.Config.Parse.Typed.{StateFits, ValuesFit, Kept, kept, set_attribute-Kept}
use mkosi.Config.Parse.Command.{
  Given, with_const, set_value, set_each_value, set_given, config_action, parse_args,
}
use mkosi.Config.Parse.Main.{Directory, read_images}
use mkosi.Config.Parse.Main.Results.{IsComplete, parse_config-IsComplete}
use mkosi.Config.Values.{Value, Env}
use mkosi.Config.Values.Defaults.{table_values}
use mkosi.Config.Values.Typed.{HasType}
use mkosi.Config.Values.Fit.{table_values-ValuesFit}

module _ {V : Type 0} (Fits : Parser → V → Type 0) (values : Values V) (fs : FileSystem)
    (fit : ValuesFit Fits values) (depth : ℕ) (cwd : Text) where
  abbrev calls : Calls V
  calls = calls_within values fs depth

  set_value-Fits :
      (t : Setting) (v : Option Text) (s : State V)
      → IsKnown t
      → StateFits Fits s
      → Post (StateFits Fits) (set_value values fs calls cwd t v s)
  unfolding set_value
  set_value-Fits t v s k h =
      bind-Post (own-Post (values.parse cwd t.parse v (attribute t.dest s.namespace))) λ w e.
        returns (
          set_attribute-Kept Fits values fs fit calls cwd false t w s k h (λ x q.
            fit.parsed cwd t.parse v (attribute t.dest s.namespace) x
              (λ o l. h.of_namespace.fits t.dest t o k l) (e ∙ ap ok q)))

  set_each_value-Fits :
      (t : Setting) (vs : List Text) (s : State V)
      → IsKnown t
      → StateFits Fits s
      → Post (StateFits Fits) (set_each_value values fs calls cwd t vs s)
  unfolding set_each_value
  set_each_value-Fits t [] s k h = returns h
  set_each_value-Fits t (v ∷ vs) s k h =
      bind-Post (set_value-Fits t (some v) s k h) λ u m. set_each_value-Fits t vs u k m

  set_given-Fits :
      (t : Setting) (g : Given) (s : State V)
      → IsKnown t
      → StateFits Fits s
      → Post (StateFits Fits) (set_given values fs calls cwd t g s)
  unfolding set_given
  set_given-Fits t Given.absent s k h = set_value-Fits t none s k h
  set_given-Fits t (Given.single v) s k h = set_value-Fits t (some v) s k h
  set_given-Fits t (Given.several vs) s k h = set_each_value-Fits t vs s k h

  config_action-Fits :
      (d : Text) (g : Given) (s : State V)
      → StateFits Fits s
      → Post (StateFits Fits) (config_action values fs calls cwd d g s)
  unfolding config_action Kept
  config_action-Fits d g s h = elim (Option-cases (setting_by_dest d)) [
    | inl e ↦ rw (config_action, e) raises
    | inr (t, e) ↦
        rw (config_action, e)
          (bind-Post
            (set_given-Fits t (with_const t g) s (found_by_dest IsKnown table_known d t e) h)
            λ u m.
              map-Post (λ w q. q m)
                (parse_new_includes-Post values fs (kept Fits values fs fit) calls
                  (calls_within-CallsKeep values fs (kept Fits values fs fit) depth) cwd
                  (length (includes values fs s)) u))
  ]

  parse_args-Fits :
      (options : List (Text × Given)) (s : State V)
      → StateFits Fits s
      → Post (StateFits Fits) (parse_args values fs calls cwd options s)
  unfolding parse_args
  parse_args-Fits [] s h = returns h
  parse_args-Fits ((d, g) ∷ options) s h =
      bind-Post (config_action-Fits d g s h) λ u m. parse_args-Fits options u m

-- With the parsers and defaults of the table: if the options of the command line are accepted, in a
-- namespace without settings of a wrong type, and `parse_config` then comes to the selection of the
-- images, each of the images that it has read has an attribute for every setting of the table, whose
-- value is of the setting's type or `None`.
pub parse_config-HasType :
    (env : Env) (fs : FileSystem) (dir : Directory Value) (depth : ℕ) (cwd : Text)
    (options : List (Text × Given)) (has_directory : Bool) (s cli : State Value)
    (images : List (Namespace Value)) (include : List Text)
    → StateFits HasType s
    → parse_args (table_values env) fs (calls_within (table_values env) fs depth) cwd options s
      ≡ ok cli
    → read_images
        (table_values env)
        fs
        (calls_within (table_values env) fs depth)
        dir
        cwd
        has_directory
        cli
      ≡ ok (images, include)
    → All (IsComplete HasType) images
parse_config-HasType env fs dir depth cwd options has_directory s cli images include h a e =
    let fit = table_values-ValuesFit env in
    parse_config-IsComplete HasType (table_values env) fs fit depth dir cwd has_directory cli images
      include
      (Post-ok (StateFits HasType)
        (parse_args-Fits HasType (table_values env) fs fit depth cwd options s h) a)
      e
