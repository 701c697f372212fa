-- ===== src/Config/Parse/Main/Results.antt =====
-- What `parse_config` reads: namespaces in which every setting has an attribute of its type, and
-- which the options of the command line have had their effect on.
use mkosi.Base.{
  ℕ, ◌≡◌, refl, inl, inr, ap, ◌∙◌, sym, Bool, true, false, not, ◌&&◌, Option, none, some, List, [],
  ◌∷◌, All, if◌then◌else◌, Bool-cases, Option-cases,
}
use mkosi.Base.Text.{Text, lit, text_eq, text_eq_iff}
use mkosi.Base.Dict.{lookup, merge, lookup-insert}
use mkosi.Base.Result.{ok}
use mkosi.Base.Result.Post.{
  Post, raises, returns, bind-Post, if-Post, own-Post, map-Post, both-Post, Post-ok,
}
use mkosi.Ini.{is_empty}
use mkosi.Config.Setting.{Setting, Parser, Default}
use mkosi.Config.Settings.{settings, setting_by_dest}
use mkosi.Config.Parse.{
  Values, FileSystem, State, Calls, Namespace, attribute, has_attribute, set_namespace,
}
use mkosi.Config.Parse.File.{calls_within}
use mkosi.Config.Parse.Respects.{parse_in-Post}
use mkosi.Config.Parse.Induction.{calls_within-CallsKeep}
use mkosi.Config.Parse.Known.{IsKnown, found_by_dest, table_known}
use mkosi.Config.Parse.Typed.{NamespaceFits, StateFits, ValuesFit, Kept, kept}
use mkosi.Config.Parse.Main.{
  Directory, finalize_defaults, image_name, parse_image, shared, parse_images, images_directory,
  entries_of, freeze_images, parse_directory, or_default, check_options, read_images,
}
use mkosi.Config.Parse.Main.Complete.{HasEach, finalize_defaults-HasEach}

image_unknown : setting_by_dest (lit "image") ≡ none
unfolding setting_by_dest settings text_eq lookup merge
image_unknown = refl

module _ {V : Type 0} (Fits : Parser → V → Type 0) where
  -- Each setting has an attribute, and its value, if it is not `None`, has the setting's type.
  pub record IsComplete (ns : Namespace V) : Type 0 where
    pub typed : NamespaceFits Fits ns
    pub each : All (λ t. has_attribute t.dest ns ≡ true) settings

  -- An attribute that is no setting has no type.
  set_image-StateFits :
      (v : Option V) (s : State V)
      → StateFits Fits s
      → StateFits Fits (set_namespace (lit "image") v s)
  unfolding attribute
  set_image-StateFits v s h = record {
    of_namespace = record {
      fits = λ d t w e a. elim (Bool-cases (text_eq (lit "image") d)) [
        | inl b ↦ absurd (no_setting d t ((text_eq_iff (lit "image") d).0 b) e)
        | inr b ↦ h.of_namespace.fits d t w e (rw (lookup-insert, b) at a)
      ];
    };
    of_defaults = h.of_defaults;
  }
    where
      no_setting : (d : Text) (t : Setting) → lit "image" ≡ d → setting_by_dest d ≡ some t → ⊥
      no_setting d t q e =
          let n : setting_by_dest d ≡ none = ap setting_by_dest (sym q) ∙ image_unknown in cc (n, e)

  module _ (values : Values V) (fs : FileSystem) (fit : ValuesFit Fits values) (depth : ℕ)
      (dir : Directory V) (cwd : Text) where
    abbrev calls : Calls V
    calls = calls_within values fs depth

    finalize_defaults-StateFits :
        (ts : List Setting) (s : State V)
        → All IsKnown ts
        → StateFits Fits s
        → Post (StateFits Fits) (finalize_defaults values fs calls dir cwd ts s)
    unfolding finalize_defaults Kept
    finalize_defaults-StateFits [] s k h = returns h
    finalize_defaults-StateFits (t ∷ ts) s k h =
        bind-Post
          ((calls_within-CallsKeep values fs (kept Fits values fs fit) depth).keep_finalize cwd t s
            k.0)
          λ r q. finalize_defaults-StateFits ts r.1 k.1 (q h)

    complete :
        (u : State V) → StateFits Fits u → HasEach values fs settings u → IsComplete u.namespace
    complete u t e = record { typed = t.of_namespace; each = e }

    finalize_defaults-IsComplete :
        (s : State V)
        → StateFits Fits s
        → Post
            (λ u. IsComplete u.namespace × StateFits Fits u)
            (finalize_defaults values fs calls dir cwd settings s)
    finalize_defaults-IsComplete s h =
        map-Post (λ u m. (complete u m.0 m.1.1, m.0))
          (both-Post (finalize_defaults-StateFits settings s table_known h)
            (finalize_defaults-HasEach values fs depth dir cwd settings s table_known))

    -- The namespace of an image that is built is complete.
    abbrev ImageFits : Bool × State V → Type 0
    ImageFits (true, u) = IsComplete u.namespace
    ImageFits (false, u) = Unit

    parse_image-fits :
        (p name : Text) (s : State V)
        → StateFits Fits s
        → Post ImageFits (parse_image values fs calls dir cwd p name s)
    unfolding parse_image Kept
    parse_image-fits p name s h =
        let named = some (values.default (Default.text name)) in
        bind-Post
          (parse_in-Post values fs (kept Fits values fs fit) calls
            (calls_within-CallsKeep values fs (kept Fits values fs fit) depth) cwd p
            (set_namespace (lit "image") named s))
          λ r q.
            if-Post r.0
              (bind-Post (finalize_defaults-IsComplete r.1 (q (set_image-StateFits named s h)))
                λ u m. returns m.0)
              (returns tt)

    collected :
        (r : Bool × State V) (rest : List (Namespace V))
        → ImageFits r
        → All IsComplete rest
        → All IsComplete (if r.0 then r.1.namespace ∷ rest else rest)
    collected (true, u) rest h k = (h, k)
    collected (false, u) rest h k = k

    parse_images-IsComplete :
        (ps : List Text) (s : State V)
        → StateFits Fits s
        → Post
            (λ r. All IsComplete r.0 × StateFits Fits r.1)
            (parse_images values fs calls dir cwd ps s)
    unfolding parse_images
    parse_images-IsComplete [] s h = returns (tt, h)
    parse_images-IsComplete (p ∷ ps) s h =
        if-Post (not (fs.is_dir cwd p) && not (fs.has_conf_suffix p))
          (parse_images-IsComplete ps s h)
          (if-Post (is_empty (image_name values fs calls dir cwd p)) raises (
            bind-Post (parse_image-fits p (image_name values fs calls dir cwd p) s h) λ r q.
              bind-Post
                (parse_images-IsComplete ps (shared values fs calls dir cwd s r.1)
                  (record { of_namespace = h.of_namespace; of_defaults = h.of_defaults }))
                λ rest m. returns (collected r rest.0 q m.0, m.1)))

    Found : Type 0
    Found = List (Namespace V) × (List Text × State V)

    parse_directory-IsComplete :
        (s : State V)
        → StateFits Fits s
        → Post
            (λ r. All IsComplete r.0 × StateFits Fits r.1.1)
            (parse_directory values fs calls dir cwd s)
    unfolding parse_directory Kept
    parse_directory-IsComplete s h =
        let k = calls_within-CallsKeep values fs (kept Fits values fs fit) depth in
        bind-Post (k.keep_one cwd (lit ".") true s) λ r q.
          elim (Option-cases (setting_by_dest (lit "images"))) [
            | inl e ↦ rw (e) raises
            | inr (t, e) ↦ rw (e) (
                bind-Post
                  (k.keep_finalize cwd t r.1 (found_by_dest IsKnown table_known (lit "images") t e))
                  λ v l.
                    let n = l (q h) in
                    bind-Post
                      (parse_images-IsComplete
                        (entries_of values fs calls dir cwd
                          (images_directory values fs calls dir cwd))
                        (freeze_images values fs calls dir cwd v.1)
                        (record { of_namespace = n.of_namespace; of_defaults = n.of_defaults }))
                      λ w m. returns m)
          ]

    or_default-IsComplete :
        (images : List (Namespace V)) (include : List Text) (s : State V)
        → All IsComplete images
        → StateFits Fits s
        → Post (λ q. All IsComplete q.0) (or_default values fs calls dir cwd (images, (include, s)))
    unfolding or_default
    or_default-IsComplete (i ∷ images) include s h k = returns h
    or_default-IsComplete [] include s h k =
        bind-Post
          (finalize_defaults-IsComplete (set_namespace (lit "image") none s)
            (set_image-StateFits none s k))
          λ u m. returns (m.0, tt)

    -- Where the values that the options gave have the types of their settings, every namespace that
    -- `parse_config` reads has an attribute for each setting, which has the setting's type if it is
    -- not `None`.
    pub parse_config-IsComplete :
        (has_directory : Bool) (cli : State V) (images : List (Namespace V)) (include : List Text)
        → StateFits Fits cli
        → read_images values fs calls dir cwd has_directory cli ≡ ok (images, include)
        → All IsComplete images
    unfolding read_images
    parse_config-IsComplete has_directory cli images include h e =
        Post-ok (λ q. All IsComplete q.0)
          (bind-Post
            (if-Post has_directory (parse_directory-IsComplete cli h)
              (returns {t = ([], ([], cli))} (tt, h)))
            λ r m. bind-Post (or_default-IsComplete r.0 r.1.0 r.1.1 m.0 m.1) λ q n.
              bind-Post (own-Post (check_options values fs calls dir cwd q.0 cli.namespace))
                λ _ _. returns n)
          e
