-- ===== src/Config/Values/Fit.antt =====
-- The default factories return values of their settings' types, so the values of the table fit it.
use mkosi.Base.{
  ◌≡◌, refl, inl, inr, Bool, true, false, Option, none, some, [], ◌∷◌, if◌then◌else◌, Option-cases,
}
use mkosi.Base.Text.{Text, lit, text_eq}
use mkosi.Base.Dict.{lookup, merge}
use mkosi.Base.Result.{Result, ok, failed, ◌>>=◌}
use mkosi.Base.Result.Post.{Post, raises, returns, bind-Post, if-Post, own-Post, Post-ok}
use mkosi.Config.Enums.{Distribution}
use mkosi.Config.Setting.{Setting, EnumType, Item, Parser, Factory}
use mkosi.Config.Settings.{settings, setting_by_dest}
use mkosi.Config.Value.Sequence.{Options}
use mkosi.Config.Value.Epoch.{config_default_source_date_epoch}
use mkosi.Config.Parse.{Namespace, attribute}
use mkosi.Config.Parse.Typed.{is_factory_of, NamespaceFits, ValuesFit, same_type}
use mkosi.Config.Values.{Value, Env}
use mkosi.Config.Values.Typed.{
  has_type, HasType, OptionTyped, wrapped-Typed, parse_setting-Typed, distribution-contains,
  default_value-HasType,
}
use mkosi.Distributions.{default_tools_tree_distribution}
use mkosi.Config.Values.Defaults.{
  read, make_default, config_default_distribution, config_default_release, config_default_output,
  config_default_compression, config_default_kernel_command_line, as_distribution, as_text,
  constant_of, or_custom, distribution_of, maybe_distribution, release_of, tools_mirror, name_or,
  with_version, keys_of, table_values, there, as_architecture,
}

distribution-HasType :
    (d : Distribution) → HasType (Parser.enum EnumType.distribution) (constant_of d)
unfolding has_type same_type
distribution-HasType d = distribution-contains d

-- A default that is a value by its making.
plain :
    {A : Type 0} (p : Parser) (r : Result A) (f : A → Value)
    → ((a : A) → HasType p (f a))
    → Post (OptionTyped p) (r >>= λ a. ok (some (f a)))
plain p (failed e) f h = raises
plain p (ok a) f h = returns (h a)

release-Typed : (o : Option Distribution) → OptionTyped Parser.string (release_of o)
unfolding has_type
release-Typed none = tt
release-Typed (some d) = refl

maybe-Typed :
    (o : Option Distribution)
    → OptionTyped (Parser.enum EnumType.distribution) (maybe_distribution o)
maybe-Typed none = tt
maybe-Typed (some d) = distribution-HasType d

if-Typed :
    (b : Bool) (s : Text) → OptionTyped Parser.string (if b then some (Value.text s) else none)
unfolding has_type
if-Typed true s = refl
if-Typed false s = tt

mirror-Typed :
    (m : Text) (ns : Namespace Value) → Post (OptionTyped Parser.string) (tools_mirror m ns)
unfolding has_type
mirror-Typed [] ns = returns tt
mirror-Typed (c ∷ s) ns = bind-Post (own-Post (read (lit "distribution") ns)) λ d _.
    bind-Post (own-Post (read (lit "tools_tree_distribution") ns))
      λ t _. returns (if-Typed _ (c ∷ s))

IsTrees : Setting → Type 0
IsTrees t =
    (setting_by_dest (lit "skeleton_trees") ≡ some t)
    × (o : Options) × (t.parse ≡ Parser.list o (Item.tree true))

table-IsTrees : (t : Setting) × IsTrees t
unfolding setting_by_dest settings lookup merge text_eq IsTrees
table-IsTrees = (_, (refl, _, refl))

as_trees :
    (q o : Options) (absolute : Bool) (w : Value)
    → HasType (Parser.list q (Item.tree true)) w
    → HasType (Parser.list o (Item.tree absolute)) w
unfolding has_type
as_trees q o absolute (Value.trees t) h = refl
as_trees q o absolute _ h = cc h

-- What the namespace has for SkeletonTrees is a list of trees.
skeleton-Typed :
    (o : Options) (absolute : Bool) (ns : Namespace Value)
    → NamespaceFits HasType ns
    → Post (OptionTyped (Parser.list o (Item.tree absolute))) (read (lit "skeleton_trees") ns)
unfolding read IsTrees attribute
skeleton-Typed o absolute ns h = elim (Option-cases (lookup (lit "skeleton_trees") ns)) [
  | inl e ↦ rw (read, e) raises
  | inr (v, e) ↦ rw (read, e) (returns (typed v e))
]
  where
    typed :
        (v : Option Value)
        → lookup (lit "skeleton_trees") ns ≡ some v
        → OptionTyped (Parser.list o (Item.tree absolute)) v
    typed none e = tt
    typed (some w) e =
        let (t, f) = table-IsTrees in
        as_trees f.1 o absolute w
          (rw (f.2) at (h.fits (lit "skeleton_trees") t w f.0 (attribute_found w e)))
      where
        attribute_found :
            (w : Value)
            → lookup (lit "skeleton_trees") ns ≡ some (some w)
            → attribute (lit "skeleton_trees") ns ≡ some w
        attribute_found w e = rw (attribute, e) refl

module _ (env : Env) where
  release_default :
      (ns : Namespace Value) → Post (OptionTyped Parser.string) (config_default_release env ns)
  unfolding config_default_release has_type
  release_default ns = plain Parser.string (distribution_of ns) _ (λ a. refl)

  output_default :
      (ns : Namespace Value) → Post (OptionTyped Parser.output) (config_default_output ns)
  unfolding config_default_output has_type
  output_default ns = bind-Post (own-Post (read (lit "image_id") ns)) λ i _.
      bind-Post (own-Post (name_or (as_text i) ns)) λ output _.
        plain Parser.output (read (lit "image_version") ns)
          (λ v. Value.text (with_version output (as_text v))) (λ a. refl)

  compression_default :
      (ns : Namespace Value) → Post (OptionTyped Parser.compression) (config_default_compression ns)
  unfolding config_default_compression has_type
  compression_default ns = bind-Post (own-Post (read (lit "output_format") ns)) λ f _.
      if-Post _
        (bind-Post (own-Post (distribution_of ns)) λ d _.
          bind-Post (own-Post (read (lit "release") ns))
            λ r _. plain Parser.compression _ _ (λ a. refl))
        (returns refl)

  command_line_default :
      (o : Options) (ns : Namespace Value)
      → Post (OptionTyped (Parser.list o Item.str)) (config_default_kernel_command_line ns)
  unfolding config_default_kernel_command_line has_type
  command_line_default o ns =
      bind-Post (own-Post (read (lit "architecture") ns))
        λ v _. plain (Parser.list o Item.str) (there (as_architecture v)) _ (λ a. refl)

  make_default-Typed :
      (p : Parser) (f : Factory) (ns : Namespace Value)
      → is_factory_of p f ≡ true
      → NamespaceFits HasType ns
      → Post (OptionTyped p) (make_default env f ns)
  unfolding make_default is_factory_of config_default_distribution has_type
  make_default-Typed (Parser.enum EnumType.distribution) Factory.distribution ns h n =
      returns (distribution-HasType (or_custom env.detected.0))
  make_default-Typed (Parser.enum EnumType.distribution) Factory.tools_tree_distribution ns h n =
      bind-Post (own-Post (distribution_of ns))
        λ d _. returns (maybe-Typed (default_tools_tree_distribution d))
  make_default-Typed Parser.string Factory.release ns h n = release_default ns
  make_default-Typed Parser.string Factory.tools_tree_release ns h n =
      bind-Post (own-Post (read (lit "tools_tree_distribution") ns))
        λ t _. returns (release-Typed (as_distribution t))
  make_default-Typed Parser.string Factory.tools_tree_mirror ns h n =
      bind-Post (own-Post (read (lit "mirror") ns)) λ m _. mirror-Typed (as_text m) ns
  make_default-Typed Parser.output Factory.output ns h n = output_default ns
  make_default-Typed Parser.compression Factory.compression ns h n = compression_default ns
  make_default-Typed Parser.source_date_epoch Factory.source_date_epoch ns h n =
      bind-Post (own-Post (read (lit "environment") ns)) λ e _.
        wrapped-Typed Parser.source_date_epoch Value.number
          (config_default_source_date_epoch (keys_of e) env.os_epoch) (λ a. refl)
  make_default-Typed (Parser.list o Item.str) Factory.kernel_command_line ns h n =
      command_line_default o ns
  make_default-Typed (Parser.list o (Item.tree absolute)) Factory.skeleton_trees ns h n =
      skeleton-Typed o absolute ns n
  make_default-Typed (Parser.list o (Item.tree absolute)) Factory.build_sources ns h n =
      plain (Parser.list o (Item.tree absolute)) (read (lit "directory") ns) _ (λ a. refl)
  make_default-Typed _ _ ns h n = cc h

  typed_value :
      (p : Parser) (r : Result (Option Value)) (v : Value)
      → Post (OptionTyped p) r
      → r ≡ ok (some v)
      → HasType p v
  typed_value p r v h e = Post-ok (OptionTyped p) h e

  -- The parsers, the defaults and the default factories of the table, for every environment, return
  -- values of the type that the setting's parser names.
  pub table_values-ValuesFit : ValuesFit HasType (table_values env)
  unfolding table_values
  table_values-ValuesFit = record {
    parsed = λ cwd p text old v k e. typed_value p _ v (parse_setting-Typed env cwd p text old) e;
    default = default_value-HasType env;
    made = λ p f ns v h n e. typed_value p _ v (make_default-Typed p f ns h n) e;
  }
