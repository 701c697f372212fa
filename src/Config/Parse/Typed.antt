-- ===== src/Config/Parse/Typed.antt =====
-- The values that `parse_config` stores have the type of their setting.
use mkosi.Base.{
  ◌≡◌, refl, sym, ap, ◌∙◌, inl, inr, Bool, true, false, not, ◌&&◌, Option, none, some, List, [],
  ◌∷◌, all, ℕ, arith, Bool-cases, All,
}
use mkosi.Base.Text.{Text, lit, text_eq, text_eq_iff}
use mkosi.Base.Dict.{contains, insert, lookup-insert}
use mkosi.Base.Result.{ok}
use mkosi.Base.Result.Post.{Post-ok}
use mkosi.Config.Setting.{Setting, Parser, Item, EnumType, Default, Factory}
use mkosi.Config.Settings.{settings, setting_by_dest}
use mkosi.Config.Values.Enums.{constants_of}
use mkosi.Config.Parse.{Values, FileSystem, State, Calls, Namespace, attribute, has_attribute}
use mkosi.Config.Parse.Defaults.{default_of, factory_or_default}
use mkosi.Config.Parse.File.{set_attribute, old_value, calls_within}
use mkosi.Config.Parse.Respects.{Respects}
use mkosi.Config.Parse.Induction.{calls_within-CallsKeep}
use mkosi.Config.Parse.Known.{
  IsKnown, found_by_dest, found_by_name, found_by_specifier, table_known,
}

unfoldable pub same_type : EnumType → EnumType → Bool
same_type EnumType.distribution EnumType.distribution = true
same_type EnumType.architecture EnumType.architecture = true
same_type EnumType.cacheonly EnumType.cacheonly = true
same_type EnumType.output_format EnumType.output_format = true
same_type EnumType.manifest_format EnumType.manifest_format = true
same_type EnumType.bootloader EnumType.bootloader = true
same_type EnumType.bios_bootloader EnumType.bios_bootloader = true
same_type EnumType.shim_bootloader EnumType.shim_bootloader = true
same_type EnumType.secure_boot_sign_tool EnumType.secure_boot_sign_tool = true
same_type EnumType.network EnumType.network = true
same_type EnumType.qemu_firmware EnumType.qemu_firmware = true
same_type _ _ = false

-- The default is of the type that the parser returns.
unfoldable pub is_default_of : Parser → Default → Bool
unfolding same_type constants_of contains
is_default_of Parser.boolean (Default.boolean b) = true
is_default_of Parser.string (Default.text s) = true
is_default_of Parser.compress_level (Default.number n) = true
is_default_of (Parser.enum t) (Default.constant u s) = same_type t u && contains (constants_of t) s
is_default_of (Parser.enum_with_boolean t on off) (Default.constant u s) =
    same_type t u && contains (constants_of t) s
is_default_of (Parser.enum EnumType.architecture) Default.native_architecture = true
is_default_of Parser.seed Default.random_uuid = true
is_default_of Parser.key_source Default.key_source_file = true
is_default_of Parser.vsock_cid Default.vsock_hash = true
is_default_of _ _ = false

-- The factory returns the type that the parser returns.
unfoldable pub is_factory_of : Parser → Factory → Bool
is_factory_of (Parser.enum EnumType.distribution) Factory.distribution = true
is_factory_of (Parser.enum EnumType.distribution) Factory.tools_tree_distribution = true
is_factory_of Parser.string Factory.release = true
is_factory_of Parser.string Factory.tools_tree_release = true
is_factory_of Parser.string Factory.tools_tree_mirror = true
is_factory_of Parser.output Factory.output = true
is_factory_of Parser.compression Factory.compression = true
is_factory_of Parser.source_date_epoch Factory.source_date_epoch = true
is_factory_of (Parser.list o Item.str) Factory.kernel_command_line = true
is_factory_of (Parser.list o (Item.tree absolute)) Factory.skeleton_trees = true
is_factory_of (Parser.list o (Item.tree absolute)) Factory.build_sources = true
is_factory_of _ _ = false

pub default_fits : Parser → Option Factory → Option Default → Bool
default_fits p (some f) d = is_factory_of p f
default_fits p none (some d) = is_default_of p d
default_fits p none none = true

-- What the setting gives as its default is of the type of its values.
abbrev pub HasFittingDefault : Setting → Type 0
HasFittingDefault t = default_fits t.parse t.default_factory t.default ≡ true

table_fits : all (λ t. default_fits t.parse t.default_factory t.default) settings ≡ true
unfolding settings default_fits is_default_of is_factory_of text_eq
table_fits = refl

-- The default of every setting of the table is of the type that the setting's parser returns.
pub settings-HasFittingDefault : All HasFittingDefault settings
settings-HasFittingDefault = each settings table_fits
  where
    each :
        (ts : List Setting)
        → all (λ t. default_fits t.parse t.default_factory t.default) ts ≡ true
        → All HasFittingDefault ts
    each [] h = tt
    each (t ∷ ts) h = (ground (arith, h), each ts (ground (arith, h)))

module _ {V : Type 0} (Fits : Parser → V → Type 0) where
  -- Each value that the namespace has for a setting fits it.
  pub record NamespaceFits (ns : Namespace V) : Type 0 where
    pub fits :
        (d : Text) (t : Setting) (v : V)
        → setting_by_dest d ≡ some t
        → attribute d ns ≡ some v
        → Fits t.parse v

  pub record StateFits (s : State V) : Type 0 where
    pub of_namespace : NamespaceFits s.namespace
    pub of_defaults : NamespaceFits s.defaults

  -- What a value of `parse`, a default and a factory are is what the type of the parser says.
  pub record ValuesFit (values : Values V) : Type 0 where
    pub parsed :
        (cwd : Text) (p : Parser) (text : Option Text) (old : Option V) (v : V)
        → ((o : V) → old ≡ some o → Fits p o)
        → values.parse cwd p text old ≡ ok (some v)
        → Fits p v
    pub default : (p : Parser) (d : Default) → is_default_of p d ≡ true → Fits p (values.default d)
    pub made :
        (p : Parser) (f : Factory) (ns : Namespace V) (v : V)
        → is_factory_of p f ≡ true
        → NamespaceFits ns
        → values.factory f ns ≡ ok (some v)
        → Fits p v

  insert-NamespaceFits :
      (t : Setting) (v : Option V) (ns : Namespace V)
      → IsKnown t
      → ((w : V) → v ≡ some w → Fits t.parse w)
      → NamespaceFits ns
      → NamespaceFits (insert t.dest v ns)
  unfolding attribute
  insert-NamespaceFits t v ns k new old = record {
    fits = λ d u w e a. elim (Bool-cases (text_eq t.dest d)) [
      | inl b ↦ cast d u w e ((text_eq_iff t.dest d).0 b) (rw (lookup-insert, b) at a)
      | inr b ↦ old.fits d u w e (rw (lookup-insert, b) at a)
    ];
  }
    where
      cast :
          (d : Text) (u : Setting) (w : V)
          → setting_by_dest d ≡ some u
          → t.dest ≡ d
          → v ≡ some w
          → Fits u.parse w
      cast d u w e b a =
          let q : t ≡ u = value (sym k ∙ (ap setting_by_dest b ∙ e)) in rw (sym q) (new w a)
        where
          value : {B : Type 0} {x y : B} → some x ≡ some y → x ≡ y
          value p = cc p

  -- A value that the namespace has is stored again.
  again_fits :
      (k : Text) (v : V) (ns : Namespace V)
      → attribute k ns ≡ some v
      → NamespaceFits ns
      → NamespaceFits (insert k (some v) ns)
  unfolding attribute
  again_fits k v ns has old = record {
    fits = λ d u w e a. elim (Bool-cases (text_eq k d)) [
      | inl b ↦
          old.fits d u w e (rw (sym ((text_eq_iff k d).0 b)) (has ∙ rw (lookup-insert, b) at a))
      | inr b ↦ old.fits d u w e (rw (lookup-insert, b) at a)
    ];
  }

  module _ (values : Values V) (fs : FileSystem) (fit : ValuesFit values) where
    -- Values of the right types stay so.
    unfoldable pub Kept : State V → State V → Type 0
    Kept s u = StateFits s → StateFits u

    pub old_value-fits :
        (calls : Calls V) (cwd : Text) (b : Bool) (t : Setting) (s : State V) (o : V)
        → IsKnown t
        → StateFits s
        → old_value values fs calls cwd b t.dest s ≡ some o
        → Fits t.parse o
    old_value-fits calls cwd true t s o k h e = h.of_defaults.fits t.dest t o k e
    old_value-fits calls cwd false t s o k h e = h.of_namespace.fits t.dest t o k e

    pub set_attribute-Kept :
        (calls : Calls V) (cwd : Text) (b : Bool) (t : Setting) (v : Option V) (s : State V)
        → IsKnown t
        → StateFits s
        → ((w : V) → v ≡ some w → Fits t.parse w)
        → StateFits (set_attribute values fs calls cwd b t.dest v s)
    set_attribute-Kept calls cwd true t v s k h f = record {
      of_namespace = h.of_namespace;
      of_defaults = insert-NamespaceFits t v s.defaults k f h.of_defaults;
    }
    set_attribute-Kept calls cwd false t v s k h f = record {
      of_namespace = insert-NamespaceFits t v s.namespace k f h.of_namespace;
      of_defaults = h.of_defaults;
    }

    factory_or_default-fits :
        (calls : Calls V) (cwd : Text) (t : Setting) (s : State V) (f : Option Factory)
        (d : Option Default) (v : V)
        → default_fits t.parse f d ≡ true
        → StateFits s
        → factory_or_default values fs calls cwd t s f d ≡ ok (some v)
        → Fits t.parse v
    unfolding default_fits
    factory_or_default-fits calls cwd t s (some f) d v h n e =
        fit.made t.parse f s.namespace v h n.of_namespace e
    factory_or_default-fits calls cwd t s none none v h n e =
        fit.parsed cwd t.parse none none v (λ o q. cc q) e
    factory_or_default-fits calls cwd t s none (some d) v h n e =
        rw (value e) (fit.default t.parse d h)
      where
        value : {B : Type 0} {x y : B} → ok (some x) ≡ ok (some y) → y ≡ x
        value p = cc p

    default_of-fits :
        (calls : Calls V) (cwd : Text) (t : Setting) (s : State V) (v : V)
        → IsKnown t
        → StateFits s
        → default_of values fs calls cwd t s ≡ ok (some v)
        → Fits t.parse v
    unfolding default_of
    default_of-fits calls cwd t s v k h e =
        elim (Bool-cases
          (not (has_attribute t.dest s.namespace) && has_attribute t.dest s.defaults)) [
            | inl b ↦ h.of_defaults.fits t.dest t v k (value (rw b at e))
            | inr b ↦
                factory_or_default-fits calls cwd t s t.default_factory t.default v
                  (found_by_dest HasFittingDefault settings-HasFittingDefault t.dest t k) h
                  (rw b at e)
          ]
      where
        value : {B : Type 0} {x y : B} → ok x ≡ ok y → x ≡ y
        value p = cc p

    pub kept : Respects values fs IsKnown Kept
    unfolding Kept
    kept = record {
      refl_R = λ s h. h;
      trans_R = λ s t u f g h. g (f h);
      by_dest = found_by_dest IsKnown table_known;
      by_name = found_by_name IsKnown table_known;
      by_specifier = found_by_specifier IsKnown table_known;
      in_table = table_known;
      on_default = λ calls cwd t s v k e h.
          set_attribute-Kept calls cwd false t v s k h
            (λ w q. default_of-fits calls cwd t s w k h (e ∙ ap ok q));
      on_assign = λ calls cwd t b text s v k e h. set_attribute-Kept calls cwd b t v s k h (λ w q.
          fit.parsed cwd t.parse (some text) (old_value values fs calls cwd b t.dest s) w
            (λ o l. old_value-fits calls cwd b t s o k h l) (e ∙ ap ok q));
      on_include = λ i s h. record { of_namespace = h.of_namespace; of_defaults = h.of_defaults };
      on_freeze = λ s h. record { of_namespace = h.of_namespace; of_defaults = h.of_defaults };
      on_profile =
          λ s v e h. record { of_namespace = profile_kept s v e h; of_defaults = h.of_defaults };
    }
      where
        profile_kept :
            (s : State V) (v : V)
            → attribute (lit "profile") s.namespace ≡ some v
            → StateFits s
            → NamespaceFits (insert (lit "profile") (some v) s.namespace)
        profile_kept s v e h = again_fits (lit "profile") v s.namespace e h.of_namespace

    -- If the values of both namespaces have the types of their settings when `parse_config_one` is
    -- called, they have them behind the call, whatever is included, matched or finalized in it.
    pub parse_config_one-StateFits :
        (depth : ℕ) (cwd path : Text) (profiles matched : Bool) (s u : State V)
        → StateFits s
        → (calls_within values fs depth).parse_config_one cwd path profiles s ≡ ok (matched, u)
        → StateFits u
    unfolding Kept
    parse_config_one-StateFits depth cwd path profiles matched s u h e =
        Post-ok _ ((calls_within-CallsKeep values fs kept depth).keep_one cwd path profiles s) e h
