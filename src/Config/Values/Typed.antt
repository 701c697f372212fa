-- ===== src/Config/Values/Typed.antt =====
-- The values that the parsers and the defaults of the table return have the type of the parser.
use mkosi.Base.{◌≡◌, refl, Bool, true, false, ◌&&◌, Option, none, some}
use mkosi.Base.Text.{Text}
use mkosi.Base.Dict.{contains}
use mkosi.Base.Result.{Result, ok, failed}
use mkosi.Base.Result.Post.{Post, raises, returns}
use mkosi.Config.Enums.{Distribution, Architecture}
use mkosi.Config.StrEnum.{distribution_enum, architecture_enum}
use mkosi.Config.StrEnum.Laws.{distribution_enum-IsFaithful, architecture_enum-IsFaithful}
use mkosi.Config.Setting.{EnumType, Item, Parser, Default}
use mkosi.Config.Parse.Typed.{same_type, is_default_of}
use mkosi.Config.Value.Sequence.{Options}
use mkosi.Config.Values.{Value, Env, wrapped, whole, parse_setting, parse_list}
use mkosi.Config.Values.Enums.{
  constants_of, read_enum, read_enum_with_boolean, IsConstant, read_enum-IsConstant,
  read_enum_with_boolean-IsConstant, found-contains,
}
use mkosi.Config.Values.Defaults.{default_value}

-- The parser returns values like this one.
unfoldable pub has_type : Parser → Value → Bool
unfolding same_type constants_of contains
has_type Parser.string (Value.text s) = true
has_type Parser.boolean (Value.boolean b) = true
has_type Parser.feature (Value.feature f) = true
has_type Parser.key (Value.path p) = true
has_type Parser.output (Value.text s) = true
has_type Parser.profile (Value.text s) = true
has_type Parser.compression (Value.compression c) = true
has_type Parser.compress_level (Value.number n) = true
has_type Parser.seed (Value.uuid u) = true
has_type Parser.source_date_epoch (Value.number n) = true
has_type Parser.root_password (Value.password p) = true
has_type Parser.minimum_version (Value.text v) = true
has_type Parser.sector_size (Value.number n) = true
has_type Parser.bytes (Value.number n) = true
has_type Parser.vsock_cid (Value.cid n) = true
has_type Parser.key_source (Value.key_source k) = true
has_type (Parser.enum t) (Value.constant u s) = same_type t u && contains (constants_of t) s
has_type (Parser.enum_with_boolean t on off) (Value.constant u s) =
    same_type t u && contains (constants_of t) s
has_type (Parser.path r) (Value.path p) = true
has_type (Parser.list o Item.str) (Value.texts s) = true
has_type (Parser.list o Item.drive) (Value.drives d) = true
has_type (Parser.list o (Item.path r)) (Value.paths p) = true
has_type (Parser.list o (Item.tree absolute)) (Value.trees t) = true
has_type (Parser.list o (Item.enum t)) (Value.constants u s) = same_type t u
has_type (Parser.dict o p) (Value.dictionary d) = true
has_type _ _ = false

abbrev pub HasType : Parser → Value → Type 0
HasType p v = has_type p v ≡ true

-- A value, if it is there, has the type.
abbrev pub OptionTyped : Parser → Option Value → Type 0
OptionTyped p none = Unit
OptionTyped p (some v) = HasType p v

pub wrapped-Typed :
    {A : Type 0} (p : Parser) (f : A → Value) (r : Result (Option A))
    → ((a : A) → HasType p (f a))
    → Post (OptionTyped p) (wrapped f r)
wrapped-Typed p f (failed e) h = raises
wrapped-Typed p f (ok none) h = returns tt
wrapped-Typed p f (ok (some a)) h = returns (h a)

whole-Typed :
    {A : Type 0} (p : Parser) (f : A → Value) (r : Result A)
    → ((a : A) → HasType p (f a))
    → Post (OptionTyped p) (whole f r)
whole-Typed p f (failed e) h = raises
whole-Typed p f (ok a) h = returns (h a)

same_type_refl : (t : EnumType) → same_type t t ≡ true
unfolding same_type
same_type_refl EnumType.distribution = refl
same_type_refl EnumType.architecture = refl
same_type_refl EnumType.cacheonly = refl
same_type_refl EnumType.output_format = refl
same_type_refl EnumType.manifest_format = refl
same_type_refl EnumType.bootloader = refl
same_type_refl EnumType.bios_bootloader = refl
same_type_refl EnumType.shim_bootloader = refl
same_type_refl EnumType.secure_boot_sign_tool = refl
same_type_refl EnumType.network = refl
same_type_refl EnumType.qemu_firmware = refl

constant-Typed :
    (p : Parser) (t : EnumType) (r : Result (Option Text))
    → ((s : Text) → contains (constants_of t) s ≡ true → HasType p (Value.constant t s))
    → Post (IsConstant t) r
    → Post (OptionTyped p) (wrapped (Value.constant t) r)
constant-Typed p t r f raises = raises
constant-Typed p t r f (returns {t = none} h) = returns tt
constant-Typed p t r f (returns {t = some s} h) = returns (f s h)

enum-Typed :
    (t : EnumType) (s : Text)
    → contains (constants_of t) s ≡ true
    → HasType (Parser.enum t) (Value.constant t s)
unfolding has_type
enum-Typed t s h = rw (same_type_refl t) h

boolean-Typed :
    (t : EnumType) (on off s : Text)
    → contains (constants_of t) s ≡ true
    → HasType (Parser.enum_with_boolean t on off) (Value.constant t s)
unfolding has_type
boolean-Typed t on off s h = rw (same_type_refl t) h

module _ (env : Env) (cwd : Text) where
  parse_list-Typed :
      (o : Options) (i : Item) (v : Option Text) (old : Option Value)
      → Post (OptionTyped (Parser.list o i)) (parse_list env cwd o i v old)
  unfolding parse_list has_type
  parse_list-Typed o Item.str v old = whole-Typed (Parser.list o Item.str) Value.texts _ (λ a. refl)
  parse_list-Typed o Item.drive v old =
      whole-Typed (Parser.list o Item.drive) Value.drives _ (λ a. refl)
  parse_list-Typed o (Item.path r) v old =
      whole-Typed (Parser.list o (Item.path r)) Value.paths _ (λ a. refl)
  parse_list-Typed o (Item.tree a) v old =
      whole-Typed (Parser.list o (Item.tree a)) Value.trees _ (λ a. refl)
  parse_list-Typed o (Item.enum t) v old =
      whole-Typed (Parser.list o (Item.enum t)) (Value.constants t) _ (λ a. same_type_refl t)

  -- What a parser returns has its type, whatever the old value was.
  pub parse_setting-Typed :
      (p : Parser) (v : Option Text) (old : Option Value)
      → Post (OptionTyped p) (parse_setting env cwd p v old)
  unfolding parse_setting has_type
  parse_setting-Typed Parser.string v old =
      wrapped-Typed Parser.string Value.text (ok _) (λ a. refl)
  parse_setting-Typed Parser.boolean v old =
      wrapped-Typed Parser.boolean Value.boolean _ (λ a. refl)
  parse_setting-Typed Parser.feature v old =
      wrapped-Typed Parser.feature Value.feature _ (λ a. refl)
  parse_setting-Typed Parser.key v old = wrapped-Typed Parser.key Value.path _ (λ a. refl)
  parse_setting-Typed Parser.output v old = wrapped-Typed Parser.output Value.text _ (λ a. refl)
  parse_setting-Typed Parser.profile v old = wrapped-Typed Parser.profile Value.text _ (λ a. refl)
  parse_setting-Typed Parser.compression v old =
      wrapped-Typed Parser.compression Value.compression _ (λ a. refl)
  parse_setting-Typed Parser.compress_level v old =
      wrapped-Typed Parser.compress_level Value.number _ (λ a. refl)
  parse_setting-Typed Parser.seed v old = wrapped-Typed Parser.seed Value.uuid _ (λ a. refl)
  parse_setting-Typed Parser.source_date_epoch v old =
      wrapped-Typed Parser.source_date_epoch Value.number _ (λ a. refl)
  parse_setting-Typed Parser.root_password v old =
      wrapped-Typed Parser.root_password Value.password (ok _) (λ a. refl)
  parse_setting-Typed Parser.minimum_version v old =
      wrapped-Typed Parser.minimum_version Value.text (ok _) (λ a. refl)
  parse_setting-Typed Parser.sector_size v old =
      wrapped-Typed Parser.sector_size Value.number _ (λ a. refl)
  parse_setting-Typed Parser.bytes v old = wrapped-Typed Parser.bytes Value.number _ (λ a. refl)
  parse_setting-Typed Parser.vsock_cid v old =
      wrapped-Typed Parser.vsock_cid Value.cid _ (λ a. refl)
  parse_setting-Typed Parser.key_source v old =
      wrapped-Typed Parser.key_source Value.key_source _ (λ a. refl)
  parse_setting-Typed (Parser.enum t) v old =
      constant-Typed (Parser.enum t) t (read_enum t v) (enum-Typed t) (read_enum-IsConstant t v)
  parse_setting-Typed (Parser.enum_with_boolean t on off) v old =
      constant-Typed (Parser.enum_with_boolean t on off) t (read_enum_with_boolean t on off v)
        (boolean-Typed t on off) (read_enum_with_boolean-IsConstant t on off v)
  parse_setting-Typed (Parser.path r) v old = wrapped-Typed (Parser.path r) Value.path _ (λ a. refl)
  parse_setting-Typed (Parser.list o i) v old = parse_list-Typed o i v old
  parse_setting-Typed (Parser.dict o p) v old =
      whole-Typed (Parser.dict o p) Value.dictionary _ (λ a. refl)

pub distribution-contains :
    (d : Distribution)
    → contains (constants_of EnumType.distribution) (distribution_enum.value d) ≡ true
unfolding constants_of
distribution-contains d =
    found-contains distribution_enum (distribution_enum.value d) d
      (distribution_enum-IsFaithful.found d)

architecture-contains :
    (a : Architecture)
    → contains (constants_of EnumType.architecture) (architecture_enum.value a) ≡ true
unfolding constants_of
architecture-contains a =
    found-contains architecture_enum (architecture_enum.value a) a
      (architecture_enum-IsFaithful.found a)

pub default_value-HasType :
    (env : Env) (p : Parser) (d : Default)
    → is_default_of p d ≡ true
    → HasType p (default_value env d)
unfolding has_type is_default_of default_value
default_value-HasType env Parser.boolean (Default.boolean b) h = refl
default_value-HasType env Parser.string (Default.text b) h = refl
default_value-HasType env Parser.compress_level (Default.number n) h = refl
default_value-HasType env (Parser.enum t) (Default.constant u s) h = h
default_value-HasType env (Parser.enum_with_boolean t on off) (Default.constant u s) h = h
default_value-HasType env (Parser.enum EnumType.architecture) Default.native_architecture h =
    architecture-contains env.native_architecture
default_value-HasType env Parser.seed Default.random_uuid h = refl
default_value-HasType env Parser.key_source Default.key_source_file h = refl
default_value-HasType env Parser.vsock_cid Default.vsock_hash h = refl
default_value-HasType env _ _ h = cc h
