-- ===== src/Config/Values/Enums.antt =====
-- The parsers and the matcher of an enumeration, for each enumeration that settings have.
use mkosi.Base.{
  ◌≡◌, refl, inl, inr, ap, ◌∙◌, Bool, true, false, Option, none, some, List, [], ◌∷◌, map,
  if◌then◌else◌, Bool-cases, Option-cases, arith,
}
use mkosi.Base.Text.{Text, text_eq, text_eq_refl}
use mkosi.Base.Dict.{contains}
use mkosi.Base.Result.{Result, ok, failed, value_error, ◌>>=◌}
use mkosi.Base.Result.Post.{Post, raises, returns, map-Post}
use mkosi.Config.StrEnum.{
  StrEnum, of_value, find_member, output_format_enum, bootloader_enum, bios_bootloader_enum,
  shim_bootloader_enum, cacheonly_enum, qemu_firmware_enum, network_enum, architecture_enum,
  distribution_enum, manifest_format_enum, secure_boot_sign_tool_enum,
}
use mkosi.Config.Setting.{EnumType}
use mkosi.Config.Value.Boolean.{parse_boolean}
use mkosi.Config.Value.Enum.{
  make_enum_parser, config_make_enum_parser, config_make_enum_parser_with_boolean,
  config_make_enum_matcher,
}

-- What is made of the enumeration with a name.
unfoldable pub with_enum : {X : Type 0} → EnumType → ((T : Type 0) → StrEnum T → X) → X
with_enum EnumType.distribution f = f _ distribution_enum
with_enum EnumType.architecture f = f _ architecture_enum
with_enum EnumType.cacheonly f = f _ cacheonly_enum
with_enum EnumType.output_format f = f _ output_format_enum
with_enum EnumType.manifest_format f = f _ manifest_format_enum
with_enum EnumType.bootloader f = f _ bootloader_enum
with_enum EnumType.bios_bootloader f = f _ bios_bootloader_enum
with_enum EnumType.shim_bootloader f = f _ shim_bootloader_enum
with_enum EnumType.secure_boot_sign_tool f = f _ secure_boot_sign_tool_enum
with_enum EnumType.network f = f _ network_enum
with_enum EnumType.qemu_firmware f = f _ qemu_firmware_enum

module _ {T : Type 0} (e : StrEnum T) where
  abbrev pub strings : List Text
  strings = map e.value e.members

  abbrev string_of : Option T → Option Text
  string_of none = none
  string_of (some t) = some (e.value t)

  abbrev as_string : Result (Option T) → Result (Option Text)
  as_string r = r >>= λ t. ok (string_of t)

  abbrev member_string : Text → Result Text
  member_string v = make_enum_parser e v >>= λ t. ok (e.value t)

  abbrev with_boolean : Option T → Option T → Option Text → Result (Option Text)
  with_boolean (some on) (some off) v =
      as_string (config_make_enum_parser_with_boolean e on off v none)
  with_boolean _ _ v = failed value_error

  abbrev match_string : Text → Option T → Result Bool
  match_string m none = failed value_error
  match_string m (some t) = config_make_enum_matcher e m t

unfoldable pub constants_of : EnumType → List Text
unfolding with_enum
constants_of t = with_enum t (λ T e. strings e)

unfoldable pub read_enum : EnumType → Option Text → Result (Option Text)
unfolding with_enum config_make_enum_parser
read_enum t v = with_enum t (λ T e. as_string e (config_make_enum_parser e v none))

unfoldable pub read_enum_with_boolean :
    EnumType → (on off : Text) → Option Text → Result (Option Text)
unfolding with_enum config_make_enum_parser_with_boolean of_value
read_enum_with_boolean t on off v =
    with_enum t (λ T e. with_boolean e (of_value e on) (of_value e off) v)

unfoldable pub read_member : EnumType → Text → Result Text
unfolding with_enum make_enum_parser
read_member t v = with_enum t (λ T e. member_string e v)

-- `value` is a constant's string.
unfoldable pub match_enum : EnumType → Text → Text → Result Bool
unfolding with_enum config_make_enum_matcher of_value
match_enum t m value = with_enum t (λ T e. match_string e m (of_value e value))

module _ {T : Type 0} (e : StrEnum T) where
  find_member-contains :
      (s : Text) (t : T) (ts : List T)
      → find_member e.value ts s ≡ some t
      → contains (map e.value ts) (e.value t) ≡ true
  unfolding find_member contains
  find_member-contains s t [] h = cc h
  find_member-contains s t (u ∷ ts) h = elim (Bool-cases (text_eq (e.value u) s)) [
    | inl b ↦ let q : u ≡ t = value (rw b at h) in rw (ap e.value q, text_eq_refl (e.value t)) refl
    | inr b ↦ ground (arith, find_member-contains s t ts (rw b at h))
  ]
    where
      value : {B : Type 0} {x y : B} → some x ≡ some y → x ≡ y
      value p = cc p

  -- The string of a constant that is found is one of the enumeration's.
  abbrev IsString : Option Text → Type 0
  IsString none = Unit
  IsString (some s) = contains (strings e) s ≡ true

  pub found-contains :
      (s : Text) (t : T) → of_value e s ≡ some t → contains (strings e) (e.value t) ≡ true
  unfolding of_value
  found-contains s t h = find_member-contains s t e.members h

  enum-IsString : (v : Option Text) → Post IsString (as_string e (config_make_enum_parser e v none))
  unfolding config_make_enum_parser make_enum_parser
  enum-IsString none = returns tt
  enum-IsString (some []) = returns tt
  enum-IsString (some (c ∷ s)) = elim (Option-cases (of_value e (c ∷ s))) [
    | inl n ↦ rw n raises
    | inr (t, n) ↦ rw n (returns (found-contains (c ∷ s) t n))
  ]

  choice :
      (on off : T) (b : Result Bool)
      → contains (strings e) (e.value on) ≡ true
      → contains (strings e) (e.value off) ≡ true
      → Post IsString (as_string e (b >>= λ b. ok (some (if b then on else off))))
  choice on off (failed x) h k = raises
  choice on off (ok true) h k = returns h
  choice on off (ok false) h k = returns k

  boolean-IsString :
      (on off : T) (v : Option Text)
      → contains (strings e) (e.value on) ≡ true
      → contains (strings e) (e.value off) ≡ true
      → Post IsString (as_string e (config_make_enum_parser_with_boolean e on off v none))
  unfolding config_make_enum_parser_with_boolean
  boolean-IsString on off none h k = returns tt
  boolean-IsString on off (some []) h k = returns tt
  boolean-IsString on off (some (c ∷ s)) h k = elim (Option-cases (of_value e (c ∷ s))) [
    | inl n ↦ rw n (choice on off (parse_boolean (c ∷ s)) h k)
    | inr (t, n) ↦ rw n (returns (found-contains (c ∷ s) t n))
  ]

  with_boolean-IsString :
      (o q : Option T) (v : Option Text)
      → ((t : T) → o ≡ some t → contains (strings e) (e.value t) ≡ true)
      → ((t : T) → q ≡ some t → contains (strings e) (e.value t) ≡ true)
      → Post IsString (with_boolean e o q v)
  with_boolean-IsString none none v h k = raises
  with_boolean-IsString none (some off) v h k = raises
  with_boolean-IsString (some on) none v h k = raises
  with_boolean-IsString (some on) (some off) v h k =
      boolean-IsString on off v (h on refl) (k off refl)

  given-IsString :
      (a b : Text) (v : Option Text)
      → Post IsString (with_boolean e (of_value e a) (of_value e b) v)
  given-IsString a b v =
      with_boolean-IsString (of_value e a) (of_value e b) v (λ t q. found-contains a t q)
        (λ t q. found-contains b t q)

-- The string is one of the enumeration's.
abbrev pub IsConstant : EnumType → Option Text → Type 0
IsConstant t none = Unit
IsConstant t (some s) = contains (constants_of t) s ≡ true

constant :
    (t : EnumType) (T : Type 0) (e : StrEnum T)
    → constants_of t ≡ strings e
    → (o : Option Text) → IsString e o
    → IsConstant t o
constant t T e q none h = tt
constant t T e q (some s) h = ap (λ l. contains l s) q ∙ h

-- What holds of each enumeration holds of the one with a name.
with_enum-each :
    {X : Type 0} (P : EnumType → X → Type 0) (f : (T : Type 0) → StrEnum T → X)
    → ((t : EnumType) (T : Type 0) (e : StrEnum T) → constants_of t ≡ strings e → P t (f T e))
    → (t : EnumType) → P t (with_enum t f)
unfolding with_enum constants_of
with_enum-each P f h EnumType.distribution = h EnumType.distribution _ distribution_enum refl
with_enum-each P f h EnumType.architecture = h EnumType.architecture _ architecture_enum refl
with_enum-each P f h EnumType.cacheonly = h EnumType.cacheonly _ cacheonly_enum refl
with_enum-each P f h EnumType.output_format = h EnumType.output_format _ output_format_enum refl
with_enum-each P f h EnumType.manifest_format =
    h EnumType.manifest_format _ manifest_format_enum refl
with_enum-each P f h EnumType.bootloader = h EnumType.bootloader _ bootloader_enum refl
with_enum-each P f h EnumType.bios_bootloader =
    h EnumType.bios_bootloader _ bios_bootloader_enum refl
with_enum-each P f h EnumType.shim_bootloader =
    h EnumType.shim_bootloader _ shim_bootloader_enum refl
with_enum-each P f h EnumType.secure_boot_sign_tool =
    h EnumType.secure_boot_sign_tool _ secure_boot_sign_tool_enum refl
with_enum-each P f h EnumType.network = h EnumType.network _ network_enum refl
with_enum-each P f h EnumType.qemu_firmware = h EnumType.qemu_firmware _ qemu_firmware_enum refl

-- The parsers of an enumeration return strings of its constants.
pub read_enum-IsConstant : (t : EnumType) (v : Option Text) → Post (IsConstant t) (read_enum t v)
unfolding read_enum
read_enum-IsConstant t v =
    with_enum-each (λ t r. Post (IsConstant t) r)
      (λ T e. as_string e (config_make_enum_parser e v none))
      (λ t T e q. map-Post (λ o h. constant t T e q o h) (enum-IsString e v)) t

pub read_enum_with_boolean-IsConstant :
    (t : EnumType) (on off : Text) (v : Option Text)
    → Post (IsConstant t) (read_enum_with_boolean t on off v)
unfolding read_enum_with_boolean
read_enum_with_boolean-IsConstant t on off v =
    with_enum-each (λ t r. Post (IsConstant t) r)
      (λ T e. with_boolean e (of_value e on) (of_value e off) v)
      (λ t T e q. map-Post (λ o h. constant t T e q o h) (given-IsString e on off v)) t
