-- ===== src/Config/Value/Enum.antt =====
-- Settings that are constants of an enumeration.
use mkosi.Base.{◌≡◌, ◌↔◌, ap, Bool, true, Option, none, some, [], ◌∷◌, if◌then◌else◌, arith}
use mkosi.Base.Text.{Text, lit, text_eq, text_eq_iff}
use mkosi.Base.Result.{Result, ok, failed, die, ◌>>=◌}
use mkosi.Ini.{is_true}
use mkosi.Config.StrEnum.{StrEnum, of_value}
use mkosi.Config.StrEnum.Laws.{IsFaithful}
use mkosi.Config.Value.Boolean.{parse_boolean}

module _ {T : Type 0} (e : StrEnum T) where
  abbrev member_or_die : Option T → Result T
  member_or_die none = failed (die (lit "is not a valid value"))
  member_or_die (some t) = ok t

  unfoldable pub make_enum_parser : Text → Result T
  make_enum_parser value = member_or_die (of_value e value)

  unfoldable pub config_make_enum_parser : Option Text → Option T → Result (Option T)
  unfolding make_enum_parser
  config_make_enum_parser none old = ok none
  config_make_enum_parser (some []) old = ok none
  config_make_enum_parser (some (c ∷ s)) old = make_enum_parser (c ∷ s) >>= λ t. ok (some t)

  abbrev member_or : T → T → Option T → Result Bool → Result (Option T)
  member_or on off (some t) b = ok (some t)
  member_or on off none b = b >>= λ b. ok (some (if b then on else off))

  -- `yes` and `no` of the source are `on` and `off`.
  unfoldable pub config_make_enum_parser_with_boolean :
      T → T → Option Text → Option T → Result (Option T)
  config_make_enum_parser_with_boolean on off none old = ok none
  config_make_enum_parser_with_boolean on off (some []) old = ok none
  config_make_enum_parser_with_boolean on off (some (c ∷ s)) old =
      member_or on off (of_value e (c ∷ s)) (parse_boolean (c ∷ s))

  -- `==` of two constants is that of their strings.
  unfoldable pub config_make_enum_matcher : Text → T → Result Bool
  unfolding make_enum_parser
  config_make_enum_matcher match value =
      make_enum_parser match >>= λ t. ok (text_eq (e.value t) (e.value value))

module _ {T : Type 0} (e : StrEnum T) (f : IsFaithful e) where
  value-injective : (t u : T) → e.value t ≡ e.value u → t ≡ u
  value-injective t u h = cc (f.found t, f.found u, ap (of_value e) h)

  reads_value :
      (t on off : T) (s : Text) (old : Option T)
      → is_true (some s) ≡ true
      → of_value e s ≡ some t
      → (config_make_enum_parser e (some s) old ≡ ok (some t))
        × (config_make_enum_parser_with_boolean e on off (some s) old ≡ ok (some t))
  unfolding config_make_enum_parser config_make_enum_parser_with_boolean
  reads_value t on off [] old n h = cc
  reads_value t on off (c ∷ s) old n h = (rw h, rw h)

  matches_value : (t u : T) → (config_make_enum_matcher e (e.value t) u ≡ ok true) ↔ (t ≡ u)
  unfolding config_make_enum_matcher
  matches_value t u = rw (f.found t) (
    (λ h. value-injective t u ((text_eq_iff (e.value t) (e.value u)).0 (ground (arith, h)))),
    (λ h. ap ok ((text_eq_iff (e.value t) (e.value u)).1 (ap e.value h))),
  )

  -- A constant's string, where it is not empty, is read as the constant by both parsers, and the
  -- matcher takes it for that constant and for no other.
  pub enum_parsers-found :
      (t on off : T) (old : Option T)
      → is_true (some (e.value t)) ≡ true
      → (config_make_enum_parser e (some (e.value t)) old ≡ ok (some t))
        × (config_make_enum_parser_with_boolean e on off (some (e.value t)) old ≡ ok (some t))
        × ((u : T) → (config_make_enum_matcher e (e.value t) u ≡ ok true) ↔ (t ≡ u))
  enum_parsers-found t on off old n =
      let r = reads_value t on off (e.value t) old n (f.found t) in
      (r.0, r.1, λ u. matches_value t u)
