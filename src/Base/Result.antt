-- ===== src/Base/Result.antt =====
-- `die` and uncaught exceptions as values.
pub mod Post
use mkosi.Base.{◌≡◌, refl, inl, inr, ◌⊎◌}
use mkosi.Base.Text.{Text}

pub data Error : Type 0 where
  -- `die(message)`: the message's variable part
  die : Text → Error
  -- `ValueError`, `KeyError`, ... that nothing on the way catches
  value_error key_error attribute_error os_error assertion_error stop_iteration : Error
  -- the model's own: a loop's fuel is used up
  out_of_fuel : Error

-- What a call raises, or what it returns.
pub data Result {ℓ} (T : Type ℓ) : Type ℓ where
  failed : Error → Result T
  ok : T → Result T

infixl 5 ◌>>=◌ ◌>>◌
abbrev pub ◌>>=◌ {ℓ κ} : {T : Type ℓ} {U : Type κ} → Result T → (T → Result U) → Result U
call >>= next = elim call [ failed e ↦ failed e | ok t ↦ next t ]

abbrev pub ◌>>◌ {ℓ κ} : {T : Type ℓ} {U : Type κ} → Result T → Result U → Result U
call >> next = elim call [ failed e ↦ failed e | ok _ ↦ next ]

pub Result-cases {ℓ} :
    {T : Type ℓ} (call : Result T) → ((e : Error) × (call ≡ failed e)) ⊎ ((t : T) × (call ≡ ok t))
Result-cases (failed e) = inl (e, refl)
Result-cases (ok t) = inr (t, refl)
