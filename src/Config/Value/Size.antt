-- ===== src/Config/Value/Size.antt =====
-- Sizes in bytes. `math.ceil(float(value) * factor)` is a parameter, since floats are the standard
-- library's; `none` is its `ValueError` or `OverflowError`.
use mkosi.Base.{
  ℕ, ◌+◌, ◌-◌, ◌*◌, ◌/◌, ◌%◌, ◌^◌, ◌≤◌, ◌<◌, ◌≡◌, refl, Option, none, some, [], ◌∷◌, ◌==◌,
  if◌then◌else◌, arith, ltb,
}
use mkosi.Base.Text.{Text, lit}
use mkosi.Base.Result.{Result, ok, failed, die, value_error, ◌>>=◌}
use mkosi.Ini.{last_is, drop_last}
use mkosi.Config.Value.Number.{ℤ, pos, negsuc}

-- `round_up` of mkosi/util.py
unfoldable pub round_up : ℕ → ℕ → ℕ
round_up x blocksize = (x + blocksize - 1) / blocksize * blocksize

-- The factor of the last character.
unfoldable pub size_factor : Text → ℕ
size_factor value =
    if last_is b'G' value
    then 1024 ^ 3
    else if last_is b'M' value
    then 1024 ^ 2
    else if last_is b'K' value
    then 1024
    else 1

abbrev pad : ℕ → ℕ
pad result = if result % 4096 == 0 then result else result + (4096 - result % 4096)

unfoldable pub whole_pages : Option ℤ → Result ℕ
whole_pages none = failed value_error
whole_pages (some (negsuc n)) = failed (die (lit "Size out of range"))
whole_pages (some (pos result)) =
    if result == 0 then failed (die (lit "Size out of range")) else ok (pad result)

module _ (ceil_scaled : Text → ℕ → Option ℤ) where
  unfoldable pub parse_bytes : Text → Result ℕ
  unfolding size_factor whole_pages
  parse_bytes value =
      let factor = size_factor value in
      whole_pages (ceil_scaled (if ltb 1 factor then drop_last value else value) factor)

  unfoldable pub config_parse_bytes : Option Text → Option ℕ → Result (Option ℕ)
  unfolding parse_bytes
  config_parse_bytes none old = ok none
  config_parse_bytes (some []) old = ok none
  config_parse_bytes (some (c ∷ s)) old = parse_bytes (c ∷ s) >>= λ n. ok (some n)

whole_pages_bounds :
    (i : Option ℤ) (n : ℕ)
    → whole_pages i ≡ ok n
    → (r : ℕ) × (i ≡ some (pos r)) × (0 < r) × (r ≤ n) × (n < r + 4096) × (n % 4096 ≡ 0)
unfolding whole_pages
whole_pages_bounds none n h = cc
whole_pages_bounds (some (negsuc k)) n h = cc
whole_pages_bounds (some (pos r)) n h =
    (r, refl, ground (arith, h), ground (arith, h), ground (arith, h), ground (arith, h))

-- A size is positive, a multiple of 4096, and the least such that holds the scaled number.
pub parse_bytes_bounds :
    (ceil_scaled : Text → ℕ → Option ℤ) (value : Text) (n : ℕ)
    → parse_bytes ceil_scaled value ≡ ok n
    → (r : ℕ) × (ceil_scaled
          (if ltb 1 (size_factor value) then drop_last value else value)
          (size_factor value)
        ≡ some (pos r))
      × (0 < r)
      × (r ≤ n)
      × (n < r + 4096)
      × (n % 4096 ≡ 0)
unfolding parse_bytes
parse_bytes_bounds ceil_scaled value n h = whole_pages_bounds _ n h
