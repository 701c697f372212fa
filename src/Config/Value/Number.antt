-- ===== src/Config/Value/Number.antt =====
-- `int(value)`, and the settings that are numbers.
pub mod Laws
use Prim.Native.Nat.{bit_and}
use mathlib.Core.Option
use mkosi.Base.{
  ℕ, zero, suc, ◌+◌, ◌-◌, ◌*◌, Bool, true, false, not, ◌&&◌, ◌||◌, Option, none, some, List, [],
  ◌∷◌, leb, ltb, ◌==◌, if◌then◌else◌,
}
use mathlib.Core.List.{foldl}
use mkosi.Base.Text.{Text, lit, text_eq}
use mkosi.Base.Whitespace.{strip}
use mkosi.Base.Result.{Result, ok, failed, die}

-- Python's integers; `negsuc n` is -(n + 1).
pub data ℤ : Type 0 where
  pos : ℕ → ℤ
  negsuc : ℕ → ℤ

abbrev is_decimal : ℕ → Bool
is_decimal c = leb b'0' c && leb c b'9'

-- The digits so far: whether the last character was one, and their value.
abbrev Digits : Type 0
Digits = Option (Bool × ℕ)

abbrev digit_step : Digits → ℕ → Digits
digit_step none c = none
digit_step (some (after_digit, n)) c =
    if is_decimal c
    then some (true, n * 10 + (c - b'0'))
    else if c == b'_' && after_digit
    then some (false, n)
    else none

abbrev digits_end : Digits → Option ℕ
digits_end none = none
digits_end (some (after_digit, n)) = if after_digit then some n else none

-- Decimal digits with single underscores between them.
unfoldable pub digits : Text → Option ℕ
digits s = digits_end (foldl digit_step (some (false, 0)) s)

abbrev negated : ℕ → ℤ
negated zero = pos zero
negated (suc n) = negsuc n

abbrev signed : Text → Option ℤ
signed [] = none
signed (c ∷ s) =
    if c == b'-'
    then Option.map negated (digits s)
    else if c == b'+'
    then Option.map pos (digits s)
    else Option.map pos (digits (c ∷ s))

-- `int(value)`, where `none` is its `ValueError`. Digits are the ASCII ones.
unfoldable pub int : Text → Option ℤ
unfolding digits
int s = signed (strip s)

-- `if not value` for an `Optional[str]`, and the text otherwise.
abbrev pub given : Option Text → Option Text
given none = none
given (some []) = none
given (some (c ∷ s)) = some (c ∷ s)

-- `timestamp < 0` and `level < 0` die.
unfoldable pub natural : Option ℤ → Result ℕ
natural none = failed (die (lit "is not a valid integer"))
natural (some (negsuc n)) = failed (die (lit "cannot be negative"))
natural (some (pos n)) = ok n

unfoldable pub parse_natural : Option Text → Result (Option ℕ)
unfolding int natural
parse_natural none = ok none
parse_natural (some s) = elim (natural (int s)) [ failed e ↦ failed e | ok n ↦ ok (some n) ]

unfoldable pub config_parse_source_date_epoch : Option Text → Option ℕ → Result (Option ℕ)
unfolding parse_natural
config_parse_source_date_epoch value old = parse_natural (given value)

unfoldable pub config_parse_compress_level : Option Text → Option ℕ → Result (Option ℕ)
unfolding parse_natural
config_parse_compress_level value old = parse_natural (given value)

-- `is_power_of_2` of mkosi/util.py
unfoldable pub is_power_of_2 : ℕ → Bool
is_power_of_2 x = ltb 0 x && bit_and x (x - 1) == 0

unfoldable pub sector_size : Option ℤ → Result (Option ℕ)
unfolding is_power_of_2
sector_size none = failed (die (lit "is not a valid number"))
sector_size (some (negsuc n)) = failed (die (lit "Sector size not between 512 and 4096"))
sector_size (some (pos size)) =
    if ltb size 512 || ltb 4096 size
    then failed (die (lit "Sector size not between 512 and 4096"))
    else if not (is_power_of_2 size)
    then failed (die (lit "Sector size not power of 2"))
    else ok (some size)

unfoldable pub config_parse_sector_size : Option Text → Option ℕ → Result (Option ℕ)
unfolding int sector_size
config_parse_sector_size value old = elim (given value) [
  | none ↦ ok none
  | some s ↦ sector_size (int s)
]

-- `QemuVsockCID`: -1 and -2
abbrev pub vsock_auto : ℤ
vsock_auto = negsuc 0

abbrev pub vsock_hash : ℤ
vsock_hash = negsuc 1

-- `cid in range(3, 0xFFFFFFFF)`
abbrev pub in_cid_range : ℤ → Bool
in_cid_range (negsuc n) = false
in_cid_range (pos n) = leb 3 n && ltb n 0xFFFFFFFF

unfoldable pub checked_cid : Option ℤ → Result (Option ℤ)
checked_cid none = failed (die (lit "is not a valid number or one of 'auto' or 'hash'"))
checked_cid (some cid) =
    if not (in_cid_range cid)
    then failed (die (lit "is not in the valid VSock connection ID range [3, 0xFFFFFFFF)"))
    else ok (some cid)

unfoldable pub vsock_cid : Text → Result (Option ℤ)
unfolding int checked_cid
vsock_cid s =
    if text_eq s (lit "auto")
    then ok (some vsock_auto)
    else if text_eq s (lit "hash")
    then ok (some vsock_hash)
    else checked_cid (int s)

unfoldable pub config_parse_vsock_cid : Option Text → Option ℤ → Result (Option ℤ)
unfolding vsock_cid
config_parse_vsock_cid value old = elim (given value) [ none ↦ ok none | some s ↦ vsock_cid s ]

-- `QemuVsockCID.format`; `str` of an integer is a parameter.
unfoldable pub format_cid : (ℤ → Text) → ℤ → Text
format_cid str (negsuc zero) = lit "auto"
format_cid str (negsuc (suc zero)) = lit "hash"
format_cid str cid = str cid
