-- ===== src/VersionComp.antt =====
-- mkosi/versioncomp.py: `GenericVersion.compare_versions` and the comparisons built on it.
-- The `while True:` loop runs on fuel, one unit for each round; VersionComp/Total.antt has why the
-- fuel of `compare_versions` is enough.
pub mod Total
pub mod Dual
pub mod Cycle
pub mod Caret
use mkosi.Base.{
  ℕ, zero, suc, ◌+◌, ◌-◌, ◌*◌, Bool, true, false, not, ◌&&◌, ◌||◌, Option, none, some, List, [],
  ◌∷◌, leb, ltb, ◌==◌, if◌then◌else◌, length, take_while,
}
use mkosi.Base.Text.{Text, text_eq, text_lt, starts_with, remove_prefix}

-- The class constants `_EQUAL`, `_RIGHT_SMALLER` and `_LEFT_SMALLER`.
pub data Order : Type 0 where
  equal right_smaller left_smaller : Order

-- string.digits and string.ascii_letters
unfoldable pub is_digit : ℕ → Bool
is_digit c = leb b'0' c && leb c b'9'

unfoldable pub is_letter : ℕ → Bool
is_letter c = leb b'a' c && leb c b'z' || leb b'A' c && leb c b'Z'

-- valid_version_chars
unfoldable pub is_valid : ℕ → Bool
unfolding is_digit is_letter
is_valid c = is_letter c || is_digit c || c == b'~' || c == b'-' || c == b'^' || c == b'.'

unfoldable pub rstrip_invalid_version_chars : Text → Text
unfolding is_valid
rstrip_invalid_version_chars [] = []
rstrip_invalid_version_chars (c ∷ s) = if is_valid c then c ∷ s else rstrip_invalid_version_chars s

unfoldable pub digit_prefix : Text → Text
unfolding is_digit
digit_prefix s = take_while is_digit s

unfoldable pub letter_prefix : Text → Text
unfolding is_letter
letter_prefix s = take_while is_letter s

-- `int` on ASCII digits, from the value of the digits before; 0 for the empty prefix.
unfoldable pub int_from : ℕ → Text → ℕ
int_from n [] = n
int_from n (c ∷ s) = int_from (n * 10 + (c - b'0')) s

abbrev pub int : Text → ℕ
int = int_from 0

-- What a stretch of the loop's body does: it returns, or leaves the two strings for what follows.
pub data Flow : Type 0 where
  stop : Order → Flow
  go : Text → Text → Flow

infix 5 ◌>>=◌
abbrev pub ◌>>=◌ : Flow → (Text → Text → Flow) → Flow
stop r >>= f = stop r
go v1 v2 >>= f = f v1 v2

abbrev drop_first : Text → Text
drop_first [] = []
drop_first (c ∷ s) = s

abbrev head_is : ℕ → Text → Bool
head_is d [] = false
head_is d (c ∷ s) = c == d

-- The blocks for "~", "-", "^" and "." share one shape: `startswith` of one character on both
-- sides, `removeprefix` of it, and the string that starts with it compares lower.
unfoldable pub separator : ℕ → Text → Text → Flow
separator c v1 v2 =
    if head_is c v1 && head_is c v2
    then go (drop_first v1) (drop_first v2)
    else if head_is c v1
    then stop left_smaller
    else if head_is c v2
    then stop right_smaller
    else go v1 v2

unfoldable pub ended : Text → Text → Flow
ended [] [] = stop equal
ended [] (d ∷ v2) = stop left_smaller
ended (c ∷ v1) [] = stop right_smaller
ended (c ∷ v1) (d ∷ v2) = go (c ∷ v1) (d ∷ v2)

unfoldable pub letters : Text → Text → Flow
unfolding letter_prefix
letters v1 v2 =
    let p1 = letter_prefix v1 in
    let p2 = letter_prefix v2 in
    if text_lt p1 p2
    then stop left_smaller
    else if text_lt p2 p1
    then stop right_smaller
    else go (remove_prefix v1 p1) (remove_prefix v2 p2)

unfoldable pub digits : Text → Text → Flow
unfolding digit_prefix
digits v1 v2 =
    let p1 = digit_prefix v1 in
    let p2 = digit_prefix v2 in
    if text_eq p1 [] && text_eq p2 []
    then letters v1 v2
    else if ltb (int p1) (int p2)
    then stop left_smaller
    else if ltb (int p2) (int p1)
    then stop right_smaller
    else go (remove_prefix v1 p1) (remove_prefix v2 p2)

-- The body of the loop from each of its blocks on.
abbrev pub from_dot : Text → Text → Flow
from_dot v1 v2 = separator b'.' v1 v2 >>= digits

abbrev pub from_caret : Text → Text → Flow
from_caret v1 v2 = separator b'^' v1 v2 >>= from_dot

abbrev pub from_dash : Text → Text → Flow
from_dash v1 v2 = separator b'-' v1 v2 >>= from_caret

abbrev pub from_end : Text → Text → Flow
from_end v1 v2 = ended v1 v2 >>= from_dash

abbrev pub from_tilde : Text → Text → Flow
from_tilde v1 v2 = separator b'~' v1 v2 >>= from_end

unfoldable pub round : Text → Text → Flow
round v1 v2 = from_tilde (rstrip_invalid_version_chars v1) (rstrip_invalid_version_chars v2)

-- A `return` ends the loop, and what a round leaves goes to the next one.
abbrev pub resume : (Text → Text → Option Order) → Flow → Option Order
resume next (stop r) = some r
resume next (go v1 v2) = next v1 v2

unfoldable pub compare_loop : ℕ → Text → Text → Option Order
compare_loop zero v1 v2 = none
compare_loop (suc fuel) v1 v2 = resume (compare_loop fuel) (round v1 v2)

unfoldable pub compare_versions : Text → Text → Option Order
unfolding compare_loop
compare_versions v1 v2 = compare_loop (length v1 + length v2 + 1) v1 v2

abbrev returns_equal : Option Order → Bool
returns_equal (some equal) = true
returns_equal _ = false

abbrev returns_left_smaller : Option Order → Bool
returns_left_smaller (some left_smaller) = true
returns_left_smaller _ = false

-- `__eq__` and `__lt__` on two versions; `functools.total_ordering` derives the other operators.
unfoldable pub eq : Text → Text → Bool
unfolding compare_versions
eq a b = returns_equal (compare_versions a b)

unfoldable pub lt : Text → Text → Bool
unfolding compare_versions
lt a b = returns_left_smaller (compare_versions a b)

unfoldable pub le : Text → Text → Bool
unfolding eq lt
le a b = lt a b || eq a b

unfoldable pub gt : Text → Text → Bool
unfolding eq lt
gt a b = not (lt a b) && not (eq a b)

unfoldable pub ge : Text → Text → Bool
unfolding lt
ge a b = not (lt a b)
