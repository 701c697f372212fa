-- ===== src/VersionComp/Dual.antt =====
-- Swapping the arguments of `compare_versions` swaps its result.
use mkosi.Base.{
  ℕ, zero, suc, ◌+◌, ◌≡◌, refl, ◌⊎◌, true, false, Option, some, [], ◌∷◌, arith, length,
}
use mathlib.Core.Option
use native.Mathlib.Nat.{add_comm}
use mkosi.Base.Text.{Text, text_lt_asymm}
use mkosi.VersionComp.{
  Order, equal, left_smaller, right_smaller, Flow, stop, go, ◌>>=◌, separator, ended, letter_prefix,
  letters, digits, round, compare_loop, compare_versions, resume, from_dot, from_caret, from_dash,
  from_end, from_tilde, rstrip_invalid_version_chars, eq, lt, le, gt, ge,
}
use mkosi.VersionComp.Total.{compare_versions_total}

-- The result seen from the other side.
abbrev pub flip : Order → Order
flip equal = equal
flip right_smaller = left_smaller
flip left_smaller = right_smaller

abbrev flip_flow : Flow → Flow
flip_flow (stop r) = stop (flip r)
flip_flow (go a b) = go b a

abbrev IsDual : (Text → Text → Flow) → Type 0
IsDual f = (a b : Text) → f b a ≡ flip_flow (f a b)

letters-IsDual : IsDual letters
unfolding letters
letters-IsDual a b = ground (
  arith,
  text_lt_asymm (letter_prefix a) (letter_prefix b),
  text_lt_asymm (letter_prefix b) (letter_prefix a),
)

digits-IsDual : IsDual digits
unfolding digits
digits-IsDual a b = ground (arith, letters-IsDual a b)

>>=-dual :
    (x : Flow) (f : Text → Text → Flow) → IsDual f → (flip_flow x >>= f) ≡ flip_flow (x >>= f)
>>=-dual (stop r) f h = refl
>>=-dual (go a b) f h = h a b

separator-IsDual : (k : ℕ) → IsDual (separator k)
unfolding separator
separator-IsDual k a b = ground arith

ended-IsDual : IsDual ended
unfolding ended
ended-IsDual [] [] = refl
ended-IsDual [] (d ∷ b) = refl
ended-IsDual (c ∷ a) [] = refl
ended-IsDual (c ∷ a) (d ∷ b) = refl

then-IsDual : (f g : Text → Text → Flow) → IsDual f → IsDual g → IsDual (λ a b. f a b >>= g)
then-IsDual f g h k a b = rw (h a b) (>>=-dual (f a b) g k)

from_dot-IsDual : IsDual from_dot
from_dot-IsDual = then-IsDual (separator b'.') digits (separator-IsDual b'.') digits-IsDual

from_caret-IsDual : IsDual from_caret
from_caret-IsDual = then-IsDual (separator b'^') from_dot (separator-IsDual b'^') from_dot-IsDual

from_dash-IsDual : IsDual from_dash
from_dash-IsDual = then-IsDual (separator b'-') from_caret (separator-IsDual b'-') from_caret-IsDual

from_end-IsDual : IsDual from_end
from_end-IsDual = then-IsDual ended from_dash ended-IsDual from_dash-IsDual

from_tilde-IsDual : IsDual from_tilde
from_tilde-IsDual = then-IsDual (separator b'~') from_end (separator-IsDual b'~') from_end-IsDual

resume-dual :
    (next : Text → Text → Option Order) (x : Flow)
    → ((a b : Text) → next b a ≡ Option.map flip (next a b))
    → resume next (flip_flow x) ≡ Option.map flip (resume next x)
resume-dual next (stop r) h = refl
resume-dual next (go a b) h = h a b

round-IsDual : IsDual round
unfolding round
round-IsDual a b =
    from_tilde-IsDual (rstrip_invalid_version_chars a) (rstrip_invalid_version_chars b)

compare_loop-dual :
    (fuel : ℕ) (a b : Text) → compare_loop fuel b a ≡ Option.map flip (compare_loop fuel a b)
unfolding compare_loop
compare_loop-dual zero a b = refl
compare_loop-dual (suc fuel) a b =
    rw (round-IsDual a b) (resume-dual (compare_loop fuel) (round a b) (compare_loop-dual fuel))

-- Comparing the other way round gives the opposite result.
pub compare_versions-dual :
    (a b : Text) → compare_versions b a ≡ Option.map flip (compare_versions a b)
unfolding compare_versions
compare_versions-dual a b =
    rw (add_comm (length b) (length a)) (compare_loop-dual (length a + length b + 1) a b)

fixed-equal : (o : Option Order) (r : Order) → o ≡ some r → o ≡ Option.map flip o → o ≡ some equal
fixed-equal o equal e h = e
fixed-equal o right_smaller e h = ground (arith, e, h)
fixed-equal o left_smaller e h = ground (arith, e, h)

-- A version compares equal to itself.
pub compare_versions_refl : (a : Text) → compare_versions a a ≡ some equal
compare_versions_refl a =
    let (r, e) = compare_versions_total a a in
    fixed-equal (compare_versions a a) r e (compare_versions-dual a a)

-- `==` and `<` of versions: equality is reflexive and symmetric, exactly one of `a < b`, `a == b`
-- and `b < a` holds, and the derived `<=`, `>` and `>=` mean what they say.
pub lt_trichotomy :
    (a b : Text)
    → ((lt a b ≡ true) × (eq a b ≡ false) × (lt b a ≡ false))
      ⊎ ((lt a b ≡ false) × (eq a b ≡ true) × (lt b a ≡ false))
      ⊎ ((lt a b ≡ false) × (eq a b ≡ false) × (lt b a ≡ true))
unfolding lt eq
lt_trichotomy a b =
    let (r, e) = compare_versions_total a b in ground (arith, e, compare_versions-dual a b)

pub operators_agree : (a b : Text) → (eq a b ≡ eq b a) × (gt a b ≡ lt b a) × (le a b ≡ ge b a)
unfolding lt eq gt le ge
operators_agree a b =
    let (r, e) = compare_versions_total a b in ground (arith, e, compare_versions-dual a b)
