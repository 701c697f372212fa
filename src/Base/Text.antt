-- ===== src/Base/Text.antt =====
-- Python's `str` as the list of its code points, and the methods of `str` that the source uses.
use Prim.Native.Nat.{ℕ}
use Prim.Native.Char.{code}
use Prim.Native.String.{String}
use mathlib.Core.Path.{◌≡◌, refl}
use mathlib.Core.Logic.{◌↔◌}
use mathlib.Core.Bool.{Bool, true, false, ◌&&◌, ◌||◌}
use mathlib.Core.Option.{Option, none, some}
use mathlib.Core.List.{List, [], ◌∷◌}
use native.Mathlib.Omega.{arith}
use mkosi.Base.Tests.{ltb, ◌==◌, ==_refl, if◌then◌else◌}
use mkosi.Base.Lists.{take_while, drop_while}

abbrev pub Text : Type 0
Text = List ℕ

-- A literal of the source.
abbrev pub lit : String → Text
lit String.[] = []
lit (String.◌∷◌ c s) = code c ∷ lit s

-- s == t
unfoldable pub text_eq : Text → Text → Bool
text_eq [] [] = true
text_eq [] (d ∷ t) = false
text_eq (c ∷ s) [] = false
text_eq (c ∷ s) (d ∷ t) = c == d && text_eq s t

pub text_eq_iff : (s t : Text) → (text_eq s t ≡ true) ↔ (s ≡ t)
unfolding text_eq
text_eq_iff [] [] = ground arith
text_eq_iff [] (d ∷ t) = ground arith
text_eq_iff (c ∷ s) [] = ground arith
text_eq_iff (c ∷ s) (d ∷ t) = ground (arith, text_eq_iff s t)

pub text_eq_refl : (s : Text) → text_eq s s ≡ true
text_eq_refl s = (text_eq_iff s s).1 refl

-- s < t: by the first code point that differs.
unfoldable pub text_lt : Text → Text → Bool
text_lt [] [] = false
text_lt [] (d ∷ t) = true
text_lt (c ∷ s) [] = false
text_lt (c ∷ s) (d ∷ t) = ltb c d || c == d && text_lt s t

-- s.startswith(prefix)
unfoldable pub starts_with : Text → Text → Bool
starts_with s [] = true
starts_with [] (p ∷ ps) = false
starts_with (c ∷ s) (p ∷ ps) = c == p && starts_with s ps

-- The rest behind a prefix that is there.
unfoldable pub strip_prefix : Text → Text → Option Text
strip_prefix s [] = some s
strip_prefix [] (p ∷ ps) = none
strip_prefix (c ∷ s) (p ∷ ps) = if c == p then strip_prefix s ps else none

-- s.removeprefix(prefix)
unfoldable pub remove_prefix : Text → Text → Text
unfolding strip_prefix
remove_prefix s p = elim (strip_prefix s p) [ none ↦ s | some r ↦ r ]

strip_prefix-take_while :
    (p : ℕ → Bool) (s : Text) → strip_prefix s (take_while p s) ≡ some (drop_while p s)
unfolding strip_prefix
strip_prefix-take_while p [] = refl
strip_prefix-take_while p (c ∷ s) = ground (arith, ==_refl c, strip_prefix-take_while p s)

pub remove_prefix-take_while :
    (p : ℕ → Bool) (s : Text) → remove_prefix s (take_while p s) ≡ drop_while p s
unfolding remove_prefix
remove_prefix-take_while p s = rw (strip_prefix-take_while p s, remove_prefix)

-- The order of texts is asymmetric.
pub text_lt_asymm : (s t : Text) → text_lt s t ≡ true → text_lt t s ≡ false
unfolding text_lt
text_lt_asymm [] [] h = refl
text_lt_asymm [] (d ∷ t) h = refl
text_lt_asymm (c ∷ s) [] h = ground arith
text_lt_asymm (c ∷ s) (d ∷ t) h = ground (arith, text_lt_asymm s t)

-- Of two texts that are not in order either way, both are the same.
pub text_lt_connex : (s t : Text) → text_lt s t ≡ false → text_lt t s ≡ false → s ≡ t
unfolding text_lt
text_lt_connex [] [] h k = refl
text_lt_connex [] (d ∷ t) h k = ground arith
text_lt_connex (c ∷ s) [] h k = ground arith
text_lt_connex (c ∷ s) (d ∷ t) h k = ground (arith, text_lt_connex s t)

-- s.removesuffix(suffix)
unfoldable pub remove_suffix : Text → Text → Text
unfolding text_eq
remove_suffix [] suffix = []
remove_suffix (c ∷ s) suffix = if text_eq (c ∷ s) suffix then [] else c ∷ remove_suffix s suffix
