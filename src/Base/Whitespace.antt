-- ===== src/Base/Whitespace.antt =====
-- `str.isspace`, `str.strip` and its one-sided forms, on code points.
pub mod Laws
use Prim.Native.Nat.{ℕ}
use mathlib.Core.Path.{◌≡◌, refl}
use mathlib.Core.Bool.{Bool, true, false, ◌&&◌, ◌||◌}
use mathlib.Core.List.{List, [], ◌∷◌, ◌++◌, reverse}
use native.Mathlib.Omega.{arith}
use mkosi.Base.Tests.{leb, ◌==◌, Bool-cases, if◌then◌else◌}
use mkosi.Base.Lists.{drop_while}
use mkosi.Base.Text.{Text}

-- The code points with the Unicode property that `str.isspace` tests.
unfoldable pub is_space : ℕ → Bool
is_space c =
    leb 9 c && leb c 13
    || leb 28 c && leb c 32
    || c == 0x85
    || c == 0xa0
    || c == 0x1680
    || leb 0x2000 c && leb c 0x200a
    || c == 0x2028
    || c == 0x2029
    || c == 0x202f
    || c == 0x205f
    || c == 0x3000

unfoldable pub lstrip : Text → Text
unfolding is_space
lstrip s = drop_while is_space s

abbrev pub rstrip_onto : ℕ → Text → Text
rstrip_onto c [] = if is_space c then [] else c ∷ []
rstrip_onto c (d ∷ r) = c ∷ d ∷ r

-- The last run of spaces is dropped: a character stays if it or a later one is no space.
unfoldable pub rstrip : Text → Text
unfolding is_space
rstrip [] = []
rstrip (c ∷ s) = rstrip_onto c (rstrip s)

unfoldable pub strip : Text → Text
unfolding lstrip rstrip
strip s = rstrip (lstrip s)
