-- ===== src/Base/Split.antt =====
-- `str.find`, `str.partition`, `str.split`, `str.splitlines` and `str.join`.
use Prim.Native.Nat.{ℕ}
use mathlib.Core.Bool.{Bool, false, ◌&&◌, ◌||◌}
use mathlib.Core.Option.{Option, none, some}
use mathlib.Core.List.{List, [], ◌∷◌, ◌++◌}
use mkosi.Base.Tests.{leb, ◌==◌, if◌then◌else◌}
use mkosi.Base.Text.{Text}

-- s.partition(d) for one character `d`: what is before it, and what is behind it if it is there.
pub record Partition : Type 0 where
  pub before : Text
  pub behind : Option Text

abbrev partition_cons : ℕ → Partition → Partition
partition_cons c p = record { before = c ∷ p.before; behind = p.behind }

unfoldable pub partition : ℕ → Text → Partition
partition d [] = record { before = []; behind = none }
partition d (c ∷ s) =
    let rest = partition d s in
    if c == d then record { before = []; behind = some s } else partition_cons c rest

-- s[:i] for i = s.find(d), and `s` where `d` is not found.
unfoldable pub cut : ℕ → Text → Text
cut d [] = []
cut d (c ∷ s) = let rest = cut d s in if c == d then [] else c ∷ rest

abbrev extend_first : ℕ → List Text → List Text
extend_first c [] = (c ∷ []) ∷ []
extend_first c (s ∷ ss) = (c ∷ s) ∷ ss

-- s.split(d) for one character `d`.
unfoldable pub split : ℕ → Text → List Text
split d [] = [] ∷ []
split d (c ∷ s) = let rest = split d s in if c == d then [] ∷ rest else extend_first c rest

-- The line boundaries of `str.splitlines`.
unfoldable pub is_line_break : ℕ → Bool
is_line_break c =
    leb 10 c && leb c 13 || leb 28 c && leb c 30 || c == 0x85 || c == 0x2028 || c == 0x2029

abbrev starts_with_newline : Text → Bool
starts_with_newline [] = false
starts_with_newline (d ∷ r) = d == 10

-- The "\n" of a "\r\n" gave an empty line of its own.
abbrev drop_empty_first : List Text → List Text
drop_empty_first [] = []
drop_empty_first (l ∷ ls) = ls

-- Each boundary ends a line, "\r\n" is one boundary, and no line stands behind the last boundary.
unfoldable pub splitlines : Text → List Text
unfolding is_line_break
splitlines [] = []
splitlines (c ∷ s) =
    let rest = splitlines s in
    if c == 13 && starts_with_newline s
    then [] ∷ drop_empty_first rest
    else if is_line_break c
    then [] ∷ rest
    else extend_first c rest

-- d.join(texts)
unfoldable pub join : Text → List Text → Text
join d [] = []
join d (s ∷ []) = s
join d (s ∷ t ∷ ss) = s ++ (d ++ join d (t ∷ ss))
