-- ===== src/Ini/Dedent.antt =====
-- `textwrap.dedent`, which `parse_ini` calls: the whitespace that all lines with text in them start
-- with is taken off every line, and a line of blanks becomes empty.
use mkosi.Base.{
  ℕ, Bool, ◌||◌, Option, none, some, List, [], ◌∷◌, map, all, ◌==◌, take_while, if◌then◌else◌,
}
use mkosi.Base.Text.{Text, remove_prefix}
use mkosi.Base.Split.{split, join}

-- the class "[ \t]" of its patterns
abbrev is_blank : ℕ → Bool
is_blank c = c == 32 || c == 9

abbrev common_prefix : Text → Text → Text
common_prefix [] t = []
common_prefix (c ∷ s) [] = []
common_prefix (c ∷ s) (d ∷ t) = if c == d then c ∷ common_prefix s t else []

-- The margin so far is `none` before the first line with text.
abbrev narrow : Option Text → Text → Option Text
narrow none indent = some indent
narrow (some m) indent = some (common_prefix m indent)

unfoldable pub margin : Option Text → List Text → Option Text
margin m [] = m
margin m (line ∷ lines) =
    margin (if all is_blank line then m else narrow m (take_while is_blank line)) lines

abbrev normalize : Text → Text
normalize line = if all is_blank line then [] else line

abbrev unindent : Option Text → Text → Text
unindent none line = line
unindent (some m) line = remove_prefix line m

unfoldable pub dedent : Text → Text
unfolding margin
dedent text =
    let lines = map normalize (split 10 text) in
    join (10 ∷ []) (map (unindent (margin none lines)) lines)
