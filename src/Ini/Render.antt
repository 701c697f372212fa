-- ===== src/Ini/Render.antt =====
-- Configuration files as data, and their text: what `parse_ini` is to read back.
use mkosi.Base.{ℕ, ◌≡◌, Bool, true, false, not, ◌||◌, List, [], ◌∷◌, ◌++◌, map, all, All, ◌==◌}
use mkosi.Base.Text.{Text}
use mkosi.Base.Whitespace.Laws.{IsTrimmed}
use mkosi.Ini.{Entry, is_empty}

-- `key=first`, with one indented line for each further line of the value.
pub record Assignment : Type 0 where
  pub key : Text
  pub first : Text
  pub more : List Text

pub record Section : Type 0 where
  pub name : Text
  pub assignments : List Assignment

abbrev pub is_comment : ℕ → Bool
is_comment c = c == b'#' || c == b';'

abbrev pub starts_with_bracket : Text → Bool
starts_with_bracket [] = false
starts_with_bracket (c ∷ s) = c == b'['

-- A text that a line can hold: no comment starts in it, and no space stands at its ends.
pub record IsPlain (t : Text) : Type 0 where
  pub trimmed : IsTrimmed t
  pub no_comment : all (λ c. not (is_comment c)) t ≡ true

pub record IsKey (t : Text) : Type 0 where
  pub plain : IsPlain t
  pub nonempty : is_empty t ≡ false
  pub no_bracket : starts_with_bracket t ≡ false
  pub no_delimiter : all (λ c. not (c == b'=')) t ≡ true

pub record IsContinuation (t : Text) : Type 0 where
  pub plain : IsPlain t
  pub nonempty : is_empty t ≡ false

pub record IsAssignment (a : Assignment) : Type 0 where
  pub key : IsKey a.key
  pub first : IsPlain a.first
  pub more : All IsContinuation a.more

pub record IsSection (s : Section) : Type 0 where
  pub name : IsContinuation s.name
  pub assignments : All IsAssignment s.assignments

abbrev pub render_more : List Text → List Text
render_more = map (λ line. 32 ∷ line)

abbrev pub render_assignment : Assignment → List Text → List Text
render_assignment a rest = (a.key ++ (b'=' ∷ a.first)) ∷ (render_more a.more ++ rest)

abbrev pub render_assignments : List Assignment → List Text → List Text
render_assignments [] rest = rest
render_assignments (a ∷ as') rest = render_assignment a (render_assignments as' rest)

abbrev pub render : List Section → List Text
render [] = []
render (s ∷ ss) = (b'[' ∷ (s.name ++ (b']' ∷ []))) ∷ render_assignments s.assignments (render ss)

-- The value: its lines joined by newlines.
abbrev pub value_of : Text → List Text → Text
value_of v [] = v
value_of v (line ∷ more) = value_of (v ++ (10 ∷ line)) more

abbrev pub entry_of : Text → Assignment → Entry
entry_of name a = record { section = name; setting = a.key; value = value_of a.first a.more }

abbrev pub end_of : Text → Entry
end_of name = record { section = name; setting = []; value = [] }

-- The entries of the sections in their order. Every section but the last one has its end.
abbrev pub entries_of : List Section → List Entry
entries_of [] = []
entries_of (s ∷ []) = map (entry_of s.name) s.assignments
entries_of (s ∷ t ∷ ss) =
    map (entry_of s.name) s.assignments ++ (end_of s.name ∷ entries_of (t ∷ ss))
