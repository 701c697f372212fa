-- ===== src/Ini.antt =====
-- `parse_ini` of mkosi/config.py. It is a generator: its consumers stop where they return, so what
-- it yields is a list of entries that ends in the end of the file or in the error that `die` raises
-- when the generator is resumed there.
pub mod Dedent
pub mod Render
pub mod Lines
pub mod RoundTrip
pub mod Filter
use mkosi.Base.{
  ℕ, Bool, true, false, not, ◌&&◌, Option, none, some, List, [], ◌∷◌, ◌++◌, ◌==◌, if◌then◌else◌,
}
use mkosi.Base.Text.{Text, lit, text_eq}
use mkosi.Base.Whitespace.{is_space, strip}
use mkosi.Base.Split.{partition, cut, splitlines}
use mkosi.Base.Dict.{contains}
use mkosi.Base.Result.{Error, die}
use mkosi.Ini.Dedent.{dedent}

-- `(section, setting, value)`; a section's end is `(section, "", "")`.
pub record Entry : Type 0 where
  pub section : Text
  pub setting : Text
  pub value : Text

-- What the generator yields.
pub data Entries : Type 0 where
  stop : Entries
  raise : Error → Entries
  yield : Entry → Entries → Entries

-- The local variables between two lines.
pub record Parser : Type 0 where
  pub section : Option Text
  pub setting : Option Text
  pub value : Option Text

abbrev pub start : Parser
start = record { section = none; setting = none; value = none }

abbrev pub is_empty : Text → Bool
is_empty [] = true
is_empty (c ∷ s) = false

-- `if text` for an `Optional[str]`
abbrev pub is_true : Option Text → Bool
is_true none = false
is_true (some []) = false
is_true (some (c ∷ s)) = true

-- `section and setting and value is not None`, and the entry that is then yielded.
unfoldable pub pending : Option Text → Option Text → Option Text → Option Entry
pending (some (c ∷ s)) (some (d ∷ k)) (some v) =
    some (record { section = c ∷ s; setting = d ∷ k; value = v })
pending _ _ _ = none

-- One turn of the loop over the lines: what it yields, and the variables or the error after that.
pub data Turn : Type 0 where
  next : List Entry → Parser → Turn
  invalid : List Entry → Error → Turn

unfoldable pub strip_comment : Text → Text
strip_comment line = cut b';' (cut b'#' line)

abbrev starts_with_space : Text → Bool
starts_with_space [] = false
starts_with_space (c ∷ s) = is_space c

abbrev pub last_is : ℕ → Text → Bool
last_is d [] = false
last_is d (c ∷ []) = c == d
last_is d (c ∷ e ∷ s) = last_is d (e ∷ s)

abbrev pub drop_last : Text → Text
drop_last [] = []
drop_last (c ∷ []) = []
drop_last (c ∷ e ∷ s) = c ∷ drop_last (e ∷ s)

-- The end of the section before, if there is one.
unfoldable pub section_end : Option Text → List Entry
section_end (some (c ∷ s)) = record { section = c ∷ s; setting = []; value = [] } ∷ []
section_end _ = []

-- `rest` is the line behind its "[".
unfoldable pub section_line : List Entry → Parser → Text → Text → Turn
unfolding section_end
section_line out p line rest =
    if not (last_is b']' line)
    then invalid out (die (lit "is not a valid section"))
    else let ended = out ++ section_end p.section in
      let name = strip (drop_last rest) in
      if is_empty name
      then invalid ended (die (lit "Section name cannot be empty or whitespace"))
      else next ended (record p { section = some name })

abbrev assign : List Entry → Parser → Text → Option Text → Turn
assign out p before none = invalid out (die (lit "must be followed by '='"))
assign out p [] (some behind) = invalid out (die (lit "Missing setting name before '='"))
assign out p (c ∷ before) (some behind) =
    next out (record p { setting = some (strip (c ∷ before)); value = some (strip behind) })

-- `if only_sections and section not in only_sections`
unfoldable pub is_skipped : List Text → Option Text → Bool
is_skipped [] section = false
is_skipped (o ∷ only) none = true
is_skipped (o ∷ only) (some section) = not (contains (o ∷ only) section)

unfoldable pub setting_line : List Text → List Entry → Parser → Text → Turn
unfolding is_skipped
setting_line only out p line =
    if not (is_true p.section)
    then invalid out (die (lit "is located outside of section"))
    else if is_skipped only p.section
    then next out p
    else let parts = partition b'=' line in assign out p parts.before parts.behind

-- The line, stripped, that starts a section or a setting.
unfoldable pub plain_line : List Text → List Entry → Parser → Text → Turn
unfolding section_line setting_line
plain_line only out p [] = next out p
plain_line only out p (c ∷ line) =
    if c == b'[' then section_line out p (c ∷ line) line else setting_line only out p (c ∷ line)

-- An indented line goes on with the setting's value; any other one ends it.
unfoldable pub content_line : List Text → Parser → Text → Option Entry → Turn
unfolding plain_line
content_line only p line none = plain_line only [] p (strip line)
content_line only p line (some e) =
    if starts_with_space line
    then next [] (record p { value = some (e.value ++ (10 ∷ strip line)) })
    else plain_line only (e ∷ []) (record p { setting = none; value = none }) (strip line)

unfoldable pub turn : List Text → Parser → Text → Turn
unfolding content_line pending strip_comment
turn only p raw =
    let line = strip_comment raw in
    if is_empty (strip line)
    then next [] p
    else content_line only p line (pending p.section p.setting p.value)

abbrev pub yield_all : List Entry → Entries → Entries
yield_all [] rest = rest
yield_all (e ∷ out) rest = yield e (yield_all out rest)

-- Any final setting and its value.
abbrev pub final : Option Entry → Entries
final none = stop
final (some e) = yield e stop

abbrev proceed : (Parser → Entries) → Turn → Entries
proceed rest (next out p) = yield_all out (rest p)
proceed rest (invalid out e) = yield_all out (raise e)

unfoldable pub parse_lines : List Text → List Text → Parser → Entries
unfolding turn pending
parse_lines only [] p = final (pending p.section p.setting p.value)
parse_lines only (line ∷ lines) p = proceed (parse_lines only lines) (turn only p line)

-- `text` is what `path.read_text()` returns.
unfoldable pub parse_ini : Text → List Text → Entries
unfolding parse_lines
parse_ini text only = parse_lines only (splitlines (dedent text)) start
