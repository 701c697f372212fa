-- ===== src/Ini/RoundTrip.antt =====
-- `parse_ini` reads back what a file of sections says.
use mkosi.Base.{
  ℕ, ◌≡◌, refl, ap, sym, ◌∙◌, false, Option, none, some, List, [], ◌∷◌, ◌++◌, map, All, arith,
}
use mathlib.Core.List.{append-nil}
use mkosi.Base.Text.{Text}
use mkosi.Ini.{
  Entry, Entries, stop, yield, Parser, start, next, pending, section_end, turn, parse_lines,
  yield_all, final,
}
use mkosi.Ini.{is_empty}
use mkosi.Ini.Render.{
  IsPlain, Assignment, Section, IsContinuation, IsAssignment, IsSection, IsKey, render_more,
  render_assignment, render_assignments, render, value_of, entry_of, end_of, entries_of,
}
use mkosi.Ini.Lines.{flushed, turn_section, turn_assignment, turn_more}

-- The parser in the section `name`, with the assignment `key=v` pending.
abbrev busy : Text → Text → Text → Parser
busy name key v = record { section = some name; setting = some key; value = some v }

abbrev idle : Text → Parser
idle name = record { section = some name; setting = none; value = none }

step :
    (only : List Text) (line : Text) (lines : List Text) (p q : Parser) (out : List Entry)
    → turn only p line ≡ next out q
    → parse_lines only (line ∷ lines) p ≡ yield_all out (parse_lines only lines q)
unfolding parse_lines
step only line lines p q out h = rw h

parse_more :
    (name key v : Text) (n k : ℕ) (more rest : List Text)
    → All IsContinuation more
    → parse_lines [] (render_more more ++ rest) (busy (n ∷ name) (k ∷ key) v)
      ≡ parse_lines [] rest (busy (n ∷ name) (k ∷ key) (value_of v more))
parse_more name key v n k [] rest h = refl
parse_more name key v n k (line ∷ more) rest h =
    step [] (32 ∷ line) (render_more more ++ rest) _ _ [] (
      turn_more [] (busy (n ∷ name) (k ∷ key) v)
        (record { section = n ∷ name; setting = k ∷ key; value = v }) line (unfold pending in refl)
        h.0)
    ∙ parse_more name key _ n k more rest h.1

-- What is still to be yielded in a section, after the pending entry `e`.
abbrev state : Text → Option Entry → Parser
state name none = idle name
state name (some e) = busy name e.setting e.value

abbrev tail : Option Entry → Text → List Assignment → List Section → Entries
tail e name [] [] = final e
tail e name [] (s ∷ ss) =
    yield_all (flushed e) (yield (end_of name) (tail none s.name s.assignments ss))
tail e name (a ∷ as') ss = yield_all (flushed e) (tail (some (entry_of name a)) name as' ss)

-- `e` is what the parser holds in the section `name`.
abbrev Holds : Text → Option Entry → Type 0
Holds name e = pending (state name e).section (state name e).setting (state name e).value ≡ e

header_turn :
    (n : ℕ) (name : Text) (e : Option Entry) (header : Text)
    → Holds (n ∷ name) e
    → IsContinuation header
    → turn [] (state (n ∷ name) e) (b'[' ∷ (header ++ (b']' ∷ [])))
      ≡ next (flushed e ++ (end_of (n ∷ name) ∷ [])) (idle header)
unfolding section_end
header_turn n name none header p h = rw p at (turn_section [] (state (n ∷ name) none) header h)
header_turn n name (some e) header p h =
    rw p at (turn_section [] (state (n ∷ name) (some e)) header h)

-- Yielding two lists of entries one after the other.
pub yield_all-append :
    (out more : List Entry) (r : Entries)
    → yield_all (out ++ more) r ≡ yield_all out (yield_all more r)
yield_all-append [] more r = refl
yield_all-append (e ∷ out) more r = ap (yield e) (yield_all-append out more r)

section_step :
    (n : ℕ) (name : Text) (e : Option Entry) (header : Text) (lines : List Text)
    → Holds (n ∷ name) e
    → IsContinuation header
    → parse_lines [] ((b'[' ∷ (header ++ (b']' ∷ []))) ∷ lines) (state (n ∷ name) e)
      ≡ yield_all (flushed e) (yield (end_of (n ∷ name)) (parse_lines [] lines (idle header)))
section_step n name e header lines p h =
    step [] _ lines (state (n ∷ name) e) (idle header) _ (header_turn n name e header p h)
    ∙ yield_all-append (flushed e) (end_of (n ∷ name) ∷ []) _

assignment_turn :
    (n : ℕ) (name : Text) (e : Option Entry) (k : ℕ) (key first : Text)
    → Holds (n ∷ name) e
    → IsKey (k ∷ key)
    → IsPlain first
    → turn [] (state (n ∷ name) e) ((k ∷ key) ++ (b'=' ∷ first))
      ≡ next (flushed e) (busy (n ∷ name) (k ∷ key) first)
assignment_turn n name none k key first p h f =
    rw p at (turn_assignment (state (n ∷ name) none) k key first n name h f refl)
assignment_turn n name (some e) k key first p h f =
    rw p at (turn_assignment (state (n ∷ name) (some e)) k key first n name h f refl)

assignment_step :
    (n : ℕ) (name : Text) (e : Option Entry) (key first : Text) (more lines : List Text)
    → Holds (n ∷ name) e
    → let a : Assignment = record { key = key; first = first; more = more } in
      IsAssignment a
      → parse_lines [] (render_assignment a lines) (state (n ∷ name) e)
        ≡ yield_all
            (flushed e)
            (parse_lines [] lines (state (n ∷ name) (some (entry_of (n ∷ name) a))))
assignment_step n name e [] first more lines p h = absurd (ground (arith, h.key.nonempty))
assignment_step n name e (k ∷ key) first more lines p h =
    step [] ((k ∷ key) ++ (b'=' ∷ first)) (render_more more ++ lines) (state (n ∷ name) e)
      (busy (n ∷ name) (k ∷ key) first) (flushed e)
      (assignment_turn n name e k key first p h.key h.first)
    ∙ ap (yield_all (flushed e)) (parse_more name key first n k more lines h.more)

Holds-entry :
    (n : ℕ) (name : Text) (a : Assignment)
    → is_empty a.key ≡ false
    → Holds (n ∷ name) (some (entry_of (n ∷ name) a))
unfolding pending
Holds-entry n name a h = ground (arith, h)

Holds-none : (name : Text) → Holds name none
unfolding pending
Holds-none [] = refl
Holds-none (n ∷ name) = refl

parse_tail :
    (ss : List Section) (as' : List Assignment) (name : Text) (e : Option Entry)
    → IsContinuation name
    → Holds name e
    → All IsAssignment as'
    → All IsSection ss
    → parse_lines [] (render_assignments as' (render ss)) (state name e) ≡ tail e name as' ss
parse_tail ss as' [] e n p ha hs = absurd (ground (arith, n.nonempty))
parse_tail [] [] (m ∷ name) e n p ha hs = unfold parse_lines in ap final p
parse_tail (s ∷ ss) [] (m ∷ name) e n p ha hs =
    section_step m name e s.name _ p hs.0.name
    ∙ ap (λ r. yield_all (flushed e) (yield (end_of (m ∷ name)) r))
        (parse_tail ss s.assignments s.name none hs.0.name (Holds-none s.name) hs.0.assignments
          hs.1)
parse_tail ss (a ∷ as') (m ∷ name) e n p ha hs =
    assignment_step m name e a.key a.first a.more _ p ha.0
    ∙ ap (yield_all (flushed e)) (
        parse_tail ss as' (m ∷ name) (some (entry_of (m ∷ name) a)) n
          (Holds-entry m name a ha.0.key.nonempty) ha.1 hs)

-- The entries that are left after `e` in the section `name`.
abbrev left_of : Text → List Section → List Entry
left_of name [] = []
left_of name (s ∷ ss) = end_of name ∷ entries_of (s ∷ ss)

entries_of-cons :
    (s : Section) (ss : List Section)
    → entries_of (s ∷ ss) ≡ map (entry_of s.name) s.assignments ++ left_of s.name ss
entries_of-cons s [] = sym (append-nil _)
entries_of-cons s (t ∷ ss) = refl

yield_flushed :
    (e : Option Entry) (out : List Entry)
    → yield_all (flushed e) (yield_all out stop) ≡ yield_all (flushed e ++ out) stop
yield_flushed none out = refl
yield_flushed (some e) out = refl

tail-entries :
    (ss : List Section) (as' : List Assignment) (name : Text) (e : Option Entry)
    → tail e name as' ss
      ≡ yield_all (flushed e ++ (map (entry_of name) as' ++ left_of name ss)) stop
tail-entries [] [] name none = refl
tail-entries [] [] name (some e) = refl
tail-entries (s ∷ ss) [] name e =
    ap (λ r. yield_all (flushed e) (yield (end_of name) r))
      (tail-entries ss s.assignments s.name none
        ∙ ap (λ o. yield_all o stop) (sym (entries_of-cons s ss)))
    ∙ yield_flushed e (end_of name ∷ entries_of (s ∷ ss))
tail-entries ss (a ∷ as') name e =
    ap (yield_all (flushed e)) (tail-entries ss as' name (some (entry_of name a)))
    ∙ yield_flushed e _

start_step :
    (header : Text) (lines : List Text)
    → IsContinuation header
    → parse_lines [] ((b'[' ∷ (header ++ (b']' ∷ []))) ∷ lines) start
      ≡ parse_lines [] lines (idle header)
start_step header lines h =
    step [] _ lines start (idle header) []
      (unfold pending section_end in turn_section [] start header h)

-- Written down as lines, with continuation lines indented, and read back with no filter, any list
-- of sections gives its assignments in order, each value's lines joined by newlines, and the end of
-- each section but the last.
pub parse_lines-render :
    (s : Section) (ss : List Section)
    → All IsSection (s ∷ ss)
    → parse_lines [] (render (s ∷ ss)) start ≡ yield_all (entries_of (s ∷ ss)) stop
parse_lines-render s ss h =
    start_step s.name _ h.0.name
    ∙ parse_tail ss s.assignments s.name none h.0.name (Holds-none s.name) h.0.assignments h.1
    ∙ tail-entries ss s.assignments s.name none
    ∙ ap (λ o. yield_all o stop) (sym (entries_of-cons s ss))
