-- ===== src/Ini/Filter.antt =====
-- What `parse_ini` yields with a filter on sections, and before an error.
use mkosi.Base.{
  ◌≡◌, refl, true, false, Option, none, some, List, [], ◌∷◌, All, All-append, arith, ◌⊎◌, inl, inr,
  ◌≢◌, Bool-cases, ◌==◌,
}
use mkosi.Base.Text.{Text}
use mkosi.Base.Whitespace.{strip}
use mkosi.Ini.{
  Entry, Entries, stop, yield, raise, Parser, Turn, invalid, start, next, pending, section_end,
  turn, parse_lines, yield_all, final, proceed, is_empty, is_skipped, is_true, section_line,
  setting_line, plain_line, content_line, assign, last_is, drop_last, parse_ini, strip_comment,
  starts_with_space,
}
use mkosi.Ini.Dedent.{dedent}
use mkosi.Base.Split.{splitlines}

-- A section's end, or a setting with a name in a section that the filter lets through.
abbrev pub IsAllowed : List Text → Entry → Type 0
IsAllowed only e =
    (is_empty e.section ≡ false)
    × (((is_empty e.setting ≡ true) × (is_empty e.value ≡ true))
        ⊎ ((is_empty e.setting ≡ false) × (is_skipped only (some e.section) ≡ false)))

abbrev pub AllYielded {ℓ} : (Entry → Type ℓ) → Entries → Type ℓ
AllYielded P stop = Unit
AllYielded P (raise e) = Unit
AllYielded P (yield e r) = P e × AllYielded P r

AllYielded-All :
    (P : Entry → Type 0) (out : List Entry) (r : Entries)
    → All P out
    → AllYielded P r
    → AllYielded P (yield_all out r)
AllYielded-All P [] r h k = k
AllYielded-All P (e ∷ out) r h k = (h.0, AllYielded-All P out r h.1 k)

-- No value waits, whatever the section is.
abbrev IsQuiet : Parser → Type 0
IsQuiet p = (section : Option Text) → pending section p.setting p.value ≡ none

-- A value that waits for its end belongs to a section that the filter lets through.
record IsWf (only : List Text) (p : Parser) : Type 0 where
  held : (e : Entry) → pending p.section p.setting p.value ≡ some e → IsAllowed only e
  quiet : pending p.section p.setting p.value ≡ none → IsQuiet p

-- A turn yields allowed entries and leaves a well-formed parser.
abbrev IsGood : List Text → Turn → Type 0
IsGood only (next out p) = All (IsAllowed only) out × IsWf only p
IsGood only (invalid out e) = All (IsAllowed only) out

IsQuiet-IsWf : (only : List Text) (p : Parser) → IsQuiet p → IsWf only p
IsQuiet-IsWf only p q = record { held = λ e w. absurd (cc (q p.section, w)); quiet = λ _. q }

section_end-IsAllowed : (only : List Text) (s : Option Text) → All (IsAllowed only) (section_end s)
unfolding section_end
section_end-IsAllowed only none = tt
section_end-IsAllowed only (some []) = tt
section_end-IsAllowed only (some (c ∷ s)) = ((refl, inl (refl, refl)), tt)

section_line-IsGood :
    (only : List Text) (out : List Entry) (p : Parser) (line rest : Text)
    → All (IsAllowed only) out
    → IsQuiet p
    → IsGood only (section_line out p line rest)
unfolding section_line
section_line-IsGood only out p line rest h q = elim (Bool-cases (last_is b']' line)) [
  | inr n ↦ rw n h
  | inl y ↦ rw y (elim (Bool-cases (is_empty (strip (drop_last rest)))) [
    | inl e ↦ rw e (All-append (IsAllowed only) out _ h (section_end-IsAllowed only p.section))
    | inr n ↦ rw n (
      All-append (IsAllowed only) out _ h (section_end-IsAllowed only p.section),
      IsQuiet-IsWf only (record p { section = some (strip (drop_last rest)) }) q,
    )
  ])
]

pending-setting :
    (only : List Text) (section : Option Text) (k v : Text) (e : Entry)
    → is_true section ≡ true
    → is_skipped only section ≡ false
    → pending section (some k) (some v) ≡ some e
    → IsAllowed only e
unfolding pending
pending-setting only none k v e h a w = cc
pending-setting only (some []) k v e h a w = cc
pending-setting only (some (c ∷ s)) [] v e h a w = cc
pending-setting only (some (c ∷ s)) (d ∷ k) v e h a w = ground (arith, a, w)

pending-quiet :
    (section : Option Text) (k v : Text)
    → is_true section ≡ true
    → pending section (some k) (some v) ≡ none
    → (other : Option Text) → pending other (some k) (some v) ≡ none
unfolding pending
pending-quiet none k v h w other = cc
pending-quiet (some []) k v h w other = cc
pending-quiet (some (c ∷ s)) (d ∷ k) v h w other = cc
pending-quiet (some (c ∷ s)) [] v h w none = refl
pending-quiet (some (c ∷ s)) [] v h w (some []) = refl
pending-quiet (some (c ∷ s)) [] v h w (some (o ∷ other)) = refl

assign-IsGood :
    (only : List Text) (out : List Entry) (p : Parser) (before : Text) (behind : Option Text)
    → All (IsAllowed only) out
    → is_true p.section ≡ true
    → is_skipped only p.section ≡ false
    → IsGood only (assign out p before behind)
assign-IsGood only out p before none h t a = h
assign-IsGood only out p [] (some behind) h t a = h
assign-IsGood only out p (c ∷ before) (some behind) h t a = (
  h,
  record {
    held = λ e w. pending-setting only p.section _ _ e t a w;
    quiet = λ w. pending-quiet p.section _ _ t w;
  },
)

setting_line-IsGood :
    (only : List Text) (out : List Entry) (p : Parser) (line : Text)
    → All (IsAllowed only) out
    → IsQuiet p
    → IsGood only (setting_line only out p line)
unfolding setting_line
setting_line-IsGood only out p line h q = elim (Bool-cases (is_true p.section)) [
  | inr n ↦ rw n h
  | inl t ↦ rw t (elim (Bool-cases (is_skipped only p.section)) [
    | inl s ↦ rw s (h, IsQuiet-IsWf only p q)
    | inr s ↦ rw s (assign-IsGood only out p _ _ h t s)
  ])
]

plain_line-IsGood :
    (only : List Text) (out : List Entry) (p : Parser) (line : Text)
    → All (IsAllowed only) out
    → IsQuiet p
    → IsGood only (plain_line only out p line)
unfolding plain_line
plain_line-IsGood only out p [] h q = (h, IsQuiet-IsWf only p q)
plain_line-IsGood only out p (c ∷ line) h q = elim (Bool-cases (c == b'[')) [
  | inl b ↦ rw b (section_line-IsGood only out p (c ∷ line) line h q)
  | inr n ↦ rw n (setting_line-IsGood only out p (c ∷ line) h q)
]

-- A further line of a value changes neither the section nor the setting.
pending-more :
    (only : List Text) (section setting value : Option Text) (v : Text) (e e' : Entry)
    → pending section setting value ≡ some e
    → IsAllowed only e
    → pending section setting (some v) ≡ some e'
    → IsAllowed only e'
unfolding pending
pending-more only (some (c ∷ s)) (some (d ∷ k)) (some w) v e e' h a h' = ground (arith, h, a, h')
pending-more only (some (c ∷ s)) (some (d ∷ k)) none v e e' h a h' = cc
pending-more only (some (c ∷ s)) (some []) value v e e' h a h' = cc
pending-more only (some (c ∷ s)) none value v e e' h a h' = cc
pending-more only (some []) setting value v e e' h a h' = cc
pending-more only none setting value v e e' h a h' = cc

pending-stays :
    (section setting value : Option Text) (v : Text) (e : Entry)
    → pending section setting value ≡ some e
    → pending section setting (some v) ≢ none
unfolding pending
pending-stays (some (c ∷ s)) (some (d ∷ k)) (some w) v e h n = cc
pending-stays (some (c ∷ s)) (some (d ∷ k)) none v e h n = cc
pending-stays (some (c ∷ s)) (some []) value v e h n = cc
pending-stays (some (c ∷ s)) none value v e h n = cc
pending-stays (some []) setting value v e h n = cc
pending-stays none setting value v e h n = cc

cleared-IsQuiet : (p : Parser) → IsQuiet (record p { setting = none; value = none })
unfolding pending
cleared-IsQuiet p none = refl
cleared-IsQuiet p (some []) = refl
cleared-IsQuiet p (some (c ∷ s)) = refl

content_line-IsGood :
    (only : List Text) (p : Parser) (line : Text) (e : Option Entry)
    → IsWf only p
    → pending p.section p.setting p.value ≡ e
    → IsGood only (content_line only p line e)
unfolding content_line
content_line-IsGood only p line none w h = plain_line-IsGood only [] p (strip line) tt (w.quiet h)
content_line-IsGood only p line (some e) w h = elim (Bool-cases (starts_with_space line)) [
  | inl s ↦ rw s (
    tt,
    record {
      held = λ e' h'. pending-more only _ _ _ _ e e' h (w.held e h) h';
      quiet = λ n. absurd (pending-stays _ _ _ _ e h n);
    },
  )
  | inr s ↦ rw s (
      plain_line-IsGood only (e ∷ []) (record p { setting = none; value = none }) (strip line)
        (w.held e h, tt) (cleared-IsQuiet p))
]

turn-IsGood :
    (only : List Text) (p : Parser) (line : Text) → IsWf only p → IsGood only (turn only p line)
unfolding turn
turn-IsGood only p line w = elim (Bool-cases (is_empty (strip (strip_comment line)))) [
  | inl b ↦ rw b (tt, w)
  | inr b ↦
      rw b (
        content_line-IsGood only p (strip_comment line) (pending p.section p.setting p.value) w
          refl)
]

final-IsAllowed :
    (only : List Text) (p : Parser) (o : Option Entry)
    → IsWf only p
    → pending p.section p.setting p.value ≡ o
    → AllYielded (IsAllowed only) (final o)
final-IsAllowed only p none w h = tt
final-IsAllowed only p (some e) w h = (w.held e h, tt)

proceed-IsAllowed :
    (only : List Text) (rest : Parser → Entries) (t : Turn)
    → ((p : Parser) → IsWf only p → AllYielded (IsAllowed only) (rest p))
    → IsGood only t
    → AllYielded (IsAllowed only) (proceed rest t)
proceed-IsAllowed only rest (next out p) h g = AllYielded-All (IsAllowed only) out _ g.0 (h p g.1)
proceed-IsAllowed only rest (invalid out e) h g = AllYielded-All (IsAllowed only) out _ g tt

parse_lines-IsAllowed :
    (only lines : List Text) (p : Parser)
    → IsWf only p
    → AllYielded (IsAllowed only) (parse_lines only lines p)
unfolding parse_lines
parse_lines-IsAllowed only [] p w = final-IsAllowed only p _ w refl
parse_lines-IsAllowed only (line ∷ lines) p w =
    proceed-IsAllowed only (parse_lines only lines) (turn only p line)
      (parse_lines-IsAllowed only lines) (turn-IsGood only p line w)

-- Whatever the file holds and also where it ends in an error, all that `parse_ini` yields is the end
-- of a section that has a name, or a setting that has a name in a section that has one and that the
-- filter lets through.
pub parse_ini-IsAllowed :
    (text : Text) (only : List Text) → AllYielded (IsAllowed only) (parse_ini text only)
unfolding parse_ini
parse_ini-IsAllowed text only =
    parse_lines-IsAllowed only (splitlines (dedent text)) start
      (IsQuiet-IsWf only start (cleared-IsQuiet start))
