-- ===== src/Ini/Lines.antt =====
-- What one rendered line does to the parser.
use mkosi.Base.{
  ℕ, ◌≡◌, refl, ap, ◌∙◌, Bool, true, false, not, Option, none, some, List, [], ◌∷◌, ◌++◌, all,
  all-append, ◌==◌, ==_refl, arith,
}
use mkosi.Base.Text.{Text}
use mkosi.Base.Whitespace.{is_space, rstrip}
use mkosi.Base.Whitespace.Laws.{
  IsTrimmed, strip-trimmed, rstrip-append, rstrip-cons, rstrip-one, strip-space,
}
use mkosi.Base.Split.{partition, cut}
use mkosi.Ini.{
  Entry, Parser, next, pending, turn, strip_comment, content_line, plain_line, section_line,
  setting_line, section_end, last_is, drop_last, is_skipped,
}
use mkosi.Ini.Render.{IsPlain, IsKey, IsContinuation, is_comment}

cut-clean : (d : ℕ) (t : Text) → all (λ c. not (c == d)) t ≡ true → cut d t ≡ t
unfolding cut
cut-clean d [] h = refl
cut-clean d (c ∷ t) h = ground (arith, cut-clean d t)

all-weaken :
    (p q : ℕ → Bool) (t : Text)
    → ((c : ℕ) → p c ≡ true → q c ≡ true)
    → all p t ≡ true
    → all q t ≡ true
all-weaken p q [] w h = refl
all-weaken p q (c ∷ t) w h = ground (arith, w c, all-weaken p q t w)

strip_comment-clean : (t : Text) → all (λ c. not (is_comment c)) t ≡ true → strip_comment t ≡ t
unfolding strip_comment
strip_comment-clean t h =
    rw (cut-clean b'#' t (all-weaken _ (λ c. not (c == b'#')) t (λ c e. ground arith) h))
      (cut-clean b';' t (all-weaken _ (λ c. not (c == b';')) t (λ c e. ground arith) h))

pub partition-clean :
    (d : ℕ) (s t : Text)
    → all (λ c. not (c == d)) s ≡ true
    → partition d (s ++ (d ∷ t)) ≡ record { before = s; behind = some t }
unfolding partition
partition-clean d [] t h = rw (==_refl d)
partition-clean d (c ∷ s) t h = ground (arith, partition-clean d s t)

last_is-append : (d : ℕ) (s : Text) → last_is d (s ++ (d ∷ [])) ≡ true
last_is-append d [] = ==_refl d
last_is-append d (c ∷ []) = ==_refl d
last_is-append d (c ∷ e ∷ s) = last_is-append d (e ∷ s)

drop_last-append : (d : ℕ) (s : Text) → drop_last (s ++ (d ∷ [])) ≡ s
drop_last-append d [] = refl
drop_last-append d (c ∷ []) = refl
drop_last-append d (c ∷ e ∷ s) = ap (λ t. c ∷ t) (drop_last-append d (e ∷ s))

abbrev pub flushed : Option Entry → List Entry
flushed none = []
flushed (some e) = e ∷ []

abbrev pub cleared : Option Entry → Parser → Parser
cleared none p = p
cleared (some e) p = record p { setting = none; value = none }

-- A line with text, in which no comment starts.
turn_plain :
    (only : List Text) (p : Parser) (c : ℕ) (line : Text)
    → IsPlain (c ∷ line)
    → turn only p (c ∷ line) ≡ content_line only p (c ∷ line) (pending p.section p.setting p.value)
unfolding turn
turn_plain only p c line h =
    rw (strip_comment-clean (c ∷ line) h.no_comment, strip-trimmed (c ∷ line) h.trimmed)

-- An unindented line ends the pending value.
content_line_plain :
    (only : List Text) (p : Parser) (c : ℕ) (line : Text) (e : Option Entry)
    → IsPlain (c ∷ line)
    → content_line only p (c ∷ line) e ≡ plain_line only (flushed e) (cleared e p) (c ∷ line)
unfolding content_line
content_line_plain only p c line none h = rw (strip-trimmed (c ∷ line) h.trimmed)
content_line_plain only p c line (some e) h =
    rw (h.trimmed.front, strip-trimmed (c ∷ line) h.trimmed)

plain_turn :
    (only : List Text) (p : Parser) (c : ℕ) (line : Text)
    → IsPlain (c ∷ line)
    → let e = pending p.section p.setting p.value in
      turn only p (c ∷ line) ≡ plain_line only (flushed e) (cleared e p) (c ∷ line)
plain_turn only p c line h = turn_plain only p c line h ∙ content_line_plain only p c line _ h

header-IsPlain : (name : Text) → IsPlain name → IsPlain (b'[' ∷ (name ++ (b']' ∷ [])))
unfolding is_space
header-IsPlain name h = record {
  trimmed = record {
    front = refl;
    back = rstrip-append (b'[' ∷ name) b']' [] (rstrip-one b']' refl);
  };
  no_comment = all-append (λ c. not (is_comment c)) name (b']' ∷ []) h.no_comment refl;
}

section_line_plain :
    (out : List Entry) (p : Parser) (name : Text)
    → IsContinuation name
    → section_line out p (b'[' ∷ (name ++ (b']' ∷ []))) (name ++ (b']' ∷ []))
      ≡ next (out ++ section_end p.section) (record p { section = some name })
unfolding section_line
section_line_plain out p name h = rw (
  last_is-append b']' (b'[' ∷ name),
  drop_last-append b']' name,
  strip-trimmed name h.plain.trimmed,
  h.nonempty,
)

-- `[name]` ends the pending value and the section before, and starts the section `name`.
pub turn_section :
    (only : List Text) (p : Parser) (name : Text)
    → IsContinuation name
    → let e = pending p.section p.setting p.value in
      turn only p (b'[' ∷ (name ++ (b']' ∷ [])))
      ≡ next
          (flushed e ++ section_end (cleared e p).section)
          (record (cleared e p) { section = some name })
turn_section only p name h =
    plain_turn only p b'[' (name ++ (b']' ∷ [])) (header-IsPlain name h.plain)
    ∙ (unfold plain_line in section_line_plain _ _ name h)

key-line-IsPlain :
    (c : ℕ) (key v : Text) → IsKey (c ∷ key) → IsPlain v → IsPlain ((c ∷ key) ++ (b'=' ∷ v))
key-line-IsPlain c key v h k = record {
  trimmed = record { front = h.plain.trimmed.front; back = back v k.trimmed.back };
  no_comment =
      all-append (λ c. not (is_comment c)) (c ∷ key) (b'=' ∷ v) h.plain.no_comment k.no_comment;
}
  where
    back : (v : Text) → rstrip v ≡ v → rstrip ((c ∷ key) ++ (b'=' ∷ v)) ≡ (c ∷ key) ++ (b'=' ∷ v)
    back [] e = rstrip-append (c ∷ key) b'=' [] (rstrip-one b'=' (unfold is_space in refl))
    back (d ∷ v) e = rstrip-append (c ∷ key) b'=' (d ∷ v) (rstrip-cons b'=' d (d ∷ v) v e)

setting_line_plain :
    (out : List Entry) (p : Parser) (c : ℕ) (key v : Text) (n : ℕ) (name : Text)
    → IsKey (c ∷ key)
    → IsPlain v
    → p.section ≡ some (n ∷ name)
    → setting_line [] out p ((c ∷ key) ++ (b'=' ∷ v))
      ≡ next out (record p { setting = some (c ∷ key); value = some v })
unfolding setting_line is_skipped
setting_line_plain out p c key v n name h k e = rw (
  partition-clean b'=' (c ∷ key) v h.no_delimiter,
  strip-trimmed (c ∷ key) h.plain.trimmed,
  strip-trimmed v k.trimmed,
  e,
)

plain_line_setting :
    (out : List Entry) (p : Parser) (c : ℕ) (line : Text)
    → (c == b'[') ≡ false
    → plain_line [] out p (c ∷ line) ≡ setting_line [] out p (c ∷ line)
unfolding plain_line
plain_line_setting out p c line h = rw h

section-cleared :
    (e : Option Entry) (p : Parser) (s : Text) → p.section ≡ some s → (cleared e p).section ≡ some s
section-cleared none p s h = h
section-cleared (some e) p s h = h

-- `key=v` ends the pending value and starts the setting `key`.
pub turn_assignment :
    (p : Parser) (c : ℕ) (key v : Text) (n : ℕ) (name : Text)
    → IsKey (c ∷ key)
    → IsPlain v
    → p.section ≡ some (n ∷ name)
    → let e = pending p.section p.setting p.value in
      turn [] p ((c ∷ key) ++ (b'=' ∷ v))
      ≡ next (flushed e) (record (cleared e p) { setting = some (c ∷ key); value = some v })
turn_assignment p c key v n name h k s =
    plain_turn [] p c (key ++ (b'=' ∷ v)) (key-line-IsPlain c key v h k)
    ∙ plain_line_setting _ _ c (key ++ (b'=' ∷ v)) h.no_bracket
    ∙ setting_line_plain _ _ c key v n name h k (section-cleared _ p (n ∷ name) s)

content_line_more :
    (only : List Text) (p : Parser) (e : Entry) (line : Text)
    → IsTrimmed line
    → content_line only p (32 ∷ line) (some e)
      ≡ next [] (record p { value = some (e.value ++ (10 ∷ line)) })
unfolding content_line is_space
content_line_more only p e line h = rw (strip-space line h)

-- An indented line goes on with the pending value.
pub turn_more :
    (only : List Text) (p : Parser) (e : Entry) (line : Text)
    → pending p.section p.setting p.value ≡ some e
    → IsContinuation line
    → turn only p (32 ∷ line) ≡ next [] (record p { value = some (e.value ++ (10 ∷ line)) })
unfolding turn
turn_more only p e [] w h = absurd (ground (arith, h.nonempty))
turn_more only p e (d ∷ line) w h =
    rw
      (
        strip_comment-clean (32 ∷ d ∷ line) h.plain.no_comment,
        strip-space (d ∷ line) h.plain.trimmed,
        w,
      )
      (content_line_more only p e (d ∷ line) h.plain.trimmed)
