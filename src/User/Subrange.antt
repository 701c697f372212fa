-- ===== src/User/Subrange.antt =====
-- `read_subrange`: the range of the current user in /etc/subuid or /etc/subgid.
use mkosi.Base.{
  ℕ, Bool, true, false, ◌||◌, ◌≡◌, refl, sym, ap, ◌∙◌, ◌++◌, All, Option, none, some, List, [], ◌∷◌,
  ltb, inl, inr, Bool-cases, Option-cases, if◌then◌else◌,
}
use mkosi.Base.Text.{Text, lit, text_eq}
use mkosi.Base.Split.{split, splitlines}
use mkosi.Base.Result.{Result, ok, failed, die, value_error}
use mkosi.User.{subrange}
use mkosi.Config.Value.Number.{ℤ, pos, negsuc, int}

pub record Line : Type 0 where
  pub name : Text
  pub start : Text
  pub count : Text

-- `name, start, count = line.split(":")`, or a `ValueError`
abbrev three : List Text → Option Line
three (name ∷ start ∷ count ∷ []) = some (record { name = name; start = start; count = count })
three _ = none

unfoldable pub subrange_line : Text → Option Line
unfolding split
subrange_line line = three (split b':' line)

-- `name == uid or name == user`
unfoldable pub is_own : Text → Option Text → Text → Bool
unfolding text_eq
is_own uid none name = text_eq name uid
is_own uid (some user) name = text_eq name uid || text_eq name user

-- The first line of the user; a line before it that has not three parts is an error.
unfoldable pub find_line : Text → Option Text → List Text → Result Line
unfolding subrange_line is_own
find_line uid user [] = failed (die (lit "No mapping found"))
find_line uid user (line ∷ lines) = elim (subrange_line line) [
  | none ↦ failed value_error
  | some l ↦ if is_own uid user l.name then ok l else find_line uid user lines
]

-- `int(count) < SUBRANGE`, and `int(start)`
abbrev start_of : Option ℤ → Result ℤ
start_of none = failed value_error
start_of (some n) = ok n

abbrev is_too_short : ℤ → Bool
is_too_short (negsuc n) = true
is_too_short (pos n) = ltb n subrange

abbrev range_start : Option ℤ → Option ℤ → Result ℤ
range_start none start = failed value_error
range_start (some count) start =
    if is_too_short count
    then failed (die (lit "subuid/subgid range length must be at least 65536"))
    else start_of start

unfoldable pub read_subrange : Text → Option Text → Text → Result ℤ
unfolding find_line int splitlines
read_subrange uid user text = elim (find_line uid user (splitlines text)) [
  | failed e ↦ failed e
  | ok l ↦ range_start (int l.count) (int l.start)
]

-- A line of somebody else.
abbrev pub IsOther : Text → Option Text → Text → Type 0
IsOther uid user text =
    (l : Line) × (subrange_line text ≡ some l) × (is_own uid user l.name ≡ false)

-- The first line of the user: all lines before it are of others.
pub record IsFirst (uid : Text) (user : Option Text) (lines : List Text) (line : Line)
    : Type 0 where
  pub before : List Text
  pub text : Text
  pub behind : List Text
  pub place : lines ≡ before ++ (text ∷ behind)
  pub others : All (IsOther uid user) before
  pub reads : subrange_line text ≡ some line
  pub own : is_own uid user line.name ≡ true

pub record IsRange (uid : Text) (user : Option Text) (lines : List Text) (n : ℤ) : Type 0 where
  pub line : Line
  pub first : IsFirst uid user lines line
  pub count : ℕ
  pub reads_count : int line.count ≡ some (pos count)
  pub reads_start : int line.start ≡ some n
  pub enough : ltb count subrange ≡ false

find_line-IsFirst :
    (uid : Text) (user : Option Text) (lines : List Text) {l : Line}
    → find_line uid user lines ≡ ok l
    → IsFirst uid user lines l
unfolding find_line
find_line-IsFirst uid user [] h = absurd (cc h)
find_line-IsFirst uid user (line ∷ lines) {l} h = elim (Option-cases (subrange_line line)) [
  | inl n ↦ absurd (cc (rw (n, find_line) at h))
  | inr (m, p) ↦ elim (Bool-cases (is_own uid user m.name)) [
    | inl o ↦
        let q = value (rw (p, o, find_line) at h) in
        record {
          before = [];
          text = line;
          behind = lines;
          place = refl;
          others = tt;
          reads = p ∙ ap (λ r. some r) q;
          own = rw (sym q) o;
        }
    | inr o ↦
        let f = find_line-IsFirst uid user lines (rw (p, o, find_line) at h) in
        record {
          before = line ∷ f.before;
          text = f.text;
          behind = f.behind;
          place = ap (λ r. line ∷ r) f.place;
          others = ((m, p, o), f.others);
          reads = f.reads;
          own = f.own;
        }
  ]
]
  where
    value : {a b : Line} → ok a ≡ ok b → a ≡ b
    value q = cc q

range_start_ok :
    (count start : Option ℤ) (n : ℤ)
    → range_start count start ≡ ok n
    → (c : ℕ) × (count ≡ some (pos c)) × (start ≡ some n) × (ltb c subrange ≡ false)
range_start_ok none start n h = cc h
range_start_ok (some (negsuc k)) start n h = cc h
range_start_ok (some (pos c)) none n h = elim (Bool-cases (ltb c subrange)) [
  | inl t ↦ absurd (cc (rw t at h))
  | inr t ↦ absurd (cc (rw t at h))
]
range_start_ok (some (pos c)) (some m) n h = elim (Bool-cases (ltb c subrange)) [
  | inl t ↦ absurd (cc (rw t at h))
  | inr t ↦ (c, refl, cc (rw t at h), t)
]

-- A start that is returned is that of the first line of the user, before which there are only lines of
-- others with three parts, and the count of this line is at least 65536.
pub read_subrange-IsRange :
    (uid : Text) (user : Option Text) (text : Text) (n : ℤ)
    → read_subrange uid user text ≡ ok n
    → IsRange uid user (splitlines text) n
unfolding read_subrange
read_subrange-IsRange uid user text n h = from (find_line uid user (splitlines text)) (λ l p. p) h
  where
    from :
        (r : Result Line)
        → ((l : Line) → r ≡ ok l → find_line uid user (splitlines text) ≡ ok l)
        → (elim r [ failed e ↦ failed e | ok l ↦ range_start (int l.count) (int l.start) ]) ≡ ok n
        → IsRange uid user (splitlines text) n
    from (failed e) f p = cc p
    from (ok l) f p =
        let r = range_start_ok (int l.count) (int l.start) n p in
        record {
          line = l;
          first = find_line-IsFirst uid user (splitlines text) (f l refl);
          count = r.0;
          reads_count = r.1;
          reads_start = r.2;
          enough = r.3;
        }
