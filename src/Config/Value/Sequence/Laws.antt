-- ===== src/Config/Value/Sequence/Laws.antt =====
-- Values that are given in one line or in several.
use mkosi.Base.{
  ℕ, ◌≡◌, refl, ap, sym, ◌∙◌, Bool, true, false, not, ◌&&◌, ◌||◌, Option, some, List, [], ◌∷◌, ◌++◌,
  all, All, All-append, ◌==◌, ==_refl, if◌then◌else◌, arith,
}
use mathlib.Core.List.{append_assoc}
use mkosi.Base.Text.{Text}
use mkosi.Base.Split.{split, join}
use mkosi.Base.Result.{Result, ok, failed, ◌>>=◌}
use mkosi.Ini.{is_empty}
use mkosi.Config.Value.Sequence.{
  Options, parse_each, split_values, config_make_list_parser, is_reset, old_or,
}

-- An item that a list value can hold: not empty, and without the delimiter or a newline.
pub record IsItem (d : ℕ) (t : Text) : Type 0 where
  pub nonempty : is_empty t ≡ false
  pub whole : all (λ c. not (c == d || c == 10)) t ≡ true

split-item :
    (d : ℕ) (s : Text) → all (λ c. not (c == d || c == 10)) s ≡ true → split_values d s ≡ s ∷ []
unfolding split_values split
split-item d [] h = refl
split-item d (c ∷ s) h = ground (arith, split-item d s)

split-items :
    (d : ℕ) (s t : Text)
    → all (λ c. not (c == d || c == 10)) s ≡ true
    → split_values d (s ++ (d ∷ t)) ≡ s ∷ split_values d t
unfolding split_values split
split-items d [] t h = rw (==_refl d)
split-items d (c ∷ s) t h = ground (arith, split-items d s t)

-- Joined by the delimiter, items are split again.
split_values-join :
    (d : ℕ) (t : Text) (ts : List Text)
    → All (IsItem d) (t ∷ ts)
    → split_values d (join (d ∷ []) (t ∷ ts)) ≡ t ∷ ts
unfolding join
split_values-join d t [] h = split-item d t h.0.whole
split_values-join d t (u ∷ ts) h =
    split-items d t _ h.0.whole ∙ ap (λ r. t ∷ r) (split_values-join d u ts h.1)

not-is_reset :
    (d : ℕ) (t : Text) (ts : List Text) → All (IsItem d) (t ∷ ts) → is_reset (t ∷ ts) ≡ false
not-is_reset d [] [] h = absurd (ground (arith, h.0.nonempty))
not-is_reset d [] (u ∷ ts) h = refl
not-is_reset d (c ∷ t) ts h = refl

module _ {ℓ} {A : Type ℓ} where
  extend : List A → Result (List A) → Result (List A)
  extend old r = r >>= λ new. ok (old ++ new)

  extend_nil : (r : Result (List A)) → extend [] r ≡ r
  unfolding extend
  extend_nil (failed e) = refl
  extend_nil (ok xs) = refl

  extend_append : (a b : List A) (r : Result (List A)) → extend a (extend b r) ≡ extend (a ++ b) r
  unfolding extend
  extend_append a b (failed e) = refl
  extend_append a b (ok xs) = ap ok (sym (append_assoc a b xs))

  -- One more result in front of the others.
  push : Result A → Result (List A) → Result (List A)
  push r rest = r >>= λ a. rest >>= λ xs. ok (a ∷ xs)

  push-bind :
      (r : Result A) (m : Result (List A)) (n : Result (List A))
      → push r (m >>= λ xs. extend xs n) ≡ (push r m >>= λ xs. extend xs n)
  unfolding push extend
  push-bind (failed e) m n = refl
  push-bind (ok a) (failed e) n = refl
  push-bind (ok a) (ok xs) (failed e) = refl
  push-bind (ok a) (ok xs) (ok ys) = refl

  parse_each-append :
      (parse : Text → Result A) (xs ys : List Text)
      → parse_each parse (xs ++ ys) ≡ (parse_each parse xs >>= λ a. extend a (parse_each parse ys))
  unfolding parse_each push
  parse_each-append parse [] ys = sym (extend_nil (parse_each parse ys))
  parse_each-append parse ([] ∷ xs) ys = parse_each-append parse xs ys
  parse_each-append parse ((c ∷ v) ∷ xs) ys =
      ap (push (parse (c ∷ v))) (parse_each-append parse xs ys)
      ∙ push-bind (parse (c ∷ v)) (parse_each parse xs) (parse_each parse ys)

  module _ (shlex : ℕ → Text → Result (List Text)) (d : ℕ) (reset : Bool)
      (parse : Text → Result A) where
    abbrev pub plain : Options
    plain = record { delimiter = d; unescape = false; reset = reset }

    abbrev pub read : List Text → Option (List A) → Result (List A)
    read items = config_make_list_parser shlex plain parse (some (join (d ∷ []) items))

    -- The parser appends what its items are parsed as.
    read_items :
        (t : Text) (ts : List Text) (old : Option (List A))
        → All (IsItem d) (t ∷ ts)
        → read (t ∷ ts) old ≡ extend (old_or old) (parse_each parse (t ∷ ts))
    unfolding config_make_list_parser extend
    read_items t ts old h = rw (split_values-join d t ts h, not-is_reset d t ts h) (cases reset)
      where
        cases :
            (b : Bool)
            → (if b && false
                then ok []
                else parse_each parse (t ∷ ts) >>= λ new. ok (old_or old ++ new))
              ≡ (parse_each parse (t ∷ ts) >>= λ new. ok (old_or old ++ new))
        cases true = refl
        cases false = refl

    extend-bind :
        (old : List A) (m n : Result (List A))
        → (extend old m >>= λ xs. extend xs n) ≡ extend old (m >>= λ xs. extend xs n)
    unfolding extend
    extend-bind old (failed e) n = refl
    extend-bind old (ok xs) (failed e) = refl
    extend-bind old (ok xs) (ok ys) = ap ok (append_assoc old xs ys)

    then_read :
        (m : Result (List A)) (u : Text) (us : List Text)
        → All (IsItem d) (u ∷ us)
        → (m >>= λ xs. read (u ∷ us) (some xs))
          ≡ (m >>= λ xs. extend xs (parse_each parse (u ∷ us)))
    then_read (failed e) u us h = refl
    then_read (ok xs) u us h = read_items u us (some xs) h

    -- A list given in two lines, each with its items joined by the delimiter, is the list given in
    -- one, after what the setting held before, and an item that is refused is refused in both.
    pub list_parser-append :
        (t : Text) (ts : List Text) (u : Text) (us : List Text) (old : Option (List A))
        → All (IsItem d) (t ∷ ts)
        → All (IsItem d) (u ∷ us)
        → (read (t ∷ ts) old >>= λ xs. read (u ∷ us) (some xs)) ≡ read (t ∷ ts ++ (u ∷ us)) old
    list_parser-append t ts u us old h k =
        then_read (read (t ∷ ts) old) u us k
        ∙ ap (λ m. m >>= λ xs. extend xs (parse_each parse (u ∷ us))) (read_items t ts old h)
        ∙ extend-bind (old_or old) (parse_each parse (t ∷ ts)) (parse_each parse (u ∷ us))
        ∙ ap (extend (old_or old)) (sym (parse_each-append parse (t ∷ ts) (u ∷ us)))
        ∙ sym (read_items t (ts ++ (u ∷ us)) old (All-append (IsItem d) (t ∷ ts) (u ∷ us) h k))
