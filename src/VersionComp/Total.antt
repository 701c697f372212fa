-- ===== src/VersionComp/Total.antt =====
-- Every round of `compare_versions` that does not return shortens the two strings together, so the
-- loop ends within its fuel.
use mkosi.Base.{
  ℕ, zero, suc, ◌+◌, ◌≤◌, ◌<◌, ◌≡◌, refl, inl, inr, Bool, true, false, ◌||◌, Option, some, [], ◌∷◌,
  arith, ◌==◌, length, drop_while, Bool-cases,
}
use mkosi.Base.Text.{Text, text_eq, remove_prefix-take_while}
use mkosi.VersionComp.{
  Order, Flow, stop, go, is_digit, is_letter, is_valid, ◌>>=◌, separator, ended, letters, digits,
  round, compare_loop, compare_versions, resume, from_dot, from_caret, from_dash, from_end,
  from_tilde, rstrip_invalid_version_chars,
}

-- The strings that a stretch leaves are at most `n` long together.
abbrev AtMost : ℕ → Flow → Type 0
AtMost n (stop r) = Unit
AtMost n (go a b) = length a + length b ≤ n

length-drop_while : (p : ℕ → Bool) (s : Text) → length (drop_while p s) ≤ length s
length-drop_while p [] = omega arith
length-drop_while p (c ∷ s) = ground (arith, length-drop_while p s)

length-rstrip : (s : Text) → length (rstrip_invalid_version_chars s) ≤ length s
unfolding rstrip_invalid_version_chars
length-rstrip [] = omega arith
length-rstrip (c ∷ s) = ground (arith, length-rstrip s)

module _ (a b : Text) where
  letters-AtMost : AtMost (length a + length b) (letters a b)
  unfolding letters
  letters-AtMost =
      rw (remove_prefix-take_while is_letter a, remove_prefix-take_while is_letter b)
        (ground (arith, length-drop_while is_letter a, length-drop_while is_letter b))

  digits-AtMost : AtMost (length a + length b) (digits a b)
  unfolding digits
  digits-AtMost =
      rw (remove_prefix-take_while is_digit a, remove_prefix-take_while is_digit b)
        (ground (arith, length-drop_while is_digit a, length-drop_while is_digit b, letters-AtMost))

-- The string starts with a digit or a letter.
abbrev is_alnum : Text → Bool
is_alnum [] = false
is_alnum (c ∷ s) = is_digit c || is_letter c

abbrev Below : ℕ → Flow → Type 0
Below n (stop r) = Unit
Below n (go a b) = length a + length b < n

drop_while-below :
    (p : ℕ → Bool) (c : ℕ) (s : Text) → p c ≡ true → length (drop_while p (c ∷ s)) < length (c ∷ s)
drop_while-below p c s h = rw h (omega (arith, length-drop_while p s))

letters-Below :
    (c d : ℕ) (s t : Text)
    → is_letter c ≡ true
    → is_letter d ≡ true
    → Below (length (c ∷ s) + length (d ∷ t)) (letters (c ∷ s) (d ∷ t))
unfolding letters
letters-Below c d s t h k =
    rw (remove_prefix-take_while is_letter (c ∷ s), remove_prefix-take_while is_letter (d ∷ t))
      (ground (arith, drop_while-below is_letter c s h, drop_while-below is_letter d t k))

digits-Below :
    (c d : ℕ) (s t : Text)
    → is_alnum (c ∷ s) ≡ true
    → is_alnum (d ∷ t) ≡ true
    → Below (length (c ∷ s) + length (d ∷ t)) (digits (c ∷ s) (d ∷ t))
unfolding digits text_eq
digits-Below c d s t h k =
    rw (remove_prefix-take_while is_digit (c ∷ s), remove_prefix-take_while is_digit (d ∷ t))
      (ground (
        arith,
        drop_while-below is_digit c s,
        drop_while-below is_digit d t,
        letters-Below c d s t,
        length-drop_while is_digit (c ∷ s),
        length-drop_while is_digit (d ∷ t),
      ))

-- What follows in the body never lengthens the strings.
abbrev NonIncreasing : (Text → Text → Flow) → Type 0
NonIncreasing f = (a b : Text) → AtMost (length a + length b) (f a b)

AtMost-le : {m n : ℕ} (x : Flow) → m ≤ n → AtMost m x → AtMost n x
AtMost-le (stop r) l h = tt
AtMost-le (go a b) l h = omega arith

Below-le : {m n : ℕ} (x : Flow) → m < n → AtMost m x → Below n x
Below-le (stop r) l h = tt
Below-le (go a b) l h = omega arith

Below-weaken : {m n : ℕ} (x : Flow) → m ≤ n → Below m x → Below n x
Below-weaken (stop r) l h = tt
Below-weaken (go a b) l h = omega arith

separator-AtMost :
    (k : ℕ) (f : Text → Text → Flow)
    → NonIncreasing f
    → NonIncreasing (λ a b. separator k a b >>= f)
unfolding separator
separator-AtMost k f h [] b = ground (arith, h [] b)
separator-AtMost k f h (c ∷ a) [] = ground (arith, h (c ∷ a) [])
separator-AtMost k f h (c ∷ a) (d ∷ b) = elim (Bool-cases (c == k)) [
  | inl p ↦ elim (Bool-cases (d == k)) [
    | inl q ↦ rw (p, q) (AtMost-le (f a b) (omega arith) (h a b))
    | inr q ↦ rw (p, q) tt
  ]
  | inr p ↦ elim (Bool-cases (d == k)) [
    | inl q ↦ rw (p, q) tt
    | inr q ↦ rw (p, q) (h (c ∷ a) (d ∷ b))
  ]
]

-- A stretch that starts with a separator shortens, if what follows does where neither string
-- starts with that separator.
separator-Below :
    (k : ℕ) (f : Text → Text → Flow) (c d : ℕ) (a b : Text)
    → NonIncreasing f
    → ((c == k) ≡ false
        → (d == k) ≡ false
        → Below (length (c ∷ a) + length (d ∷ b)) (f (c ∷ a) (d ∷ b)))
    → Below (length (c ∷ a) + length (d ∷ b)) (separator k (c ∷ a) (d ∷ b) >>= f)
unfolding separator
separator-Below k f c d a b h g = elim (Bool-cases (c == k)) [
  | inl p ↦ elim (Bool-cases (d == k)) [
    | inl q ↦ rw (p, q) (Below-le (f a b) (omega arith) (h a b))
    | inr q ↦ rw (p, q) tt
  ]
  | inr p ↦ elim (Bool-cases (d == k)) [ inl q ↦ rw (p, q) tt | inr q ↦ rw (p, q) (g p q) ]
]

ended-AtMost : (f : Text → Text → Flow) → NonIncreasing f → NonIncreasing (λ a b. ended a b >>= f)
unfolding ended
ended-AtMost f h [] [] = tt
ended-AtMost f h [] (d ∷ b) = tt
ended-AtMost f h (c ∷ a) [] = tt
ended-AtMost f h (c ∷ a) (d ∷ b) = h (c ∷ a) (d ∷ b)

from_dot-AtMost : NonIncreasing from_dot
from_dot-AtMost = separator-AtMost b'.' digits digits-AtMost

from_caret-AtMost : NonIncreasing from_caret
from_caret-AtMost = separator-AtMost b'^' from_dot from_dot-AtMost

from_dash-AtMost : NonIncreasing from_dash
from_dash-AtMost = separator-AtMost b'-' from_caret from_caret-AtMost

from_end-AtMost : NonIncreasing from_end
from_end-AtMost = ended-AtMost from_dash from_dash-AtMost

-- A valid character that is no separator is a digit or a letter.
is_valid-is_alnum :
    (c : ℕ) (s : Text)
    → is_valid c ≡ true
    → (c == b'~') ≡ false
    → (c == b'-') ≡ false
    → (c == b'^') ≡ false
    → (c == b'.') ≡ false
    → is_alnum (c ∷ s) ≡ true
unfolding is_valid
is_valid-is_alnum c s v h1 h2 h3 h4 = ground arith

from_tilde-Below :
    (c d : ℕ) (a b : Text)
    → is_valid c ≡ true
    → is_valid d ≡ true
    → Below (length (c ∷ a) + length (d ∷ b)) (from_tilde (c ∷ a) (d ∷ b))
unfolding ended
from_tilde-Below c d a b v w = separator-Below b'~' from_end c d a b from_end-AtMost λ t1 t2.
    separator-Below b'-' from_caret c d a b from_caret-AtMost λ m1 m2.
      separator-Below b'^' from_dot c d a b from_dot-AtMost λ k1 k2.
        separator-Below b'.' digits c d a b digits-AtMost λ p1 p2.
          digits-Below c d a b (is_valid-is_alnum c a v t1 m1 k1 p1)
            (is_valid-is_alnum d b w t2 m2 k2 p2)

-- What `rstrip_invalid_version_chars` returns is empty, or starts with a valid character.
abbrev IsStripped : Text → Type 0
IsStripped [] = Unit
IsStripped (c ∷ s) = is_valid c ≡ true

rstrip-IsStripped : (s : Text) → IsStripped (rstrip_invalid_version_chars s)
unfolding rstrip_invalid_version_chars
rstrip-IsStripped [] = tt
rstrip-IsStripped (c ∷ s) = elim (Bool-cases (is_valid c)) [
  | inl h ↦ rw h h
  | inr h ↦ rw h (rstrip-IsStripped s)
]

from_tilde-shrinks :
    (a b : Text) → IsStripped a → IsStripped b → Below (length a + length b) (from_tilde a b)
unfolding separator ended
from_tilde-shrinks [] [] h k = tt
from_tilde-shrinks [] (d ∷ b) h k = ground arith
from_tilde-shrinks (c ∷ a) [] h k = ground arith
from_tilde-shrinks (c ∷ a) (d ∷ b) h k = from_tilde-Below c d a b h k

round-Below : (a b : Text) → Below (length a + length b) (round a b)
unfolding round
round-Below a b =
    Below-weaken _ (omega (arith, length-rstrip a, length-rstrip b))
      (from_tilde-shrinks _ _ (rstrip-IsStripped a) (rstrip-IsStripped b))

resume_total :
    (n : ℕ) (next : Text → Text → Option Order) (x : Flow)
    → Below n x
    → ((a b : Text) → length a + length b < n → (r : Order) × (next a b ≡ some r))
    → (r : Order) × (resume next x ≡ some r)
resume_total n next (stop r) s h = (r, refl)
resume_total n next (go a b) s h = h a b s

-- With more fuel than characters the loop returns.
pub compare_loop_total :
    (fuel : ℕ) (a b : Text)
    → length a + length b < fuel
    → (r : Order) × (compare_loop fuel a b ≡ some r)
unfolding compare_loop
compare_loop_total zero a b h = absurd (omega arith)
compare_loop_total (suc fuel) a b h =
    resume_total (length a + length b) (compare_loop fuel) (round a b) (round-Below a b)
      (λ v w l. compare_loop_total fuel v w (omega arith))

-- `compare_versions` returns for every two strings: its fuel is enough.
pub compare_versions_total : (a b : Text) → (r : Order) × (compare_versions a b ≡ some r)
unfolding compare_versions
compare_versions_total a b = compare_loop_total (length a + length b + 1) a b (omega arith)
