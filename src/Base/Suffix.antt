-- ===== src/Base/Suffix.antt =====
-- `str.endswith`, and the laws of suffixes.
use mkosi.Base.{
  ℕ, ◌<◌, ◌≡◌, Bool, ◌||◌, refl, ap, true, false, [], ◌∷◌, ◌++◌, length, length-append, arith,
}
use mkosi.Base.Text.{Text, text_eq, text_eq_refl, remove_suffix}

-- s.endswith(suffix)
unfoldable pub ends_with : Text → Text → Bool
unfolding text_eq
ends_with [] suffix = text_eq [] suffix
ends_with (c ∷ s) suffix = text_eq (c ∷ s) suffix || ends_with s suffix

text_eq-longer : (s t : Text) → length t < length s → text_eq s t ≡ false
unfolding text_eq
text_eq-longer [] t h = ground arith
text_eq-longer (c ∷ s) [] h = refl
text_eq-longer (c ∷ s) (d ∷ t) h = ground (arith, text_eq-longer s t)

longer : (c : ℕ) (s t : Text) → text_eq (c ∷ s ++ t) t ≡ false
longer c s t = text_eq-longer (c ∷ s ++ t) t (let q = length-append (c ∷ s) t in omega arith)

ends_with_refl : (t : Text) → ends_with t t ≡ true
unfolding ends_with
ends_with_refl [] = rw text_eq_refl refl
ends_with_refl (d ∷ t) = rw text_eq_refl refl

pub ends_with-append : (s t : Text) → ends_with (s ++ t) t ≡ true
unfolding ends_with
ends_with-append [] t = ends_with_refl t
ends_with-append (c ∷ s) t = rw longer (ends_with-append s t)

pub ends_with-behind : (p s t : Text) → ends_with s t ≡ true → ends_with (p ++ s) t ≡ true
unfolding ends_with
ends_with-behind [] s t h = h
ends_with-behind (c ∷ p) s t h = ground (arith, ends_with-behind p s t)

pub remove_suffix-append : (s : Text) (d : ℕ) (t : Text) → remove_suffix (s ++ d ∷ t) (d ∷ t) ≡ s
unfolding remove_suffix
remove_suffix-append [] d t = rw text_eq_refl refl
remove_suffix-append (c ∷ s) d t = rw longer (ap (λ x. c ∷ x) (remove_suffix-append s d t))

-- The last character of a text, or 0.
abbrev pub last_char : Text → ℕ
last_char [] = 0
last_char (c ∷ []) = c
last_char (c ∷ d ∷ s) = last_char (d ∷ s)

pub last_char-append : (s : Text) (d : ℕ) (t : Text) → last_char (s ++ d ∷ t) ≡ last_char (d ∷ t)
last_char-append [] d t = refl
last_char-append (c ∷ []) d t = refl
last_char-append (c ∷ b ∷ s) d t = last_char-append (b ∷ s) d t
