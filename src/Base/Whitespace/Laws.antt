-- ===== src/Base/Whitespace/Laws.antt =====
-- Texts that `strip` leaves alone.
use Prim.Native.Nat.{ℕ}
use mathlib.Core.Path.{◌≡◌, refl}
use mathlib.Core.Bool.{Bool, false}
use mathlib.Core.List.{[], ◌∷◌, ◌++◌}
use mkosi.Base.Text.{Text}
use mkosi.Base.Whitespace.{is_space, lstrip, rstrip, strip}

abbrev pub starts_with_space : Text → Bool
starts_with_space [] = false
starts_with_space (c ∷ s) = is_space c

-- No space at either end.
pub record IsTrimmed (t : Text) : Type 0 where
  pub front : starts_with_space t ≡ false
  pub back : rstrip t ≡ t

lstrip-trimmed : (t : Text) → starts_with_space t ≡ false → lstrip t ≡ t
unfolding lstrip
lstrip-trimmed [] h = refl
lstrip-trimmed (c ∷ t) h = rw h

pub strip-trimmed : (t : Text) → IsTrimmed t → strip t ≡ t
unfolding strip
strip-trimmed t h = rw (lstrip-trimmed t h.front) h.back

-- So a text does that has a character, and no space, at its end.
pub rstrip-cons : (c d : ℕ) (s t : Text) → rstrip s ≡ d ∷ t → rstrip (c ∷ s) ≡ c ∷ d ∷ t
unfolding rstrip
rstrip-cons c d s t h = rw h

-- A text keeps its end when something is put before it.
pub rstrip-append :
    (s : Text) (d : ℕ) (t : Text) → rstrip (d ∷ t) ≡ d ∷ t → rstrip (s ++ d ∷ t) ≡ s ++ d ∷ t
rstrip-append [] d t h = h
rstrip-append (c ∷ []) d t h = rstrip-cons c d (d ∷ t) t h
rstrip-append (c ∷ e ∷ s) d t h =
    rstrip-cons c e (e ∷ s ++ d ∷ t) (s ++ d ∷ t) (rstrip-append (e ∷ s) d t h)

-- A character that is no space keeps the end of a text.
pub rstrip-one : (d : ℕ) → is_space d ≡ false → rstrip (d ∷ []) ≡ d ∷ []
unfolding rstrip
rstrip-one d h = rw h

-- Spaces in front go.
pub strip-space : (t : Text) → IsTrimmed t → strip (32 ∷ t) ≡ t
unfolding strip lstrip
strip-space t h = strip-trimmed t h
