-- ===== src/Config/Parse/Expand.antt =====
-- Texts whose "%" are doubled, for `expand_specifiers`.
use mkosi.Base.{◌≡◌, refl, false, [], ◌∷◌, ◌==◌, if◌then◌else◌, arith}
use mkosi.Base.Text.{Text}
use mkosi.Base.Result.{ok}
use mkosi.Config.Parse.{Values, FileSystem, State, Calls}
use mkosi.Config.Parse.Defaults.{expand_from, expand_specifiers}

-- The text with each "%" doubled.
abbrev pub escape : Text → Text
escape [] = []
escape (c ∷ s) = if c == b'%' then b'%' ∷ b'%' ∷ escape s else c ∷ escape s

module _ {V : Type 0} (values : Values V) (fs : FileSystem) (calls : Calls V) (cwd : Text) where
  expand_from-escape :
      (text : Text) (s : State V)
      → expand_from values fs calls cwd false (escape text) s ≡ ok (text, s)
  unfolding expand_from
  expand_from-escape [] s = refl
  expand_from-escape (c ∷ text) s = ground (arith, expand_from-escape text s)

  -- A text whose "%" are doubled is expanded to the text, and nothing else happens.
  pub expand_specifiers-escape :
      (text : Text) (s : State V)
      → expand_specifiers values fs calls cwd (escape text) s ≡ ok (text, s)
  unfolding expand_specifiers
  expand_specifiers-escape text s = expand_from-escape text s
