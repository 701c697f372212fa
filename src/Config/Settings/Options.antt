-- ===== src/Config/Settings/Options.antt =====
-- What the rows of `SETTINGS` share.
use mkosi.Base.{ℕ, Bool, List, [], ◌∷◌}
use mkosi.Base.Text.{Text, lit}
use mkosi.Config.Value.Sequence.{Options}

abbrev pub options : ℕ → Bool → Bool → Options
options delimiter unescape reset = record {
  delimiter = delimiter;
  unescape = unescape;
  reset = reset;
}

-- `BUILTIN_CONFIGS`
abbrev pub builtin_configs : List Text
builtin_configs = lit "mkosi-tools" ∷ lit "mkosi-initrd" ∷ []
