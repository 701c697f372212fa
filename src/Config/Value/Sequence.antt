-- ===== src/Config/Value/Sequence.antt =====
-- Settings that are lists or dictionaries. `shlex` is the standard library's lexer: what
-- `list(lex)` gives for a value and a delimiter is a parameter.
pub mod Laws
use mkosi.Base.{
  ℕ, Bool, true, false, not, ◌&&◌, Option, none, some, List, [], ◌∷◌, ◌++◌, map, ◌==◌,
  if◌then◌else◌,
}
use mkosi.Base.Text.{Text, lit}
use mkosi.Base.Whitespace.{strip}
use mkosi.Base.Split.{Partition, partition, split}
use mkosi.Base.Dict.{Dict, merge}
use mkosi.Base.Result.{Result, ok, failed, ◌>>=◌}
use mkosi.Ini.{is_empty}

-- `[parse(v) for v in values if v]`
unfoldable pub parse_each {ℓ} : {A : Type ℓ} → (Text → Result A) → List Text → Result (List A)
parse_each parse [] = ok []
parse_each parse ([] ∷ values) = parse_each parse values
parse_each parse ((c ∷ v) ∷ values) =
    parse (c ∷ v) >>= λ a. parse_each parse values >>= λ rest. ok (a ∷ rest)

-- `value.replace(delimiter, "\n").split("\n")`
unfoldable pub split_values : ℕ → Text → List Text
split_values delimiter value = split 10 (map (λ c. if c == delimiter then 10 else c) value)

abbrev old_or {ℓ} : {A : Type ℓ} → Option (List A) → List A
old_or none = []
old_or (some xs) = xs

-- `len(values) == 1 and values[0] == ""`
abbrev is_reset : List Text → Bool
is_reset ([] ∷ []) = true
is_reset _ = false

-- The options of a list or dictionary parser.
pub record Options : Type 0 where
  pub delimiter : ℕ
  pub unescape : Bool
  pub reset : Bool

module _ (shlex : ℕ → Text → Result (List Text)) (o : Options) where
  unfoldable pub values_of : Text → Result (List Text)
  unfolding split_values
  values_of value =
      if o.unescape then shlex o.delimiter value else ok (split_values o.delimiter value)

  unfoldable pub config_make_list_parser {ℓ} :
      {A : Type ℓ} → (Text → Result A) → Option Text → Option (List A) → Result (List A)
  unfolding values_of parse_each
  config_make_list_parser parse none old = ok []
  config_make_list_parser parse (some value) old = values_of value >>= λ values.
      if o.reset && is_reset values
      then ok []
      else parse_each parse values >>= λ new. ok (old_or old ++ new)

  unfoldable pub config_make_dict_parser {ℓ} :
      {V : Type ℓ} → (Text → Result (Text × V)) → Option Text → Option (Dict V) → Result (Dict V)
  unfolding values_of parse_each
  config_make_dict_parser parse none old = ok []
  config_make_dict_parser parse (some value) old = values_of value >>= λ values.
      if o.reset && is_reset values
      then ok []
      else parse_each parse values >>= λ new. ok (merge (old_or old) (merge [] new))

-- `parse_credential`
unfoldable pub parse_credential : Text → Text × Text
parse_credential value = let p = partition b'=' value in (strip p.before, stripped p.behind)
  where
    stripped : Option Text → Text
    stripped none = []
    stripped (some v) = strip v

-- `parse_environment`, where `getenv key` is `os.getenv(key, "")`.
unfoldable pub parse_environment : (Text → Text) → Text → Text × Text
parse_environment getenv value =
    let p = partition b'=' value in (strip p.before, own_or p.behind (getenv (strip p.before)))
  where
    own_or : Option Text → Text → Text
    own_or none d = d
    own_or (some v) d = strip v
