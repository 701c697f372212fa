-- ===== src/Config/Value/Epoch.antt =====
-- `config_default_source_date_epoch`: the default that it takes from the environments.
use mkosi.Base.{
  ℕ, ◌≡◌, refl, ap, Bool, true, not, Option, none, some, List, [], ◌∷◌, map, all, any, drop_while,
  ◌==◌, arith,
}
use mkosi.Base.Text.{Text, lit, strip_prefix}
use mkosi.Base.Whitespace.{is_space, lstrip, rstrip, rstrip_onto, strip}
use mkosi.Base.Split.{partition}
use mkosi.Base.Result.{Result}
use mkosi.Config.Value.Number.{config_parse_source_date_epoch}
use mkosi.Config.Value.Sequence.{parse_environment}

abbrev nonempty_or : Option Text → Option Text → Option Text
nonempty_or none rest = rest
nonempty_or (some []) rest = rest
nonempty_or (some (c ∷ s)) rest = some (c ∷ s)

-- `for env in namespace.environment`, which is a dictionary: the loop is over its keys.
unfoldable pub epoch_of : List Text → Option Text → Option Text
unfolding strip_prefix
epoch_of [] os_environ = os_environ
epoch_of (env ∷ environment) os_environ =
    nonempty_or (strip_prefix env (lit "SOURCE_DATE_EPOCH=")) (epoch_of environment os_environ)

-- `os_environ` is `os.environ.get("SOURCE_DATE_EPOCH")`.
unfoldable pub config_default_source_date_epoch : List Text → Option Text → Result (Option ℕ)
unfolding epoch_of
config_default_source_date_epoch environment os_environ =
    config_parse_source_date_epoch (epoch_of environment os_environ) none

abbrev no_equals : Text → Bool
no_equals s = all (λ c. not (c == b'=')) s

before-no_equals : (s : Text) → no_equals (partition b'=' s).before ≡ true
unfolding partition
before-no_equals [] = refl
before-no_equals (c ∷ s) = ground (arith, before-no_equals s)

lstrip-no_equals : (s : Text) → no_equals s ≡ true → no_equals (drop_while is_space s) ≡ true
lstrip-no_equals [] h = refl
lstrip-no_equals (c ∷ s) h = ground (arith, h, lstrip-no_equals s)

rstrip-no_equals : (s : Text) → no_equals s ≡ true → no_equals (rstrip s) ≡ true
unfolding rstrip
rstrip-no_equals [] h = refl
rstrip-no_equals (c ∷ s) h = onto (rstrip s) (rstrip-no_equals s (ground (arith, h)))
  where
    onto : (r : Text) → no_equals r ≡ true → no_equals (rstrip_onto c r) ≡ true
    onto [] k = ground (arith, h)
    onto (d ∷ r) k = ground (arith, h, k)

key-no_equals : (getenv : Text → Text) (v : Text) → no_equals (parse_environment getenv v).0 ≡ true
unfolding parse_environment strip lstrip
key-no_equals getenv v =
    rstrip-no_equals (drop_while is_space (partition b'=' v).before)
      (lstrip-no_equals (partition b'=' v).before (before-no_equals v))

strip_prefix-no_equals :
    (s p : Text) → no_equals s ≡ true → any (λ c. c == b'=') p ≡ true → strip_prefix s p ≡ none
unfolding strip_prefix
strip_prefix-no_equals s [] h k = ground (arith, k)
strip_prefix-no_equals [] (q ∷ p) h k = refl
strip_prefix-no_equals (c ∷ s) (q ∷ p) h k = ground (arith, h, k, strip_prefix-no_equals s p)

prefix-no_equals :
    (s : Text) → no_equals s ≡ true → strip_prefix s (lit "SOURCE_DATE_EPOCH=") ≡ none
prefix-no_equals s h = strip_prefix-no_equals s (lit "SOURCE_DATE_EPOCH=") h refl

-- Assignments in `Environment=` do not count: the keys of the environment that they are parsed to
-- have no "=", so the default is always that of mkosi's own environment.
pub config_default_source_date_epoch-keys :
    (getenv : Text → Text) (values : List Text) (os_environ : Option Text)
    → config_default_source_date_epoch (map (λ v. (parse_environment getenv v).0) values) os_environ
      ≡ config_parse_source_date_epoch os_environ none
unfolding config_default_source_date_epoch epoch_of
config_default_source_date_epoch-keys getenv values os_environ =
    ap (λ s. config_parse_source_date_epoch s none) (from values)
  where
    from :
        (values : List Text)
        → epoch_of (map (λ v. (parse_environment getenv v).0) values) os_environ ≡ os_environ
    from [] = refl
    from (v ∷ values) =
        rw (prefix-no_equals (parse_environment getenv v).0 (key-no_equals getenv v), epoch_of)
          (from values)
