-- ===== src/Config/Parse/Command.antt =====
-- The command line in `parse_config` of mkosi/config.py: the verb among the arguments, and what an
-- option does to the namespace. `argparse` is a parameter, as the calls that it makes.
use mkosi.Base.{Option, none, some, List, [], ◌∷◌, ◌++◌, length, if◌then◌else◌}
use mkosi.Base.Text.{Text, lit, text_eq}
use mkosi.Base.Result.{Result, ok, failed, die, ◌>>=◌}
use mkosi.Config.Enums.{Verb}
use mkosi.Config.StrEnum.{verb_enum}
use mkosi.Config.Setting.{Setting}
use mkosi.Config.Settings.{setting_by_dest}
use mkosi.Config.Parse.{Values, FileSystem, State, Calls, attribute, set_namespace}
use mkosi.Config.Parse.Defaults.{includes, parse_new_includes}

-- `argv.insert(v_i, "--")` for the first place of the word, if `argv[v_i - 1] != "--"`; `before` is
-- the argument in front.
unfoldable pub insert_dashes : Text → Option Text → List Text → Option (List Text)
insert_dashes word before [] = none
insert_dashes word before (a ∷ argv) =
    let rest = insert_dashes word (some a) argv in
    if text_eq a word then some (dashed before (a ∷ argv)) else behind a rest
  where
    behind : Text → Option (List Text) → Option (List Text)
    behind a none = none
    behind a (some r) = some (a ∷ r)

    dashed : Option Text → List Text → List Text
    dashed none argv = argv
    dashed (some b) argv = if text_eq b (lit "--") then argv else lit "--" ∷ argv

-- `for verb in Verb`: the first verb that is an argument counts.
unfoldable pub insert_verb : List Verb → List Text → List Text
unfolding insert_dashes
insert_verb [] argv = argv ++ (lit "--" ∷ lit "build" ∷ [])
insert_verb (v ∷ verbs) argv = elim (insert_dashes (verb_enum.value v) none argv) [
  | none ↦ insert_verb verbs argv
  | some argv ↦ argv
]

-- The `values` of `ConfigAction.__call__`
pub data Given : Type 0 where
  absent : Given
  single : Text → Given
  several : List Text → Given

-- `if values is None and self.nargs == "?": values = self.const or "yes"`
unfoldable pub const_or_yes : Option Text → Option Text → Given
const_or_yes none const = Given.absent
const_or_yes (some nargs) const =
    if text_eq nargs (lit "?") then Given.single (word const) else Given.absent
  where
    word : Option Text → Text
    word none = lit "yes"
    word (some []) = lit "yes"
    word (some (c ∷ s)) = c ∷ s

abbrev pub with_const : Setting → Given → Given
with_const t Given.absent = const_or_yes t.nargs t.const_value
with_const t (Given.single v) = Given.single v
with_const t (Given.several vs) = Given.several vs

module _ {V : Type 0} (values : Values V) (fs : FileSystem) (calls : Calls V) (cwd : Text) where
  -- `setattr(namespace, s.dest, s.parse(v, getattr(namespace, self.dest, None)))`
  unfoldable pub set_value : Setting → Option Text → State V → Result (State V)
  unfolding attribute
  set_value t v s = values.parse cwd t.parse v (attribute t.dest s.namespace) >>= λ w.
      ok (set_namespace t.dest w s)

  unfoldable pub set_each_value : Setting → List Text → State V → Result (State V)
  unfolding set_value
  set_each_value t [] s = ok s
  set_each_value t (v ∷ vs) s = set_value t (some v) s >>= set_each_value t vs

  unfoldable pub set_given : Setting → Given → State V → Result (State V)
  unfolding set_each_value
  set_given t Given.absent s = set_value t none s
  set_given t (Given.single v) s = set_value t (some v) s
  set_given t (Given.several vs) s = set_each_value t vs s

  -- `ConfigAction.__call__` for the option of a dest
  unfoldable pub config_action : Text → Given → State V → Result (State V)
  unfolding set_given const_or_yes parse_new_includes includes
  config_action dest given s = elim (setting_by_dest dest) [
    | none ↦ failed (die (lit "Unknown setting"))
    | some t ↦
        set_given t (with_const t given) s
        >>= parse_new_includes values fs calls cwd (length (includes values fs s))
  ]

  -- `argparser.parse_args(argv, namespace)`: the options in the order in which they are given.
  unfoldable pub parse_args : List (Text × Given) → State V → Result (State V)
  unfolding config_action
  parse_args [] s = ok s
  parse_args ((dest, given) ∷ options) s = config_action dest given s >>= parse_args options
