-- ===== src/Config/Parse/Matched.antt =====
-- What `match_config` of mkosi/config.py returns for a file: the meaning of its match sections.
use mkosi.Base.{◌≡◌, Bool, true, ◌&&◌, List, [], ◌∷◌, All}
use mkosi.Base.Text.{Text, lit}
use mkosi.Ini.{stop, yield_all, parse_ini}
use mkosi.Match.Meaning.{Group, Block, block_entries, groups, group_entries, meaning}
use mkosi.Match.Steps.{Gives, IsEvaluable}
use mkosi.Match.Refines.{AllEvaluable, match_entries-meaning}
use mkosi.Match.LastSection.{unended_holds, match_entries-unended}
use mkosi.Config.Parse.{Values, FileSystem, State, Calls}
use mkosi.Config.Parse.Condition.{evaluate, match_config}

abbrev pub match_sections : List Text
match_sections = lit "Match" ∷ lit "TriggerMatch" ∷ []

module _ {V : Type 0} (values : Values V) (fs : FileSystem) (calls : Calls V) (cwd : Text)
    (holds : Text → Text → Text → Bool) (Q : State V → Type 0) where
  -- Where a file has its match sections with their ends, other sections between, before and behind them
  -- allowed, and each condition can be evaluated in the states of Q, in which it leaves the state, with
  -- the result that `holds` says, match_config returns from such a state what the documented formula
  -- says: all [Match] sections hold, and a [TriggerMatch] section holds if there is one.
  pub match_config-meaning :
      (path : Text) (bs : List Block) (s : State V)
      → fs.exists cwd path ≡ true
      → parse_ini (fs.read_text cwd path) match_sections ≡ yield_all (block_entries bs) stop
      → Q s
      → AllEvaluable (evaluate values fs calls cwd) holds Q bs
      → Gives (match_config values fs calls cwd path s) (meaning holds (groups bs))
  unfolding match_config
  match_config-meaning path bs s there reads q fits =
      rw (there, reads) (match_entries-meaning (evaluate values fs calls cwd) holds Q bs s q fits)

  -- Where a match section is the last section of the file, under the same conditions, match_config
  -- returns the meaning of the match sections before it and the normal conditions of a last [Match]: the
  -- triggering conditions of a last [Match] and the whole of a last [TriggerMatch] do not count.
  pub match_config-unended :
      (path : Text) (bs : List Block) (g : Group) (s : State V)
      → fs.exists cwd path ≡ true
      → parse_ini (fs.read_text cwd path) match_sections
        ≡ yield_all (block_entries bs) (yield_all (group_entries g) stop)
      → Q s
      → AllEvaluable (evaluate values fs calls cwd) holds Q bs
      → All (IsEvaluable (evaluate values fs calls cwd) holds Q g.kind) g.lines
      → Gives
          (match_config values fs calls cwd path s)
          (meaning holds (groups bs) && unended_holds (evaluate values fs calls cwd) holds Q g)
  unfolding match_config
  match_config-unended path bs g s there reads q fits last =
      rw (there, reads)
        (match_entries-unended (evaluate values fs calls cwd) holds Q bs g s q fits last)
