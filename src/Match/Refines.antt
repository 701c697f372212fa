-- ===== src/Match/Refines.antt =====
-- `match_config` computes the meaning of the match sections, where each has its end.
use mkosi.Base.{
  Bool, true, false, ◌&&◌, ◌||◌, Option, none, some, List, [], ◌∷◌, all, any, ◌≡◌, refl, ap, All,
  arith, if◌then◌else◌,
}
use mkosi.Base.Text.{Text}
use mkosi.Base.Result.{Result}
use mkosi.Ini.RoundTrip.{yield_all-append}
use mkosi.Ini.{Entries, stop, yield_all}
use mkosi.Match.{start, is_set, is_not_false, match_entries}
use mkosi.Match.Meaning.{
  Kind, match, trigger_match, is_trigger_kind, Line, Group, group_end, Block, ended, other,
  block_entries, groups, group_entries, triggers, is_met, normal_hold, triggers_hold, group_holds,
  meaning,
}
use mkosi.Match.Steps.{
  progress, Gives, IsEvaluable, other_end, triggered, run, match_lines, trigger_lines,
}

-- Laws of `&&`.
pub and_assoc : (a b c : Bool) → ((a && b) && c) ≡ (a && (b && c))
and_assoc true b c = refl
and_assoc false b c = refl

pub and_true : (a : Bool) → (a && true) ≡ a
and_true true = refl
and_true false = refl

module _ {S : Type 0} (evaluate : Text → Text → Text → S → Result (Bool × S))
    (holds : Text → Text → Text → Bool) (Q : S → Type 0) where
  -- Each line of the match sections is evaluable.
  abbrev pub AllEvaluable : List Block → Type 0
  AllEvaluable [] = Unit {0}
  AllEvaluable (ended g ∷ bs) = All (IsEvaluable evaluate holds Q g.kind) g.lines × AllEvaluable bs
  AllEvaluable (other name o ∷ bs) = AllEvaluable bs

  -- `triggered` from nothing is the OR of the triggering conditions, if there are any.
  triggered-some :
      (k : Kind) (c : Bool) (ls : List Line)
      → is_not_false (triggered holds k (some c) ls)
        ≡ (c || any (λ l. triggers l && is_met holds k l) ls)
  unfolding triggered
  triggered-some k c [] = ground arith
  triggered-some k c (l ∷ ls) =
      ground (arith, triggered-some k c ls, triggered-some k (c || is_met holds k l) ls)

  triggered-none :
      (k : Kind) (ls : List Line)
      → is_not_false (triggered holds k none ls) ≡ triggers_hold holds k ls
  unfolding triggered
  triggered-none k [] = refl
  triggered-none k (l ∷ ls) =
      ground (arith, triggered-none k ls, triggered-some k (is_met holds k l) ls)

  -- The result from the sections on, where what follows them says `x` beside `match_triggered`.
  matched : Bool → Option Bool → List Group → Bool
  matched x mt [] = is_not_false mt && x
  matched x mt (g ∷ gs) =
      if is_trigger_kind g.kind
      then matched x (some (is_set mt || group_holds holds g)) gs
      else group_holds holds g && matched x mt gs

  group_step :
      (x : Bool) (k : Kind) (ls : List Line) (gs : List Group) (mt : Option Bool) (rest : Entries)
      → let g : Group = record { kind = k; lines = ls } in
        ((mt' : Option Bool) (t : S)
          → Q t
          → Gives (match_entries evaluate rest (progress none mt' false) t) (matched x mt' gs))
        → (s : S) → Q s
        → All (IsEvaluable evaluate holds Q k) ls
        → Gives (run evaluate holds Q ls k rest (progress none mt false) s) (matched x mt (g ∷ gs))
  unfolding matched
  group_step x match ls gs mt rest go_on s q n = rw (← triggered-none match ls) (
      rw and_assoc
        (match_lines evaluate holds Q mt rest (matched x mt gs) (go_on mt) ls none s q n))
  group_step x trigger_match ls gs mt rest go_on s q n =
      trigger_lines evaluate holds Q mt rest _
        (normal_hold holds trigger_match ls && triggers_hold holds trigger_match ls) (go_on _) ls
        none s q n
        (ap (λ x. normal_hold holds trigger_match ls && x) (triggered-none trigger_match ls))

  run_blocks :
      (x : Bool) (last : Entries)
      → ((mt : Option Bool) (t : S)
          → Q t
          → Gives (match_entries evaluate last (progress none mt false) t) (is_not_false mt && x))
      → (bs : List Block) (mt : Option Bool) (s : S) → Q s
      → AllEvaluable bs
      → Gives
          (match_entries evaluate (yield_all (block_entries bs) last) (progress none mt false) s)
          (matched x mt (groups bs))
  unfolding matched
  run_blocks x last h [] mt s q n = h mt s q
  run_blocks x last h (ended g ∷ bs) mt s q n =
      rw (yield_all-append (group_entries g) (group_end g.kind ∷ block_entries bs) last) (
        group_step x g.kind g.lines (groups bs) mt (yield_all (block_entries bs) last)
          (λ mt' t r. run_blocks x last h bs mt' t r n.1) s q n.0)
  run_blocks x last h (other name o ∷ bs) mt s q n =
      rw (other_end evaluate holds Q name (yield_all (block_entries bs) last) mt s o)
        (run_blocks x last h bs mt s q n)

  matched-some :
      (x c : Bool) (gs : List Group)
      → matched x (some c) gs ≡ (
          all (λ g. is_trigger_kind g.kind || group_holds holds g) gs
          && (c || any (λ g. is_trigger_kind g.kind && group_holds holds g) gs)
          && x)
  unfolding matched
  matched-some x c [] = ground arith
  matched-some x c (g ∷ gs) =
      ground (arith, matched-some x c gs, matched-some x (c || group_holds holds g) gs)

  matched-meaning : (x : Bool) (gs : List Group) → matched x none gs ≡ (meaning holds gs && x)
  unfolding matched meaning
  matched-meaning x [] = refl
  matched-meaning x (g ∷ gs) =
      ground (arith, matched-meaning x gs, matched-some x (group_holds holds g) gs)

  -- Sections that all have their end, and what follows them.
  pub match_entries-ended :
      (x : Bool) (last : Entries)
      → ((mt : Option Bool) (t : S)
          → Q t
          → Gives
              (match_entries evaluate last
                (record { condition_triggered = none; match_triggered = mt; skip = false })
                t)
              (is_not_false mt && x))
      → (bs : List Block) (s : S) → Q s
      → AllEvaluable bs
      → Gives
          (match_entries evaluate (yield_all (block_entries bs) last) start s)
          (meaning holds (groups bs) && x)
  match_entries-ended x last h bs s q n =
      rw (← matched-meaning x (groups bs)) (run_blocks x last h bs none s q n)

  stop-matches :
      (mt : Option Bool) (t : S)
      → Q t
      → Gives (match_entries evaluate stop (progress none mt false) t) (is_not_false mt && true)
  unfolding match_entries
  stop-matches none t q = (t, refl)
  stop-matches (some true) t q = (t, refl)
  stop-matches (some false) t q = (t, refl)

  -- Where each match section of a file has its end, other sections between them, before and behind
  -- included, and each condition in them can be evaluated from the given state on, with a result that
  -- does not depend on which of the states it is that the conditions lead to, `match_entries` returns
  -- what the documented formula says of the match sections.
  pub match_entries-meaning :
      (bs : List Block) (s : S)
      → Q s
      → AllEvaluable bs
      → Gives
          (match_entries evaluate (yield_all (block_entries bs) stop) start s)
          (meaning holds (groups bs))
  match_entries-meaning bs s q n =
      rw (and_true (meaning holds (groups bs))) at
        (match_entries-ended true stop stop-matches bs s q n)
